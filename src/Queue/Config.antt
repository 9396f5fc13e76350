-- ===== src/Queue/Config.antt =====
-- delayquene/riverquene.go: RiverConfig, the defaults that NewRiver fills in, and the timeout of a
-- delivery. Durations are nanoseconds in an int64.
use gua.Base.{ℕ, ◌-◌, ◌*◌, ◌%◌, ◌^◌, suc, ◌≤◌, ◌<◌, min, ◌==◌, ◌≡◌, Text, ltb, if◌then◌else◌, arith}
use gua.Base.Int.{ℤ, pos, negsuc, ◌≤ℤ◌, ltb_ℤ}

pub record RiverConfig : Type 0 where
  pub max_workers : ℤ
  pub max_attempts : ℤ
  pub delivery_timeout : ℤ
  pub machine_host : Text
  pub history_ttl : ℤ
  pub prune_interval : ℤ

abbrev second_ns : ℕ
second_ns = 1_000_000_000

abbrev pub default_max_workers : ℤ
default_max_workers = pos 50

abbrev pub default_max_attempts : ℤ
default_max_attempts = pos 25

abbrev pub default_delivery_timeout : ℤ
default_delivery_timeout = pos (30 * second_ns)

abbrev pub default_prune_interval : ℤ
default_prune_interval = pos (600 * second_ns)

abbrev pub max_delivery_timeout : ℤ
max_delivery_timeout = pos (600 * second_ns)

abbrev pub river_job_timeout : ℤ
river_job_timeout = pos (630 * second_ns)

abbrev pub rescue_after : ℤ
rescue_after = pos (900 * second_ns)

-- `if x <= 0 { x = default }`.
abbrev or_default : ℤ → ℤ → ℤ
or_default x default = if ltb_ℤ (pos 0) x then x else default

abbrev capped : ℤ → ℤ
capped x = if ltb_ℤ max_delivery_timeout x then max_delivery_timeout else x

-- The configuration that `NewRiver` works with.
pub normalize : RiverConfig → RiverConfig
normalize c = record c {
  max_workers = or_default c.max_workers default_max_workers;
  max_attempts = or_default c.max_attempts default_max_attempts;
  delivery_timeout = capped (or_default c.delivery_timeout default_delivery_timeout);
  prune_interval = or_default c.prune_interval default_prune_interval;
}

-- The int64 with the given bits.
abbrev signed : ℕ → ℤ
signed bits = if ltb bits (2 ^ 63) then pos bits else negsuc (2 ^ 64 - bits - 1)

-- `time.Duration(n) * time.Second`, which wraps around.
pub seconds_duration : ℤ → ℤ
seconds_duration (pos n) = signed (n * second_ns % 2 ^ 64)
seconds_duration (negsuc n) = signed ((2 ^ 64 - suc n * second_ns % 2 ^ 64) % 2 ^ 64)

-- The timeout of a delivery, from the job's `timeout` in seconds.
pub effective_timeout : RiverConfig → ℤ → ℤ
effective_timeout cfg timeout = capped (or_default (seconds_duration timeout) cfg.delivery_timeout)

-- Under a configuration from `NewRiver`, every delivery has a positive timeout of at most ten minutes,
-- which is below River's own timeout, and that is below the rescue window.
pub effective_timeout_bounds :
    (c : RiverConfig) (timeout : ℤ)
    → let t = effective_timeout (normalize c) timeout in
      (pos 1 ≤ℤ t)
      × (t ≤ℤ max_delivery_timeout)
      × (max_delivery_timeout ≤ℤ river_job_timeout)
      × (river_job_timeout ≤ℤ rescue_after)
unfolding effective_timeout normalize seconds_duration
effective_timeout_bounds c (pos n) = ground arith
effective_timeout_bounds c (negsuc n) = ground arith

-- A job's timeout of `n` seconds, from none to 9223372036, is taken as it is up to ten minutes and cut
-- to them beyond; 0 stands for the configured timeout.
pub effective_timeout_exact :
    (c : RiverConfig) (n : ℕ)
    → n < 9_223_372_037
    → effective_timeout (normalize c) (pos n)
      ≡ (if n == 0 then (normalize c).delivery_timeout else pos (min n 600 * 1_000_000_000))
unfolding effective_timeout normalize seconds_duration
effective_timeout_exact c n h = ground arith

-- A job's timeout from 9223372037 to 18446744073 seconds is not capped at ten minutes: the product
-- overflows to a negative duration, and the delivery gets the configured timeout.
pub effective_timeout_overflow :
    (c : RiverConfig) (n : ℕ)
    → 9_223_372_037 ≤ n
    → n ≤ 18_446_744_073
    → effective_timeout (normalize c) (pos n) ≡ (normalize c).delivery_timeout
unfolding effective_timeout normalize seconds_duration
effective_timeout_overflow c n low high = ground arith

-- The configured timeout of `n` seconds.
pub normalize-timeout :
    (c : RiverConfig) (n : ℕ)
    → c.delivery_timeout ≡ seconds_duration (pos n)
    → n < 9_223_372_037
    → (normalize c).delivery_timeout
      ≡ (if n == 0 then default_delivery_timeout else pos (min n 600 * 1_000_000_000))
unfolding normalize seconds_duration
normalize-timeout c n is h = ground (arith, is)

pub normalize-overflow :
    (c : RiverConfig) (n : ℕ)
    → c.delivery_timeout ≡ seconds_duration (pos n)
    → 9_223_372_037 ≤ n
    → n ≤ 18_446_744_073
    → (normalize c).delivery_timeout ≡ default_delivery_timeout
unfolding normalize seconds_duration
normalize-overflow c n is low high = ground (arith, is)
