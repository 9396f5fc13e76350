-- ===== src/Server/Settings.antt =====
-- What the environment of logging.go and cmdriver.go sets: the timeout of deliveries, and where the log goes.
use gua.Base.{
  ℕ, ◌*◌, ◌<◌, ◌≤◌, ◌≡◌, ◌∙◌, refl, ap, Bool, true, false, ◌||◌, not, some, [], ◌∷◌, Text, codes,
  ◌=t◌, =t→eq, if◌then◌else◌, any, min, ◌==◌, Bool-cases, arith, inl, inr,
}
use gua.Base.Int.{ℤ, pos}
use gua.Base.Strings.{trim_space, atoi}
use gua.Queue.Config.{
  RiverConfig, seconds_duration, normalize, effective_timeout, default_delivery_timeout,
  effective_timeout_exact, normalize-timeout, normalize-overflow,
}
use gua.Server.{
  Env, env_int, or_given, Writer, stdout, rotated, log_output, log_writers, river_config,
  start_config,
}

-- The value of GUA_DELIVERY_TIMEOUT is the number.
abbrev IsTimeout : Env → ℕ → Type 0
IsTimeout env n = atoi (trim_space (env (codes "GUA_DELIVERY_TIMEOUT"))) ≡ some (pos n)

env_int-given :
    (env : Env) (key : Text) (default n : ℤ)
    → atoi (trim_space (env key)) ≡ some n
    → env_int env key default ≡ n
unfolding env_int atoi ◌=t◌
env_int-given env key default n h = by_value (trim_space (env key)) h
  where
    by_value :
        (v : Text) → atoi v ≡ some n → (if v =t [] then default else or_given default (atoi v)) ≡ n
    by_value [] h = absurd cc
    by_value (c ∷ v) h = rw h refl

start_config-some :
    (env : Env) (host : Text) {c : RiverConfig}
    → start_config env host ≡ some c
    → c ≡ river_config env host
unfolding start_config
start_config-some env host h = ground arith

-- A server that starts with GUA_DELIVERY_TIMEOUT set to `n` seconds, from none to 9223372036, gives a
-- delivery of a job without a timeout of its own those seconds up to ten minutes, ten minutes
-- beyond, and thirty seconds for 0.
pub start_config-timeout :
    (env : Env) (host : Text) (n : ℕ) {c : RiverConfig}
    → start_config env host ≡ some c
    → IsTimeout env n
    → n < 9_223_372_037
    → effective_timeout (normalize c) (pos 0)
      ≡ (if n == 0 then default_delivery_timeout else pos (min n 600 * 1_000_000_000))
unfolding river_config
start_config-timeout env host n {c} starts given small =
    effective_timeout_exact c 0 (omega arith)
    ∙ normalize-timeout c n
        (ap (λ (c : RiverConfig). c.delivery_timeout) (start_config-some env host starts)
          ∙ ap seconds_duration (env_int-given env _ (pos 0) (pos n) given))
        small

-- With GUA_DELIVERY_TIMEOUT from 9223372037 to 18446744073 seconds the product overflows, and such a
-- delivery gets thirty seconds.
pub start_config-overflow :
    (env : Env) (host : Text) (n : ℕ) {c : RiverConfig}
    → start_config env host ≡ some c
    → IsTimeout env n
    → 9_223_372_037 ≤ n
    → n ≤ 18_446_744_073
    → effective_timeout (normalize c) (pos 0) ≡ default_delivery_timeout
unfolding river_config
start_config-overflow env host n {c} starts given low high =
    effective_timeout_exact c 0 (omega arith)
    ∙ normalize-overflow c n
        (ap (λ (c : RiverConfig). c.delivery_timeout) (start_config-some env host starts)
          ∙ ap seconds_duration (env_int-given env _ (pos 0) (pos n) given))
        low high

abbrev is_stdout : Writer → Bool
is_stdout stdout = true
is_stdout (rotated r) = false

abbrev pub is_rotated : Writer → Bool
is_rotated stdout = false
is_rotated (rotated r) = true

-- For every environment, the log goes to the standard output unless LOG_OUTPUT says `file`, so that it goes
-- somewhere, and to a rotated file exactly if LOG_OUTPUT says `file` or `both`.
log_writers-covered :
    (env : Env)
    → (any is_stdout (log_writers env) ≡ not (log_output env =t codes "file"))
      × (any is_rotated (log_writers env)
          ≡ (log_output env =t codes "file" || log_output env =t codes "both"))
unfolding log_writers ◌=t◌
log_writers-covered env = elim (Bool-cases (log_output env =t codes "file")) [
  | inl file ↦ let e = =t→eq (log_output env) (codes "file") file in rw e (refl, refl)
  | inr other ↦ elim (Bool-cases (log_output env =t codes "both")) [
    | inl both ↦ let e = =t→eq (log_output env) (codes "both") both in rw e (refl, refl)
    | inr neither ↦ ground (arith, other, neither)
  ]
]
