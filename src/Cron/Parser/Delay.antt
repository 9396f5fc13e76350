-- ===== src/Cron/Parser/Delay.antt =====
-- `@every` schedules (delayquene/parser.go: Every, ConstantDelaySchedule.Next).
use gua.Base.{ℕ, ◌+◌, ◌*◌, ◌≤◌, ◌<◌, ◌≡◌, ◌⊎◌}
use gua.Base.Int.{ℤ, pos, negsuc}

-- A duration in nanoseconds, where it is positive.
abbrev pub nanoseconds : ℤ → ℕ
nanoseconds (pos n) = n
nanoseconds (negsuc n) = 0

-- The most whole seconds that are not longer than the duration `d`, or one second where it is shorter.
abbrev pub IsDelay : ℤ → ℕ → Type 0
IsDelay d seconds =
    (1 ≤ seconds)
    × ((seconds ≡ 1) ⊎ (seconds * 1_000_000_000 ≤ nanoseconds d))
    × (nanoseconds d < (seconds + 1) * 1_000_000_000)
