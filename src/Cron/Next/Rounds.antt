-- ===== src/Cron/Next/Rounds.antt =====
-- One round of the loops of `Next` (delayquene/spec.go), from `WRAP:` to `return t` or the next
-- `goto WRAP`.
use gua.Base.{◌-◌, ◌≡◌, ◌⊎◌, inl, inr, Bool, false, arith}
use gua.Cron.Bits.{has_bit}
use gua.Cron.Calendar.{Time, IsTime, month_key, day_key, hour_key, minute_key}
use gua.Cron.Calendar.Order.{month_key-injective, day_key-injective}
use gua.Cron.Next.{
  SpecSchedule, Scan, matched, wrapped, stuck, scan, and_then, round, day_matches, month_loop,
  day_loop, hour_loop, minute_loop, second_loop,
}
use gua.Cron.Next.OneLoop.{Skips, IsScan, scan-IsScan}
use gua.Cron.Next.Loops.{
  month_loop-IsLoop, day_loop-IsLoop, hour_loop-IsLoop, minute_loop-IsLoop, second_loop-IsLoop,
}
use gua.Cron.Next.Ready.{
  matches, IsReady, IsRound, IsRound-later, BeforeDay, BeforeHour, BeforeMinute, BeforeSecond,
  BeforeDay-same, BeforeHour-same, BeforeMinute-same, BeforeSecond-same,
}
use gua.Cron.Next.Wraps.{
  second_wrap-IsReady, minute_wrap-IsReady, hour_wrap-IsReady, day_wrap-IsReady, month_wrap-IsReady,
  month_match-IsReady, day_match-IsReady, hour_match-IsReady, minute_match-IsReady,
}

-- Where one field fails, the schedule does not match.
matches-split :
    (s : SpecSchedule) (u : Time)
    → (has_bit u.month s.month ≡ false)
      ⊎ (day_matches s u ≡ false)
      ⊎ (has_bit u.hour s.hour ≡ false)
      ⊎ (has_bit u.minute s.minute ≡ false)
      ⊎ (has_bit u.second s.second ≡ false)
    → matches s u ≡ false
matches-split s u h = ground arith

same_year_below : (t u : Time) → IsTime t → IsTime u → day_key u ≡ day_key t → u.year ≡ t.year
same_year_below t u ht hu e = (month_key-injective u t hu ht (day_key-injective u t hu ht e).0).0

module _ (s : SpecSchedule) where
  -- What a loop skips, the schedule does not match.
  Skips-month : (t t' : Time) → Skips (month_loop s).matches t t' → Skips (matches s) t t'
  Skips-month t t' skips u hu from to = matches-split s u (inl (skips u hu from to))

  Skips-day : (t t' : Time) → Skips (day_loop s).matches t t' → Skips (matches s) t t'
  Skips-day t t' skips u hu from to = matches-split s u (inr (inl (skips u hu from to)))

  Skips-hour : (t t' : Time) → Skips (hour_loop s).matches t t' → Skips (matches s) t t'
  Skips-hour t t' skips u hu from to = matches-split s u (inr (inr (inl (skips u hu from to))))

  Skips-minute : (t t' : Time) → Skips (minute_loop s).matches t t' → Skips (matches s) t t'
  Skips-minute t t' skips u hu from to =
      matches-split s u (inr (inr (inr (inl (skips u hu from to)))))

  Skips-second : (t t' : Time) → Skips (second_loop s).matches t t' → Skips (matches s) t t'
  Skips-second t t' skips u hu from to =
      matches-split s u (inr (inr (inr (inr (skips u hu from to)))))

  second-IsRound :
      (t : Time) (a : Bool) (r : Scan)
      → IsReady s t a
      → BeforeSecond s t
      → IsScan (second_loop s) minute_key t a r
      → IsRound s t r
  second-IsRound t a (matched t' a') ready b (m, v, le, skips, up, kept) =
      let b' = BeforeSecond-same s t t' ready.valid v up b in
      (
        ground (arith, b', m),
        v,
        ground arith,
        same_year_below t t' ready.valid v (omega arith),
        le,
        Skips-second t t' skips,
      )
  second-IsRound t a (wrapped t') ready b (p, v, up, is, wr, lt, skips) =
      let b' = BeforeSecond-same s t p ready.valid v up b in
      (rw is (second_wrap-IsReady s p v b'), lt, Skips-second t t' skips)
  second-IsRound t a stuck ready b x = x

  seconds : Time → Bool → Scan
  seconds t a = scan (second_loop s) 60 t a

  seconds-IsRound :
      (t : Time) (a : Bool) → IsReady s t a → BeforeSecond s t → IsRound s t (seconds t a)
  unfolding seconds
  seconds-IsRound t a ready b = second-IsRound t a (seconds t a) ready b (
      scan-IsScan (second_loop s) 60 (λ x. x.second) minute_key (second_loop-IsLoop s) 60 t a
        ready.valid (λ _. inl (ground (arith, ready.whole))) (omega arith))

  -- From the loop over minutes on.
  minute-IsRound :
      (t : Time) (a : Bool) (r : Scan)
      → IsReady s t a
      → BeforeMinute s t
      → IsScan (minute_loop s) hour_key t a r
      → IsRound s t (and_then r seconds)
  unfolding and_then
  minute-IsRound t a (matched t' a') ready b (m, v, le, skips, up, kept) =
      let (b₀, b₁, b₂) = BeforeMinute-same s t t' ready.valid v up b in
      let ready' = minute_match-IsReady s t t' a a' ready v (b₀, b₁, b₂, m) kept in
      IsRound-later s t t' (seconds t' a') (same_year_below t t' ready.valid v (omega arith)) le
        (Skips-minute t t' skips) (seconds-IsRound t' a' ready' (b₀, b₁, b₂, m))
  minute-IsRound t a (wrapped t') ready b (p, v, up, is, wr, lt, skips) =
      let b' = BeforeMinute-same s t p ready.valid v up b in
      (rw is (minute_wrap-IsReady s p v b'), lt, Skips-minute t t' skips)
  minute-IsRound t a stuck ready b x = x

  minutes : Time → Bool → Scan
  minutes t a = and_then (scan (minute_loop s) 60 t a) seconds

  minutes-IsRound :
      (t : Time) (a : Bool) → IsReady s t a → BeforeMinute s t → IsRound s t (minutes t a)
  unfolding minutes
  minutes-IsRound t a ready b = minute-IsRound t a (scan (minute_loop s) 60 t a) ready b (
      scan-IsScan (minute_loop s) 60 (λ x. x.minute) hour_key (minute_loop-IsLoop s) 60 t a
        ready.valid ready.minute_ready (omega arith))

  -- From the loop over hours on.
  hour-IsRound :
      (t : Time) (a : Bool) (r : Scan)
      → IsReady s t a
      → BeforeHour s t
      → IsScan (hour_loop s) day_key t a r
      → IsRound s t (and_then r minutes)
  unfolding and_then
  hour-IsRound t a (matched t' a') ready b (m, v, le, skips, up, kept) =
      let (b₀, b₁) = BeforeHour-same s t t' ready.valid v up b in
      let ready' = hour_match-IsReady s t t' a a' ready v (b₀, b₁, m) kept in
      IsRound-later s t t' (minutes t' a') (same_year_below t t' ready.valid v (omega arith)) le
        (Skips-hour t t' skips) (minutes-IsRound t' a' ready' (b₀, b₁, m))
  hour-IsRound t a (wrapped t') ready b (p, v, up, is, wr, lt, skips) =
      let b' = BeforeHour-same s t p ready.valid v up b in
      (rw is (hour_wrap-IsReady s p v b'), lt, Skips-hour t t' skips)
  hour-IsRound t a stuck ready b x = x

  hours : Time → Bool → Scan
  hours t a = and_then (scan (hour_loop s) 24 t a) minutes

  hours-IsRound : (t : Time) (a : Bool) → IsReady s t a → BeforeHour s t → IsRound s t (hours t a)
  unfolding hours
  hours-IsRound t a ready b = hour-IsRound t a (scan (hour_loop s) 24 t a) ready b (
      scan-IsScan (hour_loop s) 24 (λ x. x.hour) day_key (hour_loop-IsLoop s) 24 t a ready.valid
        ready.hour_ready (omega arith))

  -- From the loop over days on.
  day-IsRound :
      (t : Time) (a : Bool) (r : Scan)
      → IsReady s t a
      → BeforeDay s t
      → IsScan (day_loop s) month_key t a r
      → IsRound s t (and_then r hours)
  unfolding and_then
  day-IsRound t a (matched t' a') ready b (m, v, le, skips, up, kept) =
      let b' = BeforeDay-same s t t' ready.valid v up b in
      let ready' = day_match-IsReady s t t' a a' ready v (b', m) kept in
      IsRound-later s t t' (hours t' a') (month_key-injective t' t v ready.valid up).0 le
        (Skips-day t t' skips) (hours-IsRound t' a' ready' (b', m))
  day-IsRound t a (wrapped t') ready b (p, v, up, is, wr, lt, skips) =
      let b' = BeforeDay-same s t p ready.valid v up b in
      (rw is (day_wrap-IsReady s p v b'), lt, Skips-day t t' skips)
  day-IsRound t a stuck ready b x = x

  days : Time → Bool → Scan
  days t a = and_then (scan (day_loop s) 31 t a) hours

  days-IsRound : (t : Time) (a : Bool) → IsReady s t a → BeforeDay s t → IsRound s t (days t a)
  unfolding days
  days-IsRound t a ready b = day-IsRound t a (scan (day_loop s) 31 t a) ready b (
      scan-IsScan (day_loop s) 31 (λ x. x.day - 1) month_key (day_loop-IsLoop s) 31 t a ready.valid
        ready.day_ready (omega arith))

  month-IsRound :
      (t : Time) (a : Bool) (r : Scan)
      → IsReady s t a
      → IsScan (month_loop s) (λ x. x.year) t a r
      → IsRound s t (and_then r days)
  unfolding and_then
  month-IsRound t a (matched t' a') ready (m, v, le, skips, up, kept) =
      let ready' = month_match-IsReady s t t' a a' ready v m kept in
      IsRound-later s t t' (days t' a') up le (Skips-month t t' skips) (days-IsRound t' a' ready' m)
  month-IsRound t a (wrapped t') ready (p, v, up, is, wr, lt, skips) =
      (rw is (month_wrap-IsReady s p v), lt, Skips-month t t' skips)
  month-IsRound t a stuck ready x = x

  -- A round ends at the first time that matches, or skips times that do not match up to a later one.
  pub round-IsRound : (t : Time) (a : Bool) → IsReady s t a → IsRound s t (round s t a)
  unfolding round days hours minutes seconds
  round-IsRound t a ready = month-IsRound t a (scan (month_loop s) 12 t a) ready (
      scan-IsScan (month_loop s) 12 (λ x. x.month - 1) (λ x. x.year) (month_loop-IsLoop s) 12 t a
        ready.valid ready.month_ready (omega arith))
