-- ===== src/Cron/Next/Ready.antt =====
-- What holds of a time at `WRAP:` in `Next` (delayquene/spec.go) and between its loops, and what one
-- round of the loops returns.
use gua.Base.{◌≤◌, ◌<◌, ◌≡◌, ap, ◌⊎◌, inl, inr, Bool, true, false, ◌&&◌, arith, ◌∙◌}
use gua.Cron.Bits.{has_bit}
use gua.Cron.Calendar.{Time, IsTime, month_key, day_key, hour_key, minute_key, key}
use gua.Cron.Calendar.Order.{month_key-injective, day_key-injective}
use gua.Cron.Next.{
  SpecSchedule, Scan, matched, wrapped, stuck, day_matches, month_loop, day_loop, hour_loop,
  minute_loop,
}
use gua.Cron.Next.OneLoop.{Skips, Skips-append, IsReset}
use gua.Cron.Next.Loops.{day_matches-same}

-- All fields of the schedule match.
abbrev pub matches : SpecSchedule → Time → Bool
matches s t =
    has_bit t.month s.month
    && day_matches s t
    && has_bit t.hour s.hour
    && has_bit t.minute s.minute
    && has_bit t.second s.second

-- What holds at `WRAP:` and between the loops: where the flag is set and a field does not match, the
-- smaller fields are at their start.
pub record IsReady (s : SpecSchedule) (t : Time) (a : Bool) : Type 0 where
  pub valid : IsTime t
  pub whole : t.nano ≡ 0
  pub month_ready : IsReset (month_loop s) t a
  pub day_ready : IsReset (day_loop s) t a
  pub hour_ready : IsReset (hour_loop s) t a
  pub minute_ready : IsReset (minute_loop s) t a

abbrev pub IsRound : SpecSchedule → Time → Scan → Type 0
IsRound s t (matched t' a') =
    (matches s t' ≡ true)
    × IsTime t'
    × (t'.nano ≡ 0)
    × (t'.year ≡ t.year)
    × (key t ≤ key t')
    × Skips (matches s) t t'
IsRound s t (wrapped t') = IsReady s t' true × (key t < key t') × Skips (matches s) t t'
IsRound s t stuck = ⊥

-- Where the flag is not set, nothing is asked of the smaller fields.
pub fresh-IsReady : (s : SpecSchedule) (t : Time) → IsTime t → t.nano ≡ 0 → IsReady s t false
fresh-IsReady s t h n = record {
  valid = h;
  whole = n;
  month_ready = λ e. cc;
  day_ready = λ e. cc;
  hour_ready = λ e. cc;
  minute_ready = λ e. cc;
}

module _ (s : SpecSchedule) where
  pub IsRound-later :
      (t p : Time) (r : Scan)
      → p.year ≡ t.year
      → key t ≤ key p
      → Skips (matches s) t p
      → IsRound s p r
      → IsRound s t r
  IsRound-later t p (matched t' a') y le skips (m, v, n, y', le', skips') =
      (m, v, n, y' ∙ y, omega arith, Skips-append (matches s) t p t' skips skips')
  IsRound-later t p (wrapped t') y le skips (ready, lt, skips') =
      (ready, omega arith, Skips-append (matches s) t p t' skips skips')
  IsRound-later t p stuck y le skips x = x

  -- The fields before a loop match.
  abbrev pub BeforeDay : Time → Type 0
  BeforeDay t = has_bit t.month s.month ≡ true

  abbrev pub BeforeHour : Time → Type 0
  BeforeHour t = BeforeDay t × (day_matches s t ≡ true)

  abbrev pub BeforeMinute : Time → Type 0
  BeforeMinute t = BeforeDay t × (day_matches s t ≡ true) × (has_bit t.hour s.hour ≡ true)

  abbrev pub BeforeSecond : Time → Type 0
  BeforeSecond t =
      BeforeDay t
      × (day_matches s t ≡ true)
      × (has_bit t.hour s.hour ≡ true)
      × (has_bit t.minute s.minute ≡ true)

  pub BeforeDay-same :
      (t p : Time) → IsTime t → IsTime p → month_key p ≡ month_key t → BeforeDay t → BeforeDay p
  BeforeDay-same t p ht hp e b = ap (λ m. has_bit m s.month) (month_key-injective p t hp ht e).1 ∙ b

  pub BeforeHour-same :
      (t p : Time) → IsTime t → IsTime p → day_key p ≡ day_key t → BeforeHour t → BeforeHour p
  BeforeHour-same t p ht hp e (m, d) = (
    BeforeDay-same t p ht hp (day_key-injective p t hp ht e).0 m,
    day_matches-same s p t hp ht e ∙ d,
  )

  pub BeforeMinute-same :
      (t p : Time) → IsTime t → IsTime p → hour_key p ≡ hour_key t → BeforeMinute t → BeforeMinute p
  BeforeMinute-same t p ht hp e (m, d, h) =
      let (m', d') = BeforeHour-same t p ht hp (omega arith) (m, d) in
      let same : p.hour ≡ t.hour = omega arith in (m', d', ap (λ x. has_bit x s.hour) same ∙ h)

  pub BeforeSecond-same :
      (t p : Time)
      → IsTime t
      → IsTime p
      → minute_key p ≡ minute_key t
      → BeforeSecond t
      → BeforeSecond p
  BeforeSecond-same t p ht hp e (m, d, h, i) =
      let (m', d', h') = BeforeMinute-same t p ht hp (omega arith) (m, d, h) in
      let same : p.minute ≡ t.minute = omega arith in
      (m', d', h', ap (λ x. has_bit x s.minute) same ∙ i)

  -- A time where each field matches or the smaller ones are at their start.
  pub landed-IsReady :
      (t : Time)
      → IsTime t
      → t.nano ≡ 0
      → ((t.day ≡ 1) × (t.hour ≡ 0) × (t.minute ≡ 0) × (t.second ≡ 0)) ⊎ BeforeDay t
      → ((t.hour ≡ 0) × (t.minute ≡ 0) × (t.second ≡ 0)) ⊎ (day_matches s t ≡ true)
      → ((t.minute ≡ 0) × (t.second ≡ 0)) ⊎ (has_bit t.hour s.hour ≡ true)
      → (t.second ≡ 0) ⊎ (has_bit t.minute s.minute ≡ true)
      → IsReady s t true
  landed-IsReady t h n m d hr mi = record {
    valid = h;
    whole = n;
    month_ready = λ _. elim m [ inl z ↦ inl (ground arith) | inr b ↦ inr b ];
    day_ready = λ _. elim d [ inl z ↦ inl (ground arith) | inr b ↦ inr b ];
    hour_ready = λ _. elim hr [ inl z ↦ inl (ground arith) | inr b ↦ inr b ];
    minute_ready = λ _. elim mi [ inl z ↦ inl (ground arith) | inr b ↦ inr b ];
  }
