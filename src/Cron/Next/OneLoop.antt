-- ===== src/Cron/Next/OneLoop.antt =====
-- What one loop of `Next` (delayquene/spec.go) does, from laws that the five loops share.
use gua.Base.{
  ℕ, zero, suc, ◌+◌, ◌≤◌, ◌<◌, ◌≡◌, refl, sym, ap, ◌⊎◌, inl, inr, Bool, true, false, if◌then◌else◌,
  Bool-cases, arith, ◌∙◌,
}
use native.Mathlib.Decide.{dec_lt}
use gua.Cron.Calendar.{Time, IsTime, key}
use gua.Cron.Next.{Scan, matched, wrapped, stuck, Loop, scan}

-- The start of the loop's next unit.
abbrev pub next_unit : Loop → Time → Time
next_unit l t = l.advance (l.reset t)

-- `place` is the field that the loop counts up, `upper` stands for the larger fields.
pub record IsLoop (l : Loop) (size : ℕ) (place upper : Time → ℕ) : Type 0 where
  pub place_lt : (t : Time) → IsTime t → place t < size
  pub next_time : (t : Time) → IsTime t → IsTime (next_unit l t)
  pub next_start : (t : Time) → IsTime t → l.reset (next_unit l t) ≡ next_unit l t
  pub next_later : (t : Time) → IsTime t → key t < key (next_unit l t)
  pub next_same :
      (t u : Time)
      → IsTime t
      → IsTime u
      → key t ≤ key u
      → key u < key (next_unit l t)
      → l.matches u ≡ l.matches t
  pub next_place :
      (t : Time)
      → IsTime t
      → l.wraps (next_unit l t) ≡ false
      → (place (next_unit l t) ≡ suc (place t)) × (upper (next_unit l t) ≡ upper t)

-- No time from `t` on and before `t'` passes the test.
abbrev pub Skips : (Time → Bool) → Time → Time → Type 0
Skips test t t' = (u : Time) → IsTime u → key t ≤ key u → key u < key t' → test u ≡ false

-- What the loop returns from the time `t` with the flag `a`.
abbrev pub IsScan : Loop → (Time → ℕ) → Time → Bool → Scan → Type 0
IsScan l upper t a (matched t' a') =
    (l.matches t' ≡ true)
    × IsTime t'
    × (key t ≤ key t')
    × Skips l.matches t t'
    × (upper t' ≡ upper t)
    × (((t' ≡ t) × (a' ≡ a)) ⊎ ((l.reset t' ≡ t') × (a' ≡ true)))
IsScan l upper t a (wrapped t') =
    (p : Time) × IsTime p
    × (upper p ≡ upper t)
    × (t' ≡ next_unit l p)
    × (l.wraps t' ≡ true)
    × (key t < key t')
    × Skips l.matches t t'
IsScan l upper t a stuck = ⊥

-- Where the flag is set, a reset changes nothing or is not reached.
abbrev pub IsReset : Loop → Time → Bool → Type 0
IsReset l t a = a ≡ true → (l.reset t ≡ t) ⊎ (l.matches t ≡ true)

pub Skips-append :
    (test : Time → Bool) (t p q : Time) → Skips test t p → Skips test p q → Skips test t q
Skips-append test t p q first second u hu from to = elim (dec_lt (key u) (key p)) [
  | yes before ↦ first u hu from before
  | no after ↦ second u hu (omega arith) to
]

true≢false : ◌≡◌ {A = Bool} true false → ⊥
true≢false h = cc

module _ (l : Loop) (size : ℕ) (place upper : Time → ℕ) (laws : IsLoop l size place upper) where
  Skips-next : (t : Time) → IsTime t → l.matches t ≡ false → Skips l.matches t (next_unit l t)
  Skips-next t h no_match u hu from to = laws.next_same t u h hu from to ∙ no_match

  from_next :
      (t : Time) (a : Bool) (r : Scan)
      → IsTime t
      → l.matches t ≡ false
      → l.wraps (next_unit l t) ≡ false
      → IsScan l upper (next_unit l t) true r
      → IsScan l upper t a r
  from_next t a (matched t' a') h no_match no_wrap (m, v, le, skips, up, kept) = (
    m,
    v,
    omega (arith, laws.next_later t h),
    Skips-append l.matches t (next_unit l t) t' (Skips-next t h no_match) skips,
    up ∙ (laws.next_place t h no_wrap).1,
    inr (reset_kept kept),
  )
    where
      reset_kept :
          ((t' ≡ next_unit l t) × (a' ≡ true)) ⊎ ((l.reset t' ≡ t') × (a' ≡ true))
          → (l.reset t' ≡ t') × (a' ≡ true)
      reset_kept (inl (e, flag)) = (rw e (laws.next_start t h), flag)
      reset_kept (inr k) = k
  from_next t a (wrapped t') h no_match no_wrap (p, v, up, is, wr, lt, skips) = (
    p,
    v,
    up ∙ (laws.next_place t h no_wrap).1,
    is,
    wr,
    omega (arith, laws.next_later t h),
    Skips-append l.matches t (next_unit l t) t' (Skips-next t h no_match) skips,
  )
  from_next t a stuck h no_match no_wrap s = s

  step-eq-next :
      (t : Time) (a : Bool)
      → IsReset l t a
      → l.matches t ≡ false
      → l.advance (if a then t else l.reset t) ≡ next_unit l t
  step-eq-next t false e no_match = refl
  step-eq-next t true e no_match = elim (e refl) [
    | inl start ↦ ap l.advance (sym start)
    | inr match ↦ absurd (true≢false (sym match ∙ no_match))
  ]

  -- With fuel for the rest of its range, the loop stops at the first match or at the wrap-around.
  pub scan-IsScan :
      (fuel : ℕ) (t : Time) (a : Bool)
      → IsTime t
      → IsReset l t a
      → size ≤ place t + fuel
      → IsScan l upper t a (scan l fuel t a)
  unfolding scan
  scan-IsScan zero t a h e enough = absurd (omega (arith, laws.place_lt t h))
  scan-IsScan (suc fuel) t a h e enough = elim (Bool-cases (l.matches t)) [
    | inl m ↦ rw m (m, h, omega arith, λ u hu from to. absurd (omega arith), refl, inl (refl, refl))
    | inr no_match ↦
        rw (no_match, step-eq-next t a e no_match)
          (elim (Bool-cases (l.wraps (next_unit l t))) [
            | inl wr ↦ rw wr (t, h, refl, refl, wr, laws.next_later t h, Skips-next t h no_match)
            | inr no_wrap ↦ rw no_wrap (
                from_next t a (scan l fuel (next_unit l t) true) h no_match no_wrap (
                  scan-IsScan fuel (next_unit l t) true (laws.next_time t h)
                    (λ _. inl (laws.next_start t h))
                    (omega (arith, (laws.next_place t h no_wrap).0))))
          ])
  ]
