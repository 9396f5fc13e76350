-- ===== src/Cron/Next/First.antt =====
-- `Next` (delayquene/spec.go) returns the first activation after its argument.
use gua.Base.{
  ℕ, zero, suc, ◌+◌, ◌≤◌, ◌<◌, ◌≡◌, refl, sym, ◌⊎◌, inl, inr, Bool, true, false, ltb, arith, ◌∙◌,
  Bool-cases,
}
use gua.Cron.Calendar.{Time, IsTime, zero_time, days_in_month_bounds, key}
use gua.Cron.Calendar.Order.{add_second-IsTime, add_second-later, add_second-least}
use gua.Cron.Next.{
  SpecSchedule, Scan, matched, wrapped, stuck, round, Outcome, found, not_found, out_of_fuel,
  search_from, upcoming, year_limit, wraps_below, activation, outcome, next,
}
use gua.Cron.Next.OneLoop.{Skips, Skips-append}
use gua.Cron.Next.Ready.{matches, IsReady, fresh-IsReady, IsRound}
use gua.Cron.Next.Rounds.{round-IsRound}

true≢false : ◌≡◌ {A = Bool} true false → ⊥
true≢false h = cc

-- No time from `t` on and up to the year `limit` matches.
abbrev NoMatch : SpecSchedule → ℕ → Time → Type 0
NoMatch s limit t = (u : Time) → IsTime u → key t ≤ key u → u.year ≤ limit → matches s u ≡ false

abbrev IsOutcome : SpecSchedule → ℕ → Time → Outcome → Type 0
IsOutcome s limit t (found u) =
    (matches s u ≡ true)
    × IsTime u
    × (u.nano ≡ 0)
    × (u.year ≤ limit)
    × (key t ≤ key u)
    × Skips (matches s) t u
IsOutcome s limit t not_found = NoMatch s limit t
IsOutcome s limit t out_of_fuel = ⊥

key-lt-wraps_below : (limit : ℕ) (t : Time) → IsTime t → t.year ≤ limit → key t < wraps_below limit
key-lt-wraps_below limit t h le = omega (arith, days_in_month_bounds t.year t.month)

later_year : (t u : Time) → IsTime t → IsTime u → key t ≤ key u → t.year ≤ u.year
later_year t u ht hu le =
    omega (arith, days_in_month_bounds t.year t.month, days_in_month_bounds u.year u.month)

module _ (s : SpecSchedule) (limit : ℕ) where
  again : ℕ → Time → Outcome
  again fuel u = search_from s limit fuel u true

  from_round :
      (t : Time) (r : Scan) (fuel : ℕ)
      → IsTime t
      → t.year ≤ limit
      → ((u : Time) → IsReady s u true → key t < key u → IsOutcome s limit u (again fuel u))
      → IsRound s t r
      → IsOutcome s limit t
          (elim r [ matched u a ↦ found u | wrapped u ↦ again fuel u | stuck ↦ out_of_fuel ])
  from_round t (matched u a) fuel ht le rest (m, v, n, y, from, skips) =
      (m, v, n, omega arith, from, skips)
  from_round t (wrapped u) fuel ht le rest (ready, lt, skips) =
      extend (again fuel u) (rest u ready lt)
    where
      extend : (o : Outcome) → IsOutcome s limit u o → IsOutcome s limit t o
      extend (found v) (m, hv, n, y, from, skips') =
          (m, hv, n, y, omega arith, Skips-append (matches s) t u v skips skips')
      extend not_found nowhere = λ v hv from y. elim (Bool-cases (ltb (key v) (key u))) [
        | inl before ↦ skips v hv from (ground arith)
        | inr after ↦ nowhere v hv (ground arith) y
      ]
      extend out_of_fuel x = x
  from_round t stuck fuel ht le rest x = x

  search_from-IsOutcome :
      (fuel : ℕ) (t : Time) (a : Bool)
      → IsReady s t a
      → 1 ≤ fuel
      → (t.year ≤ limit → wraps_below limit + 1 ≤ key t + fuel)
      → IsOutcome s limit t (search_from s limit fuel t a)
  unfolding search_from again
  search_from-IsOutcome zero t a ready pos enough = absurd (omega arith)
  search_from-IsOutcome (suc fuel) t a ready pos enough = elim (Bool-cases (ltb limit t.year)) [
    | inl over ↦ rw over λ u hu from le. absurd (ground (arith, later_year t u ready.valid hu from))
    | inr within ↦
        let le : t.year ≤ limit = ground arith in
        let room = key-lt-wraps_below limit t ready.valid le in
        rw within (
          from_round t (round s t a) fuel ready.valid le
            (λ u ready' lt.
              search_from-IsOutcome fuel u true ready' (omega (arith, enough le))
                (λ _. omega (arith, enough le)))
            (round-IsRound s t a ready))
  ]

upcoming-IsTime : (t : Time) → IsTime t → IsTime (upcoming t)
unfolding upcoming
upcoming-IsTime t h = omega (arith, add_second-IsTime t h)

key-upcoming : (t : Time) → IsTime t → key t < key (upcoming t)
unfolding upcoming
key-upcoming t h = add_second-later t h

upcoming-least : (t u : Time) → IsTime t → IsTime u → key t < key u → key (upcoming t) ≤ key u
unfolding upcoming
upcoming-least t u ht hu lt = add_second-least t u ht hu lt

nano-upcoming : (t : Time) → (upcoming t).nano ≡ 0
unfolding upcoming
nano-upcoming t = refl

-- The search ends: its fuel does not run out.
outcome-IsOutcome :
    (s : SpecSchedule) (t : Time) → IsTime t → IsOutcome s (year_limit t) (upcoming t) (outcome s t)
unfolding outcome
outcome-IsOutcome s t h =
    let v = upcoming-IsTime t h in
    search_from-IsOutcome s (year_limit t) (wraps_below (year_limit t)) (upcoming t) false
      (fresh-IsReady s (upcoming t) v (nano-upcoming t)) (omega arith)
      (λ _. omega (arith, key-upcoming t h))

-- `u` is the first time after `t` that the schedule matches, on a whole second.
pub record IsFirstAfter (s : SpecSchedule) (t u : Time) : Type 0 where
  pub valid : IsTime u
  pub whole : u.nano ≡ 0
  pub match : matches s u ≡ true
  pub later : key t < key u
  pub within : u.year ≤ year_limit t
  pub first : (v : Time) → IsTime v → key t < key v → key v < key u → matches s v ≡ false

module _ (s : SpecSchedule) (t : Time) (ht : IsTime t) where
  found-IsFirstAfter :
      (u : Time) → IsOutcome s (year_limit t) (upcoming t) (found u) → IsFirstAfter s t u
  found-IsFirstAfter u (m, v, n, y, from, skips) = record {
    valid = v;
    whole = n;
    match = m;
    later = omega (arith, key-upcoming t ht);
    within = y;
    first = λ w hw lt. skips w hw (upcoming-least t w ht hw lt);
  }

  -- The search ended, at the first activation or at the limit.
  abbrev Ended : Outcome → Time → Type 0
  Ended o u =
      (IsFirstAfter s t u × (o ≡ found u))
      ⊎ ((u ≡ zero_time) × (o ≡ not_found) × NoMatch s (year_limit t) (upcoming t))

  next-cases : (o : Outcome) → IsOutcome s (year_limit t) (upcoming t) o → Ended o (activation o)
  next-cases (found u) is = inl (found-IsFirstAfter u is, refl)
  next-cases not_found is = inr (refl, refl, is)
  next-cases out_of_fuel is = absurd is

  next_split : Ended (outcome s t) (next s t)
  unfolding next
  next_split = next-cases (outcome s t) (outcome-IsOutcome s t ht)

-- If the schedule matches some time after `t`, up to the end of the fifth year after that of the
-- upcoming second, then `Next` returns the first such time: it lies after `t` on a whole second, all
-- its fields match, and no time between the two matches.
pub next-IsFirstAfter :
    (s : SpecSchedule) (t v : Time)
    → IsTime t
    → IsTime v
    → key t < key v
    → v.year ≤ year_limit t
    → matches s v ≡ true
    → IsFirstAfter s t (next s t)
next-IsFirstAfter s t v ht hv lt le m = elim (next_split s t ht) [
  | inl (is, _) ↦ is
  | inr (_, _, nowhere) ↦
      absurd (true≢false (sym m ∙ nowhere v hv (upcoming-least t v ht hv lt) le))
]

-- If the schedule matches no time after `t` up to the end of the fifth year after that of the
-- upcoming second, then the search of `Next` ends within its fuel without an activation, and `Next`
-- returns the zero time.
pub next-zero_time :
    (s : SpecSchedule) (t : Time)
    → IsTime t
    → ((v : Time) → IsTime v → key t < key v → v.year ≤ year_limit t → matches s v ≡ false)
    → (outcome s t ≡ not_found) × (next s t ≡ zero_time)
next-zero_time s t ht nowhere = elim (next_split s t ht) [
  | inl (is, _) ↦
      let none_here = nowhere (next s t) is.valid is.later is.within in
      absurd (true≢false (sym is.match ∙ none_here))
  | inr (is_zero, ends, _) ↦ (ends, is_zero)
]
