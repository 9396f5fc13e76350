-- ===== src/Cron/Fires.antt =====
-- A pattern's text and its activations: Parse of delayquene/parser.go before Next of delayquene/spec.go.
use gua.Base.{
  ℕ, ◌≤◌, ◌<◌, ◌≡◌, ◌∙◌, refl, sym, Bool, true, false, ◌&&◌, ◌||◌, Option, List, [], ◌∷◌, Text, All,
  any, ok, arith,
}
use gua.Base.Int.{ℤ}
use gua.Cron.Calendar.{Time, IsTime, weekday}
use gua.Cron.Calendar.{key}
use gua.Cron.Field.{Bounds, dom, dow}
use gua.Cron.Field.Printed.{Range, holds, Fits}
use gua.Cron.Next.{SpecSchedule, next, day_matches, year_limit}
use gua.Cron.Next.Ready.{matches}
use gua.Cron.Next.First.{next-IsFirstAfter}
use gua.Cron.Parser.{parse, spec_schedule}
use gua.Cron.Parser.Printed.{
  Ranges, Pattern, FitsPattern, Reads, print_pattern, parse-print_pattern,
}

-- A number is a member of one of a field's progressions.
abbrev pub is_member : ℕ → Ranges → Bool
is_member k f = any (holds k) (f.first ∷ f.others)

-- A pattern fires at a time: the day of the month or the day of the week is one that it lists, and so are
-- the other parts.
abbrev pub fires : Pattern → Time → Bool
fires p t =
    is_member t.month p.month
    && (is_member t.day p.day || is_member (weekday t.year t.month t.day) p.weekday)
    && is_member t.hour p.hour
    && is_member t.minute p.minute
    && is_member t.second p.second

beyond :
    (r : Bounds) (k : ℕ) (xs : List Range) → r.max < k → All (Fits r) xs → any (holds k) xs ≡ false
beyond r k [] h fs = refl
beyond r k (x ∷ xs) h (f, fs) = ground (arith, f.to_max, beyond r k xs h fs)

module _ (p : Pattern) (fits : FitsPattern p) (s : SpecSchedule) (reads : Reads p s) where
  -- No star is set.
  matches-fires : (t : Time) → matches s t ≡ fires p t
  unfolding day_matches
  matches-fires t = rw (
    reads.day 63,
    beyond dom 63 (p.day.first ∷ p.day.others) (omega arith) fits.day,
    reads.weekday 63,
    beyond dow 63 (p.weekday.first ∷ p.weekday.others) (omega arith) fits.weekday,
    reads.month t.month,
    reads.day t.day,
    reads.weekday (weekday t.year t.month t.day),
    reads.hour t.hour,
    reads.minute t.minute,
    reads.second t.second,
  )

-- `u` is the first time after `t` at which the pattern fires, on a whole second.
pub record FirstFire (p : Pattern) (t u : Time) : Type 0 where
  pub valid : IsTime u
  pub whole : u.nano ≡ 0
  pub fired : fires p u ≡ true
  pub later : key t < key u
  pub first : (v : Time) → IsTime v → key t < key v → key v < key u → fires p v ≡ false

-- A pattern of six fields, each of which lists progressions within the field's bounds as `start-end/step`
-- in decimal digits with steps below 100, is parsed into a schedule. Where the pattern fires some time
-- after `t`, up to the end of the fifth year after that of the upcoming second, `Next` of the schedule
-- returns the first time after `t` at which it fires.
pub next-FirstFire :
    (parse_duration : Text → Option ℤ) (p : Pattern) (t v : Time)
    → FitsPattern p
    → IsTime t
    → IsTime v
    → key t < key v
    → v.year ≤ year_limit t
    → fires p v ≡ true
    → (s : SpecSchedule) × (parse parse_duration (print_pattern p) ≡ ok (spec_schedule s))
      × FirstFire p t (next s t)
next-FirstFire parse_duration p t v fits ht hv after within fired =
    let (s, read, reads) = parse-print_pattern p fits parse_duration in
    let same = matches-fires p fits s reads in
    let is = next-IsFirstAfter s t v ht hv after within (same v ∙ fired) in
    (
      s,
      read,
      record {
        valid = is.valid;
        whole = is.whole;
        fired = sym (same (next s t)) ∙ is.match;
        later = is.later;
        first = λ u hu from before. sym (same u) ∙ is.first u hu from before;
      },
    )
