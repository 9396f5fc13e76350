-- ===== src/Cron/Next.antt =====
-- delayquene/spec.go: SpecSchedule, its method Next, and dayMatches. The five loops of Next have one
-- shape, which is `scan`; `goto WRAP` is the result `wrapped`.
pub mod OneLoop
pub mod Loops
pub mod Ready
pub mod Wraps
pub mod Rounds
pub mod First
use gua.Base.{
  ℕ, zero, suc, ◌+◌, ◌*◌, ◌^◌, ◌≡◌, refl, Bool, true, false, ◌&&◌, ◌||◌, ltb, ◌==◌, if◌then◌else◌,
}
use gua.Cron.Bits.{has_bit}
use gua.Cron.Calendar.{
  Time, zero_time, weekday, add_second, add_minute, add_hour, add_day, add_month, calendar_code,
}

pub record SpecSchedule : Type 0 where
  pub second : ℕ
  pub minute : ℕ
  pub hour : ℕ
  pub dom : ℕ
  pub month : ℕ
  pub dow : ℕ

-- The time at which a loop of Next leaves off: where its field matches, or where it wrapped around.
-- `stuck` is a loop that used up its fuel.
pub data Scan : Type 0 where
  matched : Time → Bool → Scan
  wrapped : Time → Scan
  stuck : Scan

-- What differs between the five loops: the test, the reset before the first step, the step, and the
-- test for a wrap-around.
pub record Loop : Type 0 where
  pub matches : Time → Bool
  pub reset : Time → Time
  pub advance : Time → Time
  pub wraps : Time → Bool

-- `for !matches(t) { if !added { added = true; t = reset(t) }; t = advance(t); if wraps(t) { goto
-- WRAP } }`, on fuel.
pub scan : Loop → ℕ → Time → Bool → Scan
scan l zero t added = stuck
scan l (suc fuel) t added =
    let t' = l.advance (if added then t else l.reset t) in
    let rest = scan l fuel t' true in
    if l.matches t then matched t added else if l.wraps t' then wrapped t' else rest

unfoldable pub day_matches : SpecSchedule → Time → Bool
day_matches s t =
    let dom_match = has_bit t.day s.dom in
    let dow_match = has_bit (weekday t.year t.month t.day) s.dow in
    if has_bit 63 s.dom || has_bit 63 s.dow then dom_match && dow_match else dom_match || dow_match

abbrev pub month_loop : SpecSchedule → Loop
month_loop s = record {
  matches = λ t. has_bit t.month s.month;
  reset = λ t. record t { day = 1; hour = 0; minute = 0; second = 0; nano = 0 };
  advance = add_month;
  wraps = λ t. t.month == 1;
}

abbrev pub day_loop : SpecSchedule → Loop
day_loop s = record {
  matches = day_matches s;
  reset = λ t. record t { hour = 0; minute = 0; second = 0; nano = 0 };
  advance = add_day;
  wraps = λ t. t.day == 1;
}

abbrev pub hour_loop : SpecSchedule → Loop
hour_loop s = record {
  matches = λ t. has_bit t.hour s.hour;
  reset = λ t. record t { minute = 0; second = 0; nano = 0 };
  advance = add_hour;
  wraps = λ t. t.hour == 0;
}

abbrev pub minute_loop : SpecSchedule → Loop
minute_loop s = record {
  matches = λ t. has_bit t.minute s.minute;
  reset = λ t. record t { second = 0; nano = 0 };
  advance = add_minute;
  wraps = λ t. t.minute == 0;
}

abbrev pub second_loop : SpecSchedule → Loop
second_loop s = record {
  matches = λ t. has_bit t.second s.second;
  reset = λ t. record t { nano = 0 };
  advance = add_second;
  wraps = λ t. t.second == 0;
}

-- The loops in a row: the next loop starts where the one before matched.
pub and_then : Scan → (Time → Bool → Scan) → Scan
and_then (matched t added) f = f t added
and_then (wrapped t) f = wrapped t
and_then stuck f = stuck

-- The body between `WRAP:` and `return t`. Each loop makes at most one round for each value of its
-- field before it wraps.
pub round : SpecSchedule → Time → Bool → Scan
round s t added = and_then (scan (month_loop s) 12 t added) λ t added.
    and_then (scan (day_loop s) 31 t added) λ t added.
      and_then (scan (hour_loop s) 24 t added) λ t added.
        and_then (scan (minute_loop s) 60 t added) λ t added. scan (second_loop s) 60 t added

pub data Outcome : Type 0 where
  found : Time → Outcome
  not_found : Outcome
  out_of_fuel : Outcome

-- From `WRAP:` on, with the year limit and fuel.
pub search_from : SpecSchedule → ℕ → ℕ → Time → Bool → Outcome
search_from s limit zero t added = out_of_fuel
search_from s limit (suc fuel) t added =
    let again = λ (u : Time). search_from s limit fuel u true in
    if ltb limit t.year then not_found else elim (round s t added) [
      | matched u a ↦ found u
      | wrapped u ↦ again u
      | stuck ↦ out_of_fuel
    ]

-- The upcoming second.
pub upcoming : Time → Time
upcoming t = record (add_second t) { nano = 0 }

pub year_limit : Time → ℕ
unfolding upcoming
year_limit t = (upcoming t).year + 5

-- Every wrap-around is at a later second, so this many are more than there are up to the limit.
abbrev pub wraps_below : ℕ → ℕ
wraps_below limit = (limit + 2) * 12 * 32 * 24 * 60 * 60

pub outcome : SpecSchedule → Time → Outcome
outcome s t = search_from s (year_limit t) (wraps_below (year_limit t)) (upcoming t) false

-- What a search that does not end would give: no time at all, since no month is the month 0.
abbrev pub no_time : Time
no_time = record { year = 0; month = 0; day = 0; hour = 0; minute = 0; second = 0; nano = 0 }

abbrev pub activation : Outcome → Time
activation (found u) = u
activation not_found = zero_time
activation out_of_fuel = no_time

pub next : SpecSchedule → Time → Time
next s t = activation (outcome s t)

-- Opens the code above, for a run on a concrete schedule.
unfoldable pub next_code : Unit {0}
unfolding next outcome search_from round and_then scan upcoming year_limit day_matches has_bit
    calendar_code
next_code = tt

abbrev pub leap_day_noon : SpecSchedule
leap_day_noon = record {
  second = 1;
  minute = 1;
  hour = 2 ^ 12;
  dom = 2 ^ 29;
  month = 2 ^ 2;
  dow = 2 ^ 63 + 127;
}

abbrev pub new_year : Time
new_year = record { year = 2026; month = 1; day = 1; hour = 0; minute = 0; second = 0; nano = 5 }

next_leap_day :
    next leap_day_noon new_year
    ≡ record { year = 2028; month = 2; day = 29; hour = 12; minute = 0; second = 0; nano = 0 }
unfolding next_code
next_leap_day = refl

never : next (record leap_day_noon { dom = 2 ^ 30 }) new_year ≡ zero_time
unfolding next_code
never = refl
