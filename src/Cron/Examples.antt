-- ===== src/Cron/Examples.antt =====
-- The theorems on schedules, at concrete schedules, times and patterns.
use gua.Base.{
  ℕ, [], ◌∷◌, length, ◌+◌, ◌^◌, ◌≡◌, ◌≤◌, refl, true, false, codes, Text, Option, none, ok, arith,
}
use gua.Base.Int.{ℤ}
use gua.Cron.Bits.{has_bit, has_none}
use gua.Cron.Calendar.{Time, zero_time, IsTime, add_seconds, calendar_code}
use gua.Cron.Calendar.Count.{second_count, second_count-add_seconds}
use gua.Cron.Field.{field_code, get_field, minutes}
use gua.Cron.Next.{
  SpecSchedule, next, next_code, year_limit, leap_day_noon, new_year, outcome, not_found,
}
use gua.Cron.Next.Ready.{matches}
use gua.Cron.Next.First.{IsFirstAfter, next-IsFirstAfter, next-zero_time}
use gua.Base.Strings.{has_prefix, trim_space, fields}
use gua.Cron.Parser.Seconds.{parse-zero_seconds}
use gua.Cron.Fires.{fires, FirstFire, next-FirstFire}
use gua.Cron.Field.Printed.{Range}
use gua.Cron.Parser.Printed.{
  Ranges, Pattern, print_pattern, FitsPattern, Reads, parse-print_pattern,
}
use gua.Cron.Parser.{spec_schedule, parse, parser_code, hourly}
use gua.Cron.Parser.Masks.{InBounds, parse-InBounds}

new_year-IsTime : IsTime new_year
unfolding calendar_code
new_year-IsTime = omega arith

abbrev leap_noon : Time
leap_noon = record { year = 2028; month = 2; day = 29; hour = 12; minute = 0; second = 0; nano = 0 }

leap_noon-IsTime : IsTime leap_noon
unfolding calendar_code
leap_noon-IsTime = omega arith

leap_noon-matches : matches leap_day_noon leap_noon ≡ true
unfolding next_code
leap_noon-matches = refl

in_limit : leap_noon.year ≤ year_limit new_year
unfolding next_code
in_limit = omega arith

next-IsFirstAfter_example : IsFirstAfter leap_day_noon new_year (next leap_day_noon new_year)
next-IsFirstAfter_example =
    next-IsFirstAfter leap_day_noon new_year leap_noon new_year-IsTime leap_noon-IsTime
      (omega arith) in_limit leap_noon-matches

-- What the pattern `0 0 12 * , *` stands for.
abbrev no_month : SpecSchedule
no_month = record leap_day_noon { month = 0 }

no_month-matches : (v : Time) → matches no_month v ≡ false
no_month-matches v = ground (arith, has_none v.month)

next-zero_time_example :
    (outcome no_month new_year ≡ not_found) × (next no_month new_year ≡ zero_time)
next-zero_time_example =
    next-zero_time no_month new_year new_year-IsTime (λ v _ _ _. no_month-matches v)

quarters : get_field (codes "*/15") minutes ≡ ok (2 ^ 63 + 2 ^ 45 + 2 ^ 30 + 2 ^ 15 + 1)
unfolding field_code
quarters = refl

has_45 : has_bit 45 (2 ^ 63 + 2 ^ 45 + 2 ^ 30 + 2 ^ 15 + 1) ≡ true
unfolding next_code
has_45 = refl

abbrev no_duration : Text → Option ℤ
no_duration _ = none

parse-hourly : parse no_duration (codes "@hourly") ≡ ok (spec_schedule hourly)
unfolding parser_code
parse-hourly = refl

parse-InBounds_example : InBounds hourly
parse-InBounds_example = parse-InBounds no_duration (codes "@hourly") hourly parse-hourly

second_count-add_seconds_example :
    second_count (add_seconds 90_000 new_year) ≡ second_count new_year + 90_000
second_count-add_seconds_example =
    second_count-add_seconds 90_000 new_year new_year-IsTime (omega arith)

no_descriptor : has_prefix (trim_space (codes "*/5 * * * *")) (codes "@") ≡ false
unfolding parser_code
no_descriptor = refl

five_fields : length (fields (codes "*/5 * * * *")) ≡ 5
unfolding parser_code
five_fields = refl

parse-zero_seconds_example :
    parse no_duration (codes "*/5 * * * *") ≡ parse no_duration (codes "0 */5 * * * *")
parse-zero_seconds_example =
    parse-zero_seconds no_duration (codes "*/5 * * * *") no_descriptor five_fields

-- The patterns that the descriptors stand for.
as_pattern :
    (parse no_duration (codes "@annually") ≡ parse no_duration (codes "0 0 0 1 1 *"))
    × (parse no_duration (codes "@monthly") ≡ parse no_duration (codes "0 0 0 1 * *"))
    × (parse no_duration (codes "@weekly") ≡ parse no_duration (codes "0 0 0 * * 0"))
    × (parse no_duration (codes "@midnight") ≡ parse no_duration (codes "0 0 * * *"))
    × (parse no_duration (codes "@hourly") ≡ parse no_duration (codes "0 * * * *"))
unfolding parser_code
as_pattern = (refl, refl, refl, refl, refl)

abbrev progression : ℕ → ℕ → ℕ → Range
progression start end step = record { start = start; end = end; step = step }

abbrev only : Range → Ranges
only x = record { first = x; others = [] }

abbrev office_hours : Pattern
office_hours = record {
  second = only (progression 0 0 1);
  minute = record { first = progression 0 30 15; others = progression 45 59 7 ∷ [] };
  hour = only (progression 9 17 2);
  day = only (progression 1 31 1);
  month = only (progression 1 12 1);
  weekday = only (progression 1 5 1);
}

office_hours-fits : FitsPattern office_hours
office_hours-fits = ground arith

parse-print_pattern_example :
    (s : SpecSchedule) × (parse no_duration (print_pattern office_hours) ≡ ok (spec_schedule s))
    × Reads office_hours s
parse-print_pattern_example = parse-print_pattern office_hours office_hours-fits no_duration

office_hours_text :
    print_pattern office_hours ≡ codes "0-0/1 0-30/15,45-59/7 9-17/2 1-31/1 1-12/1 1-5/1"
office_hours_text = refl

abbrev leap_afternoon : Time
leap_afternoon = record leap_noon { hour = 15 }

leap_afternoon-IsTime : IsTime leap_afternoon
unfolding calendar_code
leap_afternoon-IsTime = omega arith

office_hours-fire : fires office_hours leap_afternoon ≡ true
unfolding next_code
office_hours-fire = refl

next-FirstFire_example :
    (s : SpecSchedule) × (parse no_duration (print_pattern office_hours) ≡ ok (spec_schedule s))
    × FirstFire office_hours new_year (next s new_year)
next-FirstFire_example =
    next-FirstFire no_duration office_hours new_year leap_afternoon office_hours-fits
      new_year-IsTime leap_afternoon-IsTime (omega arith) in_limit office_hours-fire
