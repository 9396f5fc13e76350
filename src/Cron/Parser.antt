-- ===== src/Cron/Parser.antt =====
-- delayquene/parser.go: NewParser, Parser.Parse, expandFields, Parse, parseDescriptor, Every and the
-- method Next of ConstantDelaySchedule. `time.ParseDuration` reads fractions in floating point and is
-- the parameter `parse_duration`, a number of nanoseconds.
pub mod Masks
pub mod Delay
pub mod Seconds
pub mod Printed
use gua.Base.{
  ℕ, zero, suc, ◌+◌, ◌-◌, ◌*◌, ◌/◌, ◌%◌, ◌^◌, bit_and, bit_or, ◌≡◌, refl, Bool, true, false, ◌&&◌,
  ◌||◌, Option, none, some, List, [], ◌∷◌, Text, codes, ◌=t◌, ltb, leb, ◌==◌, if◌then◌else◌, Result,
  ok, err, ◌>>=◌, length,
}
use gua.Base.Int.{ℤ, pos, negsuc}
use gua.Base.Strings.{fields, trim_space, has_prefix, drop_prefix}
use gua.Cron.Calendar.{Time, add_seconds}
use gua.Cron.Field.{
  ParseError, empty_spec, field_count, bad_duration, unrecognized, panicked, Bounds, seconds,
  minutes, hours, dom, months, dow, shl64, all, get_field, field_code,
}
use gua.Cron.Next.{SpecSchedule}

-- The bits of ParseOption.
abbrev pub opt_second : ℕ
opt_second = 1

abbrev pub opt_minute : ℕ
opt_minute = 2

abbrev pub opt_hour : ℕ
opt_hour = 4

abbrev pub opt_dom : ℕ
opt_dom = 8

abbrev pub opt_month : ℕ
opt_month = 16

abbrev pub opt_dow : ℕ
opt_dow = 32

abbrev pub opt_dow_optional : ℕ
opt_dow_optional = 64

abbrev pub opt_descriptor : ℕ
opt_descriptor = 128

-- `places` with `defaults`.
abbrev pub places : List (ℕ × Text)
places =
    (opt_second, codes "0")
    ∷ (opt_minute, codes "0")
    ∷ (opt_hour, codes "0")
    ∷ (opt_dom, codes "*")
    ∷ (opt_month, codes "*")
    ∷ (opt_dow, codes "*")
    ∷ []

abbrev has_option : ℕ → ℕ → Bool
has_option options place = ltb 0 (bit_and options place)

pub record Parser : Type 0 where
  pub options : ℕ
  pub optionals : ℕ

pub new_parser : ℕ → Parser
new_parser options =
    if has_option options opt_dow_optional
    then record { options = bit_or options opt_dow; optionals = 1 }
    else record { options = options; optionals = 0 }

pub data Schedule : Type 0 where
  spec_schedule : SpecSchedule → Schedule
  constant_delay : ℕ → Schedule

abbrev pub second_ns : ℕ
second_ns = 1_000_000_000

-- `Every`: the delay in nanoseconds.
pub every : ℤ → ℕ
every (negsuc n) = second_ns
every (pos n) = let d = (if ltb n second_ns then second_ns else n) in d - d % second_ns

-- `t.Add(delay - t.Nanosecond())`, for a delay of whole seconds.
pub delay_next : ℕ → Time → Time
delay_next delay t = record (add_seconds (delay / second_ns) t) { nano = 0 }

-- `max`: how many fields the options ask for.
wanted : ℕ → List (ℕ × Text) → ℕ
wanted options [] = 0
wanted options ((place, default) ∷ rest) =
    let n = wanted options rest in if has_option options place then suc n else n

abbrev defaults : List (ℕ × Text) → List Text
defaults [] = []
defaults ((place, default) ∷ rest) = default ∷ defaults rest

abbrev put_field : Text → Option (List Text) → Option (List Text)
put_field f none = none
put_field f (some fs) = some (f ∷ fs)

-- The loop of `expandFields`; none where `fields[n]` is out of range.
expand_fields : ℕ → List (ℕ × Text) → List Text → Option (List Text)
expand_fields options [] fs = some []
expand_fields options ((place, default) ∷ rest) [] =
    if has_option options place then none else some (default ∷ defaults rest)
expand_fields options ((place, default) ∷ rest) (f ∷ []) =
    let later = expand_fields options rest (f ∷ []) in
    if has_option options place then some (f ∷ defaults rest) else put_field default later
expand_fields options ((place, default) ∷ rest) (f ∷ g ∷ fs) =
    let taken = expand_fields options rest (g ∷ fs) in
    let later = expand_fields options rest (f ∷ g ∷ fs) in
    if has_option options place then put_field f taken else put_field default later

-- The six calls of `field`, the first error being kept.
pub parse_fields : Option (List Text) → Result ParseError SpecSchedule
parse_fields (some (f₀ ∷ f₁ ∷ f₂ ∷ f₃ ∷ f₄ ∷ f₅ ∷ [])) = do
  second ← get_field f₀ seconds
  minute ← get_field f₁ minutes
  hour ← get_field f₂ hours
  dayofmonth ← get_field f₃ dom
  month ← get_field f₄ months
  dayofweek ← get_field f₅ dow
  ok (record {
    second = second;
    minute = minute;
    hour = hour;
    dom = dayofmonth;
    month = month;
    dow = dayofweek;
  })
parse_fields other = err panicked

abbrev as_schedule : SpecSchedule → Result ParseError Schedule
as_schedule s = ok (spec_schedule s)

abbrev min_bit : Bounds → ℕ
min_bit r = shl64 1 r.min

-- The fixed schedules of `parseDescriptor`.
pub yearly : SpecSchedule
yearly = record {
  second = min_bit seconds;
  minute = min_bit minutes;
  hour = min_bit hours;
  dom = min_bit dom;
  month = min_bit months;
  dow = all dow;
}

pub monthly : SpecSchedule
monthly = record yearly { month = all months }

pub weekly : SpecSchedule
weekly = record yearly { dom = all dom; month = all months; dow = min_bit dow }

pub daily : SpecSchedule
daily = record yearly { dom = all dom; month = all months }

pub hourly : SpecSchedule
hourly = record yearly { hour = all hours; dom = all dom; month = all months }

abbrev pub standard_parser : Parser
standard_parser =
    new_parser (opt_minute + opt_hour + opt_dom + opt_month + opt_dow + opt_descriptor)

abbrev pub seconds_parser : Parser
seconds_parser =
    new_parser (opt_second + opt_minute + opt_hour + opt_dom + opt_month + opt_dow + opt_descriptor)

module _ (parse_duration : Text → Option ℤ) where
  abbrev every_or_error : Option ℤ → Result ParseError Schedule
  every_or_error none = err bad_duration
  every_or_error (some d) = ok (constant_delay (every d))

  pub parse_descriptor : Text → Result ParseError Schedule
  parse_descriptor d =
      if d =t codes "@yearly" || d =t codes "@annually"
      then as_schedule yearly
      else if d =t codes "@monthly"
      then as_schedule monthly
      else if d =t codes "@weekly"
      then as_schedule weekly
      else if d =t codes "@daily" || d =t codes "@midnight"
      then as_schedule daily
      else if d =t codes "@hourly"
      then as_schedule hourly
      else if has_prefix d (codes "@every ")
      then every_or_error (parse_duration (drop_prefix d (codes "@every ")))
      else err unrecognized

  -- `Parser.Parse`.
  pub parser_parse : Parser → Text → Result ParseError Schedule
  parser_parse p [] = err empty_spec
  parser_parse p (c ∷ spec) =
      let most = wanted p.options places in
      let fs = fields (c ∷ spec) in
      if c == b'@' && has_option p.options opt_descriptor
      then parse_descriptor (c ∷ spec)
      else if ltb (length fs) (most - p.optionals) || ltb most (length fs)
      then err field_count
      else do s ← parse_fields (expand_fields p.options places fs); as_schedule s

  -- `Parse`.
  pub parse : Text → Result ParseError Schedule
  parse spec =
      let trimmed = trim_space spec in
      let count = length (fields spec) in
      if has_prefix trimmed (codes "@")
      then parser_parse seconds_parser trimmed
      else if count == 5
      then parser_parse standard_parser spec
      else if count == 6
      then parser_parse seconds_parser spec
      else err field_count

-- Opens the code above, for a run on a concrete pattern.
unfoldable pub parser_code : Unit {0}
unfolding parse parser_parse parse_descriptor new_parser wanted expand_fields parse_fields every
    yearly monthly weekly daily hourly field_code fields trim_space has_prefix drop_prefix ◌=t◌
parser_code = tt
