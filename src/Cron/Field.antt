-- ===== src/Cron/Field.antt =====
-- The fields of a cron pattern (delayquene/parser.go: getField, getRange, parseIntOrName,
-- mustParseInt, getBits) and the bounds of each field (delayquene/spec.go).
pub mod Ranges
pub mod Accepts
pub mod Printed
use gua.Base.{
  ℕ, zero, suc, ◌+◌, ◌-◌, ◌*◌, ◌%◌, ◌^◌, bit_and, bit_or, ◌≡◌, refl, Bool, true, false, ◌||◌,
  Option, none, some, List, [], ◌∷◌, Text, codes, ◌=t◌, ltb, leb, ◌==◌, if◌then◌else◌, Result, ok,
  err, ◌>>=◌, ◌>>◌,
}
use gua.Base.Int.{ℤ, pos, negsuc}
use gua.Base.Strings.{split, fields_func, to_lower, atoi}

-- The errors of the parser, one for each message.
pub data ParseError : Type 0 where
  empty_spec field_count bad_int negative_int too_many_hyphens too_many_slashes : ParseError
  below_minimum above_maximum beyond_end zero_step bad_duration unrecognized : ParseError
  -- An index out of range.
  panicked : ParseError

pub record Bounds : Type 0 where
  pub min : ℕ
  pub max : ℕ
  pub names : List (Text × ℕ)

abbrev pub seconds : Bounds
seconds = record { min = 0; max = 59; names = [] }

abbrev pub minutes : Bounds
minutes = record { min = 0; max = 59; names = [] }

abbrev pub hours : Bounds
hours = record { min = 0; max = 23; names = [] }

abbrev pub dom : Bounds
dom = record { min = 1; max = 31; names = [] }

abbrev pub month_names : List (Text × ℕ)
month_names =
    (codes "jan", 1)
    ∷ (codes "feb", 2)
    ∷ (codes "mar", 3)
    ∷ (codes "apr", 4)
    ∷ (codes "may", 5)
    ∷ (codes "jun", 6)
    ∷ (codes "jul", 7)
    ∷ (codes "aug", 8)
    ∷ (codes "sep", 9)
    ∷ (codes "oct", 10)
    ∷ (codes "nov", 11)
    ∷ (codes "dec", 12)
    ∷ []

abbrev pub months : Bounds
months = record { min = 1; max = 12; names = month_names }

abbrev pub dow_names : List (Text × ℕ)
dow_names =
    (codes "sun", 0)
    ∷ (codes "mon", 1)
    ∷ (codes "tue", 2)
    ∷ (codes "wed", 3)
    ∷ (codes "thu", 4)
    ∷ (codes "fri", 5)
    ∷ (codes "sat", 6)
    ∷ []

abbrev pub dow : Bounds
dow = record { min = 0; max = 6; names = dow_names }

-- Bit 63 marks a star.
abbrev pub star_bit : ℕ
star_bit = 2 ^ 63

abbrev max_uint64 : ℕ
max_uint64 = 2 ^ 64 - 1

-- `x << n` and `^x` on a uint64.
abbrev pub shl64 : ℕ → ℕ → ℕ
shl64 x n = x * 2 ^ n % 2 ^ 64

abbrev pub not64 : ℕ → ℕ
not64 x = max_uint64 - x

-- `for i := min; i <= max; i += step { bits |= 1 << i }`, on fuel.
pub set_bits : ℕ → ℕ → ℕ → ℕ → ℕ → ℕ
set_bits zero i max step bits = bits
set_bits (suc fuel) i max step bits =
    let rest = set_bits fuel (i + step) max step (bit_or bits (shl64 1 i)) in
    if leb i max then rest else bits

pub get_bits : ℕ → ℕ → ℕ → ℕ
get_bits min max step =
    if step == 1
    then bit_and (not64 (shl64 max_uint64 (max + 1))) (shl64 max_uint64 min)
    else set_bits (suc max - min) min max step 0

unfoldable pub all : Bounds → ℕ
all r = bit_or (get_bits r.min r.max 1) star_bit

abbrev not_negative : Option ℤ → Result ParseError ℕ
not_negative none = err bad_int
not_negative (some (negsuc n)) = err negative_int
not_negative (some (pos n)) = ok n

pub must_parse_int : Text → Result ParseError ℕ
must_parse_int expr = not_negative (atoi expr)

-- `names[key]`
pub lookup_name : Text → List (Text × ℕ) → Option ℕ
lookup_name key [] = none
lookup_name key ((name, n) ∷ names) = if name =t key then some n else lookup_name key names

abbrev or_parse_int : Option ℕ → Text → Result ParseError ℕ
or_parse_int (some n) expr = ok n
or_parse_int none expr = must_parse_int expr

pub parse_int_or_name : Text → List (Text × ℕ) → Result ParseError ℕ
parse_int_or_name expr names = or_parse_int (lookup_name (to_lower expr) names) expr

-- The end of a range without a star, from what follows the first hyphen.
pub range_end : Bounds → ℕ → List Text → Result ParseError ℕ
range_end r start [] = ok start
range_end r start (high ∷ []) = parse_int_or_name high r.names
range_end r start (high ∷ more ∷ rest) = err too_many_hyphens

-- `start`, `end` and `extra`, from `lowAndHigh`.
pub low_and_high : Bounds → Text × List Text → Result ParseError (ℕ × ℕ × ℕ)
low_and_high r (low, rest) =
    if low =t codes "*" || low =t codes "?"
    then ok (r.min, r.max, star_bit)
    else do start ← parse_int_or_name low r.names; end ← range_end r start rest; ok (start, end, 0)

abbrev is_single : List Text → Bool
is_single [] = true
is_single (high ∷ rest) = false

-- `step` and the new `end`, from what follows the first slash.
pub range_step : Bounds → Bool → ℕ → List Text → Result ParseError (ℕ × ℕ)
range_step r single end [] = ok (1, end)
range_step r single end (text ∷ []) = do
  step ← must_parse_int text
  ok (step, if single then r.max else end)
range_step r single end (text ∷ more ∷ rest) = err too_many_slashes

-- The four tests before `getBits`.
pub check_range : Bounds → ℕ → ℕ → ℕ → Result ParseError Unit
check_range r start end step =
    if ltb start r.min
    then err below_minimum
    else if ltb r.max end
    then err above_maximum
    else if ltb end start
    then err beyond_end
    else if step == 0
    then err zero_step
    else ok tt

pub get_range : Text → Bounds → Result ParseError ℕ
get_range expr r = do
  let (first, slashed) = split expr b'/'
  let (low, hyphened) = split first b'-'
  (start, end, extra) ← low_and_high r (low, hyphened)
  (step, end') ← range_step r (is_single hyphened) end slashed
  check_range r start end' step
  ok (bit_or (get_bits start end' step) extra)

-- The loop of `getField` over its comma-separated ranges.
pub field_bits : Bounds → ℕ → List Text → Result ParseError ℕ
field_bits r bits [] = ok bits
field_bits r bits (expr ∷ ranges) = do bit ← get_range expr r; field_bits r (bit_or bits bit) ranges

pub get_field : Text → Bounds → Result ParseError ℕ
get_field field r = field_bits r 0 (fields_func field (λ c. c == b','))

-- Opens all of the code above, for a run on a concrete pattern.
unfoldable pub field_code : Unit {0}
unfolding get_field field_bits get_range low_and_high range_end range_step check_range
    parse_int_or_name lookup_name must_parse_int get_bits set_bits all split fields_func to_lower
    atoi ◌=t◌
field_code = tt

quarter_hours : get_field (codes "*/15") minutes ≡ ok (2 ^ 63 + 2 ^ 45 + 2 ^ 30 + 2 ^ 15 + 1)
unfolding field_code
quarter_hours = refl

weekdays : get_field (codes "MON-Fri,6") dow ≡ ok 126
unfolding field_code
weekdays = refl

no_range : get_field (codes ",") minutes ≡ ok 0
unfolding field_code
no_range = refl
