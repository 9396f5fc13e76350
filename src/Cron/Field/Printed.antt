-- ===== src/Cron/Field/Printed.antt =====
-- The fields that delayquene/parser.go (getField, getRange) reads from lists of ranges in decimal digits.
use gua.Base.{
  ℕ, ◌+◌, ◌-◌, ◌/◌, ◌%◌, ◌≤◌, ◌<◌, ◌≡◌, bit_or, refl, Bool, true, false, ◌&&◌, ◌||◌, none, List, [],
  ◌∷◌, ◌++◌, map, Text, ◌=t◌, All, any, Bool-cases, inl, inr, codes, ltb, leb, ◌==◌, if◌then◌else◌,
  ok, arith,
}
use gua.Base.Strings.{fields_func, lower, to_lower, atoi, is_empty}
use gua.Base.Strings.Splits.{Free, join, any-append, split_by-join, split-once, keep_full}
use gua.Cron.Bits.{has_bit, has_none, has_bit-bit_or}
use gua.Cron.Field.{
  Bounds, get_bits, must_parse_int, lookup_name, parse_int_or_name, range_end, low_and_high,
  range_step, check_range, get_range, field_bits, get_field,
}
use gua.Cron.Field.Ranges.{has_bit-get_bits}

-- A number below 100, in decimal.
abbrev pub decimal : ℕ → Text
decimal n = if ltb n 10 then (b'0' + n) ∷ [] else (b'0' + n / 10) ∷ (b'0' + n % 10) ∷ []

-- A progression: `start-end/step`.
pub record Range : Type 0 where
  pub start : ℕ
  pub end : ℕ
  pub step : ℕ

abbrev span : Range → Text
span x = decimal x.start ++ b'-' ∷ decimal x.end

abbrev pub print_range : Range → Text
print_range x = span x ++ b'/' ∷ decimal x.step

abbrev pub print : Range → List Range → Text
print x xs = join b',' (print_range x) (map print_range xs)

abbrev pub holds : ℕ → Range → Bool
holds k x = leb x.start k && leb k x.end && (k - x.start) % x.step == 0

pub decimal-Free :
    (p : ℕ → Bool) (n : ℕ)
    → n < 100
    → ((d : ℕ) → d < 10 → p (b'0' + d) ≡ false)
    → Free p (decimal n)
decimal-Free p n small other = ground (arith, other n, other (n / 10), other (n % 10))

must_parse_int-decimal : (n : ℕ) → n < 100 → must_parse_int (decimal n) ≡ ok n
unfolding must_parse_int atoi
must_parse_int-decimal n small = ground arith

-- A name that begins with a letter.
abbrev pub is_word : Text × ℕ → Bool
is_word ([], n) = false
is_word (c ∷ s, n) = ltb b'9' c

lookup_name-digit :
    (d : ℕ) (s : Text) (names : List (Text × ℕ))
    → d ≤ b'9'
    → All (λ e. is_word e ≡ true) names
    → lookup_name (d ∷ s) names ≡ none
unfolding lookup_name ◌=t◌
lookup_name-digit d s [] small words = refl
lookup_name-digit d s (([], n) ∷ names) small (word, words) = cc
lookup_name-digit d s ((c ∷ t, n) ∷ names) small (word, words) =
    ground (arith, lookup_name-digit d s names small words)

lower-digit : (d : ℕ) → d < 10 → lower (b'0' + d) ≡ b'0' + d
unfolding lower
lower-digit d small = ground arith

lookup_name-decimal :
    (n : ℕ) (names : List (Text × ℕ))
    → n < 100
    → All (λ e. is_word e ≡ true) names
    → lookup_name (to_lower (decimal n)) names ≡ none
unfolding to_lower
lookup_name-decimal n names small words = elim (Bool-cases (ltb n 10)) [
  | inl one ↦
      ground (arith, one, lower-digit n, lookup_name-digit (b'0' + n) [] names (ground arith) words)
  | inr two ↦ ground (
    arith,
    two,
    lower-digit (n / 10),
    lower-digit (n % 10),
    lookup_name-digit (b'0' + n / 10) ((b'0' + n % 10) ∷ []) names (ground arith) words,
  )
]

parse_int_or_name-decimal :
    (n : ℕ) (names : List (Text × ℕ))
    → n < 100
    → All (λ e. is_word e ≡ true) names
    → parse_int_or_name (decimal n) names ≡ ok n
unfolding parse_int_or_name
parse_int_or_name-decimal n names small words =
    rw (lookup_name-decimal n names small words) (must_parse_int-decimal n small)

decimal-ne-star : (n : ℕ) → n < 100 → (decimal n =t codes "*" || decimal n =t codes "?") ≡ false
unfolding ◌=t◌
decimal-ne-star n small = ground arith

decimal-ne-digit : (n c : ℕ) → n < 100 → c < b'0' → Free (λ d. d == c) (decimal n)
decimal-ne-digit n c small other = decimal-Free (λ d. d == c) n small (λ d _. ground arith)

-- A progression within the bounds of a field.
pub record Fits (r : Bounds) (x : Range) : Type 0 where
  pub from_min : r.min ≤ x.start
  pub ordered : x.start ≤ x.end
  pub to_max : x.end ≤ r.max
  pub positive : 0 < x.step
  pub short : x.step < 100

abbrev pub Words : Bounds → Type 0
Words r = All (λ e. is_word e ≡ true) r.names

ranges-All : (xs : List Range) → All (λ t. is_empty t ≡ false) (map print_range xs)
ranges-All [] = tt
ranges-All (x ∷ xs) = (ground arith, ranges-All xs)

module _ (r : Bounds) (words : Words r) (below : r.max < 63) where
  span-Free :
      (c : ℕ) (x : Range) → Fits r x → c < b'0' → (b'-' == c) ≡ false → Free (λ d. d == c) (span x)
  span-Free c x f digit other = ground (
    arith,
    any-append (λ d. d == c) (decimal x.start) (b'-' ∷ decimal x.end),
    decimal-ne-digit x.start c (omega (arith, f.ordered, f.to_max)) (omega arith),
    decimal-ne-digit x.end c (omega (arith, f.to_max)) (omega arith),
  )

  low_and_high-span :
      (x : Range)
      → Fits r x
      → low_and_high r (decimal x.start, decimal x.end ∷ []) ≡ ok (x.start, x.end, 0)
  unfolding low_and_high range_end
  low_and_high-span x f = rw (
    decimal-ne-star x.start (omega (arith, f.ordered, f.to_max)),
    parse_int_or_name-decimal x.start r.names (omega (arith, f.ordered, f.to_max)) words,
    parse_int_or_name-decimal x.end r.names (omega (arith, f.to_max)) words,
  )

  get_range-print_range :
      (x : Range)
      → Fits r x
      → get_range (print_range x) r ≡ ok (bit_or (get_bits x.start x.end x.step) 0)
  unfolding get_range range_step check_range
  get_range-print_range x f =
      rw
        (
          split-once b'/' (span x) (decimal x.step) (span-Free b'/' x f (omega arith) refl)
              (decimal-ne-digit x.step b'/' f.short (omega arith)),
          split-once b'-' (decimal x.start) (decimal x.end)
              (decimal-ne-digit x.start b'-' (omega (arith, f.ordered, f.to_max)) (omega arith))
              (decimal-ne-digit x.end b'-' (omega (arith, f.to_max)) (omega arith)),
          low_and_high-span x f,
          must_parse_int-decimal x.step f.short,
        )
        (ground (arith, f.from_min, f.ordered, f.to_max, f.positive))

  print_range-Free : (x : Range) → Fits r x → Free (λ c. c == b',') (print_range x)
  print_range-Free x f = ground (
    arith,
    any-append (λ c. c == b',') (span x) (b'/' ∷ decimal x.step),
    span-Free b',' x f (omega arith) refl,
    decimal-ne-digit x.step b',' f.short (omega arith),
  )

  ranges-Free :
      (xs : List Range) → All (Fits r) xs → All (Free (λ c. c == b',')) (map print_range xs)
  ranges-Free [] fs = tt
  ranges-Free (x ∷ xs) (f, fs) = (print_range-Free x f, ranges-Free xs fs)

  field_bits-printed :
      (bits : ℕ) (xs : List Range)
      → All (Fits r) xs
      → (out : ℕ) × (field_bits r bits (map print_range xs) ≡ ok out)
        × ((k : ℕ) → has_bit k out ≡ (has_bit k bits || any (holds k) xs))
  unfolding field_bits
  field_bits-printed bits [] fs = (bits, refl, λ k. ground arith)
  field_bits-printed bits (x ∷ xs) (f, fs) =
      let bit = bit_or (get_bits x.start x.end x.step) 0 in
      let (out, read, all_bits) = field_bits-printed (bit_or bits bit) xs fs in
      (
        out,
        rw (get_range-print_range x f) read,
        λ k. ground (
          arith,
          all_bits k,
          has_bit-bit_or k bits bit,
          has_bit-bit_or k (get_bits x.start x.end x.step) 0,
          has_none k,
          has_bit-get_bits x.start x.end x.step k (omega (arith, f.ordered, f.to_max))
              (omega (arith, f.to_max)) f.positive,
        ),
      )

  -- A field that lists progressions within its bounds, each as `start-end/step` in decimal digits and
  -- with a step below 100, is accepted, and has the bits of their members and no other. The bounds are
  -- below 63, and their names begin with a letter.
  pub get_field-print :
      (x : Range) (xs : List Range)
      → Fits r x
      → All (Fits r) xs
      → (bits : ℕ) × (get_field (print x xs) r ≡ ok bits)
        × ((k : ℕ) → has_bit k bits ≡ any (holds k) (x ∷ xs))
  unfolding get_field fields_func
  get_field-print x xs f fs =
      let (bits, read, all_bits) = field_bits-printed 0 (x ∷ xs) (f, fs) in
      (
        bits,
        rw
            (
              split_by-join (λ c. c == b',') b',' (print_range x) (map print_range xs)
                  (ground arith) (print_range-Free x f) (ranges-Free xs fs),
              keep_full (map print_range (x ∷ xs)) (ranges-All (x ∷ xs)),
            )
            read,
        λ k. ground (arith, all_bits k, has_none k),
      )
