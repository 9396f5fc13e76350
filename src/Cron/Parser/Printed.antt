-- ===== src/Cron/Parser/Printed.antt =====
-- The patterns of six fields that Parse of delayquene/parser.go reads from lists of ranges.
use gua.Base.{
  ℕ, ◌+◌, ◌/◌, ◌%◌, ◌<◌, ◌≡◌, ◌∙◌, refl, sym, ap, false, Option, some, map, List, [], ◌∷◌, ◌++◌,
  Text, All, any, Bool-cases, inl, inr, ltb, ok, arith,
}
use gua.Base.Int.{ℤ}
use gua.Base.Strings.{fields, fields_func, is_empty, is_space, trim_space-first, has_prefix}
use gua.Cron.Bits.{has_bit}
use gua.Cron.Field.{Bounds, seconds, minutes, hours, dom, months, dow, get_field}
use gua.Base.Strings.Splits.{Free, join, split_by-join, keep_full, any-append}
use gua.Cron.Field.Printed.{
  Range, Words, decimal, print_range, print, holds, Fits, decimal-Free, get_field-print,
}
use gua.Cron.Next.{SpecSchedule}
use gua.Cron.Parser.{spec_schedule, parse, parse_fields}
use gua.Cron.Parser.Seconds.{IsSpec, parse-six}

-- A field: a progression, and others.
pub record Ranges : Type 0 where
  pub first : Range
  pub others : List Range

abbrev pub print_field : Ranges → Text
print_field f = print f.first f.others

abbrev pub FitsAll : Bounds → Ranges → Type 0
FitsAll r f = Fits r f.first × All (Fits r) f.others

abbrev pub Means : Ranges → ℕ → Type 0
Means f bits = (k : ℕ) → has_bit k bits ≡ any (holds k) (f.first ∷ f.others)

pub record Pattern : Type 0 where
  pub second : Ranges
  pub minute : Ranges
  pub hour : Ranges
  pub day : Ranges
  pub month : Ranges
  pub weekday : Ranges

abbrev pub later_fields : Pattern → List Text
later_fields p =
    print_field p.minute
    ∷ print_field p.hour
    ∷ print_field p.day
    ∷ print_field p.month
    ∷ print_field p.weekday
    ∷ []

abbrev pub print_pattern : Pattern → Text
print_pattern p = join b' ' (print_field p.second) (later_fields p)

pub record FitsPattern (p : Pattern) : Type 0 where
  pub second : FitsAll seconds p.second
  pub minute : FitsAll minutes p.minute
  pub hour : FitsAll hours p.hour
  pub day : FitsAll dom p.day
  pub month : FitsAll months p.month
  pub weekday : FitsAll dow p.weekday

digit-is_space : (d : ℕ) → d < 10 → is_space (b'0' + d) ≡ false
unfolding is_space
digit-is_space d small = ground arith

print_range-is_space :
    (r : Bounds) (x : Range) → r.max < 63 → Fits r x → Free is_space (print_range x)
unfolding is_space
print_range-is_space r x below f = ground (
  arith,
  any-append is_space (decimal x.start ++ b'-' ∷ decimal x.end) (b'/' ∷ decimal x.step),
  any-append is_space (decimal x.start) (b'-' ∷ decimal x.end),
  decimal-Free is_space x.start (omega (arith, f.ordered, f.to_max)) digit-is_space,
  decimal-Free is_space x.end (omega (arith, f.to_max)) digit-is_space,
  decimal-Free is_space x.step f.short digit-is_space,
)

print-is_space :
    (r : Bounds) (x : Range) (xs : List Range)
    → r.max < 63
    → Fits r x
    → All (Fits r) xs
    → Free is_space (print x xs)
unfolding is_space
print-is_space r x [] below f fs = print_range-is_space r x below f
print-is_space r x (y ∷ ys) below f (g, gs) = ground (
  arith,
  any-append is_space (print_range x) (b',' ∷ print y ys),
  print_range-is_space r x below f,
  print-is_space r y ys below g gs,
)

print-ne-nil : (x : Range) (xs : List Range) → is_empty (print x xs) ≡ false
print-ne-nil x [] = ground arith
print-ne-nil x (y ∷ ys) = ground arith

-- A printed pattern begins with a digit.
Begins : Text → Type 0
Begins s = (d : ℕ) × (rest : Text) × (s ≡ (b'0' + d) ∷ rest) × (d < 10)

decimal-Begins : (n : ℕ) (s : Text) → n < 100 → Begins (decimal n ++ s)
unfolding Begins
decimal-Begins n s small = elim (Bool-cases (ltb n 10)) [
  | inl one ↦ (n, s, ground (arith, one), ground (arith, one))
  | inr two ↦ (n / 10, (b'0' + n % 10) ∷ s, ground (arith, two), ground (arith, two))
]

Begins-append : (s t : Text) → Begins s → Begins (s ++ t)
unfolding Begins
Begins-append s t (d, rest, e, small) = (d, rest ++ t, ap (λ s. s ++ t) e, small)

Begins-join : (c : ℕ) (s : Text) (ts : List Text) → Begins s → Begins (join c s ts)
Begins-join c s [] b = b
Begins-join c s (t ∷ ts) b = Begins-append s (c ∷ join c t ts) b

-- A schedule whose fields are the members of the pattern's progressions.
pub record Reads (p : Pattern) (s : SpecSchedule) : Type 0 where
  pub second : Means p.second s.second
  pub minute : Means p.minute s.minute
  pub hour : Means p.hour s.hour
  pub day : Means p.day s.dom
  pub month : Means p.month s.month
  pub weekday : Means p.weekday s.dow

month-Words : Words months
month-Words = ground arith

dow-Words : Words dow
dow-Words = ground arith

read_field :
    (r : Bounds)
    → Words r
    → r.max < 63
    → (f : Ranges) → FitsAll r f
    → (bits : ℕ) × (get_field (print_field f) r ≡ ok bits) × Means f bits
read_field r words below f (first, others) =
    get_field-print r words below f.first f.others first others

module _ (p : Pattern) (fits : FitsPattern p) where
  print_field-Free :
      (r : Bounds) (f : Ranges) → r.max < 63 → FitsAll r f → Free is_space (print_field f)
  print_field-Free r f below (first, others) = print-is_space r f.first f.others below first others

  later-Free : All (Free is_space) (later_fields p)
  later-Free = (
    print_field-Free minutes p.minute (omega arith) fits.minute,
    (
      print_field-Free hours p.hour (omega arith) fits.hour,
      (
        print_field-Free dom p.day (omega arith) fits.day,
        (
          print_field-Free months p.month (omega arith) fits.month,
          (print_field-Free dow p.weekday (omega arith) fits.weekday, tt),
        ),
      ),
    ),
  )

  All-fields : All (λ t. is_empty t ≡ false) (print_field p.second ∷ later_fields p)
  All-fields = (
    print-ne-nil p.second.first p.second.others,
    (
      print-ne-nil p.minute.first p.minute.others,
      (
        print-ne-nil p.hour.first p.hour.others,
        (
          print-ne-nil p.day.first p.day.others,
          (
            print-ne-nil p.month.first p.month.others,
            (print-ne-nil p.weekday.first p.weekday.others, tt),
          ),
        ),
      ),
    ),
  )

  fields-print_pattern : fields (print_pattern p) ≡ print_field p.second ∷ later_fields p
  unfolding fields fields_func is_space
  fields-print_pattern =
      rw
        (split_by-join is_space b' ' (print_field p.second) (later_fields p) refl
          (print_field-Free seconds p.second (omega arith) fits.second) later-Free)
        (keep_full (print_field p.second ∷ later_fields p) All-fields)

  pattern-Begins : Begins (print_pattern p)
  pattern-Begins =
      let x = p.second.first in
      let f = fits.second.0 in
      Begins-join b' ' (print_field p.second) (later_fields p) (
        Begins-join b',' (print_range x) (map print_range p.second.others) (
          Begins-append (decimal x.start ++ b'-' ∷ decimal x.end) (b'/' ∷ decimal x.step)
            (decimal-Begins x.start (b'-' ∷ decimal x.end) (omega (arith, f.ordered, f.to_max)))))

  pattern-IsSpec : (d : ℕ) (rest : Text) → d < 10 → IsSpec ((b'0' + d) ∷ rest)
  unfolding has_prefix
  pattern-IsSpec d rest small =
      let (r, first) = trim_space-first (b'0' + d) rest (digit-is_space d small) in
      rw first (ground arith)

  parse_fields-printed :
      (s : SpecSchedule) × (parse_fields (some (print_field p.second ∷ later_fields p)) ≡ ok s)
      × Reads p s
  unfolding parse_fields
  parse_fields-printed =
      let (b₀, e₀, m₀) = read_field seconds tt (omega arith) p.second fits.second in
      let (b₁, e₁, m₁) = read_field minutes tt (omega arith) p.minute fits.minute in
      let (b₂, e₂, m₂) = read_field hours tt (omega arith) p.hour fits.hour in
      let (b₃, e₃, m₃) = read_field dom tt (omega arith) p.day fits.day in
      let (b₄, e₄, m₄) = read_field months month-Words (omega arith) p.month fits.month in
      let (b₅, e₅, m₅) = read_field dow dow-Words (omega arith) p.weekday fits.weekday in
      (
        record { second = b₀; minute = b₁; hour = b₂; dom = b₃; month = b₄; dow = b₅ },
        rw (e₀, e₁, e₂, e₃, e₄, e₅) refl,
        record { second = m₀; minute = m₁; hour = m₂; day = m₃; month = m₄; weekday = m₅ },
      )

  -- A pattern of six fields, each of which lists progressions within the field's bounds as
  -- `start-end/step` in decimal digits with steps below 100, is parsed into a schedule, and each bit set of
  -- it holds the members of the field's progressions and nothing else.
  pub parse-print_pattern :
      (parse_duration : Text → Option ℤ)
      → (s : SpecSchedule) × (parse parse_duration (print_pattern p) ≡ ok (spec_schedule s))
        × Reads p s
  unfolding Begins
  parse-print_pattern parse_duration =
      let (s, read, means) = parse_fields-printed in
      let (d, rest, e, small) = pattern-Begins in
      (
        s,
        ap (parse parse_duration) e
            ∙ parse-six parse_duration (b'0' + d) rest (pattern-IsSpec d rest small)
                (ap fields (sym e) ∙ fields-print_pattern)
            ∙ rw read refl,
        means,
      )
