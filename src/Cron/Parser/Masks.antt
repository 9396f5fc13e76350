-- ===== src/Cron/Parser/Masks.antt =====
-- What the bit sets of a parsed schedule hold (delayquene/parser.go: Parse, parseDescriptor).
use gua.Base.{
  ℕ, ◌^◌, ◌≤◌, ◌<◌, ◌≡◌, refl, ◌⊎◌, inl, inr, true, Option, some, List, [], ◌∷◌, Text, Result, ok,
  ◌>>=◌, arith,
}
use gua.Base.Int.{ℤ}
use gua.Base.Strings.{fields, trim_space}
use gua.Cron.Bits.{has_bit, has_bit-one, has_bit-bit_or}
use gua.Cron.Field.{
  ParseError, Bounds, seconds, minutes, hours, dom, months, dow, all, get_bits, get_field,
}
use gua.Cron.Field.Ranges.{has_bit-get_bits}
use gua.Cron.Field.Accepts.{get_field-bounds}
use gua.Cron.Next.{SpecSchedule}
use gua.Cron.Parser.{
  spec_schedule, Parser, parse_fields, yearly, monthly, weekly, daily, hourly, parse_descriptor,
  parser_parse, parse, expand_fields, standard_parser, seconds_parser, places,
}

-- A set bit is a value of the field, or the star's mark.
abbrev pub Holds : Bounds → ℕ → Type 0
Holds r bits = (k : ℕ) → has_bit k bits ≡ true → ((r.min ≤ k) × (k ≤ r.max)) ⊎ (k ≡ 63)

pub record InBounds (s : SpecSchedule) : Type 0 where
  pub second_in : Holds seconds s.second
  pub minute_in : Holds minutes s.minute
  pub hour_in : Holds hours s.hour
  pub dom_in : Holds dom s.dom
  pub month_in : Holds months s.month
  pub dow_in : Holds dow s.dow

all-Holds : (r : Bounds) → r.min ≤ r.max → r.max < 63 → Holds r (all r)
unfolding all
all-Holds r le lt k b = ground (
  arith,
  has_bit-bit_or k (get_bits r.min r.max 1) (2 ^ 63),
  has_bit-get_bits r.min r.max 1 k (omega arith) lt (omega arith),
  has_bit-one k 63,
)

-- The lowest value alone.
low-Holds : (r : Bounds) (n : ℕ) → r.min ≡ n → r.min ≤ r.max → Holds r (2 ^ n)
low-Holds r n e le k b = ground (arith, has_bit-one k n)

six_ok :
    (r₀ r₁ r₂ r₃ r₄ r₅ : Result ParseError ℕ) (s : SpecSchedule)
    → (do
      second ← r₀
      minute ← r₁
      hour ← r₂
      dom ← r₃
      month ← r₄
      dow ← r₅
      ok (record {
        second = second;
        minute = minute;
        hour = hour;
        dom = dom;
        month = month;
        dow = dow;
      }))
      ≡ ok s
    → (r₀ ≡ ok s.second)
      × (r₁ ≡ ok s.minute)
      × (r₂ ≡ ok s.hour)
      × (r₃ ≡ ok s.dom)
      × (r₄ ≡ ok s.month)
      × (r₅ ≡ ok s.dow)
six_ok r₀ r₁ r₂ r₃ r₄ r₅ s h = ground arith

parse_fields-InBounds :
    (fs : Option (List Text)) (s : SpecSchedule) → parse_fields fs ≡ ok s → InBounds s
unfolding parse_fields
parse_fields-InBounds (some (f₀ ∷ f₁ ∷ f₂ ∷ f₃ ∷ f₄ ∷ f₅ ∷ [])) s h =
    let (a, b, c, d, e, f) =
      six_ok (get_field f₀ seconds) (get_field f₁ minutes) (get_field f₂ hours) (get_field f₃ dom)
        (get_field f₄ months) (get_field f₅ dow) s h in
    record {
      second_in = λ k. get_field-bounds f₀ seconds k (omega arith) a;
      minute_in = λ k. get_field-bounds f₁ minutes k (omega arith) b;
      hour_in = λ k. get_field-bounds f₂ hours k (omega arith) c;
      dom_in = λ k. get_field-bounds f₃ dom k (omega arith) d;
      month_in = λ k. get_field-bounds f₄ months k (omega arith) e;
      dow_in = λ k. get_field-bounds f₅ dow k (omega arith) f;
    }
parse_fields-InBounds _ s h = cc

of_fields :
    (s : SpecSchedule)
    → Holds seconds s.second
    → Holds minutes s.minute
    → Holds hours s.hour
    → Holds dom s.dom
    → Holds months s.month
    → Holds dow s.dow
    → InBounds s
of_fields s a b c d e f = record {
  second_in = a;
  minute_in = b;
  hour_in = c;
  dom_in = d;
  month_in = e;
  dow_in = f;
}

fixed-InBounds :
    InBounds yearly × InBounds monthly × InBounds weekly × InBounds daily × InBounds hourly
unfolding yearly monthly weekly daily hourly
fixed-InBounds =
    let s₀ = low-Holds seconds 0 refl (omega arith) in
    let m₀ = low-Holds minutes 0 refl (omega arith) in
    let h₀ = low-Holds hours 0 refl (omega arith) in
    let d₁ = low-Holds dom 1 refl (omega arith) in
    let mo₁ = low-Holds months 1 refl (omega arith) in
    let w₀ = low-Holds dow 0 refl (omega arith) in
    let hs = all-Holds hours (omega arith) (omega arith) in
    let ds = all-Holds dom (omega arith) (omega arith) in
    let mos = all-Holds months (omega arith) (omega arith) in
    let ws = all-Holds dow (omega arith) (omega arith) in
    (
      of_fields yearly s₀ m₀ h₀ d₁ mo₁ ws,
      of_fields monthly s₀ m₀ h₀ d₁ mos ws,
      of_fields weekly s₀ m₀ h₀ ds mos w₀,
      of_fields daily s₀ m₀ h₀ ds mos ws,
      of_fields hourly s₀ m₀ hs ds mos ws,
    )

module _ (parse_duration : Text → Option ℤ) where
  parse_descriptor-fixed :
      (d : Text) (s : SpecSchedule)
      → parse_descriptor parse_duration d ≡ ok (spec_schedule s)
      → (s ≡ yearly) ⊎ (s ≡ monthly) ⊎ (s ≡ weekly) ⊎ (s ≡ daily) ⊎ (s ≡ hourly)
  unfolding parse_descriptor
  parse_descriptor-fixed d s h = ground arith

  parse_descriptor-InBounds :
      (d : Text) (s : SpecSchedule)
      → parse_descriptor parse_duration d ≡ ok (spec_schedule s)
      → InBounds s
  parse_descriptor-InBounds d s h =
      let (y, m, w, a, r) = fixed-InBounds in
      elim (parse_descriptor-fixed d s h) [
        | inl e ↦ rw e y
        | inr (inl e) ↦ rw e m
        | inr (inr (inl e)) ↦ rw e w
        | inr (inr (inr (inl e))) ↦ rw e a
        | inr (inr (inr (inr e))) ↦ rw e r
      ]

  parser_parse-parts :
      (p : Parser) (c : ℕ) (spec : Text) (s : SpecSchedule)
      → parser_parse parse_duration p (c ∷ spec) ≡ ok (spec_schedule s)
      → (parse_descriptor parse_duration (c ∷ spec) ≡ ok (spec_schedule s))
        ⊎ (parse_fields (expand_fields p.options places (fields (c ∷ spec))) ≡ ok s)
  unfolding parser_parse
  parser_parse-parts p c spec s h = ground arith

  parser_parse-InBounds :
      (p : Parser) (spec : Text) (s : SpecSchedule)
      → parser_parse parse_duration p spec ≡ ok (spec_schedule s)
      → InBounds s
  parser_parse-InBounds p [] s h = unfold parser_parse in cc
  parser_parse-InBounds p (c ∷ spec) s h = elim (parser_parse-parts p c spec s h) [
    | inl described ↦ parse_descriptor-InBounds (c ∷ spec) s described
    | inr listed ↦ parse_fields-InBounds _ s listed
  ]

  parse-parts :
      (spec : Text) (s : SpecSchedule)
      → parse parse_duration spec ≡ ok (spec_schedule s)
      → (parser_parse parse_duration seconds_parser (trim_space spec) ≡ ok (spec_schedule s))
        ⊎ (parser_parse parse_duration standard_parser spec ≡ ok (spec_schedule s))
        ⊎ (parser_parse parse_duration seconds_parser spec ≡ ok (spec_schedule s))
  unfolding parse
  parse-parts spec s h = ground arith

  -- Each field of a parsed schedule holds only values of that field, and perhaps the star's mark.
  pub parse-InBounds :
      (spec : Text) (s : SpecSchedule)
      → parse parse_duration spec ≡ ok (spec_schedule s)
      → InBounds s
  parse-InBounds spec s h = elim (parse-parts spec s h) [
    | inl p ↦ parser_parse-InBounds seconds_parser (trim_space spec) s p
    | inr (inl p) ↦ parser_parse-InBounds standard_parser spec s p
    | inr (inr p) ↦ parser_parse-InBounds seconds_parser spec s p
  ]
