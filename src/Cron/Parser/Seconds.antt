-- ===== src/Cron/Parser/Seconds.antt =====
-- How Parse of delayquene/parser.go reads patterns of five and of six fields.
use gua.Base.{
  ℕ, ◌≡◌, ◌∙◌, refl, sym, ap, true, false, Option, some, List, [], ◌∷◌, ◌++◌, Text, codes, Result,
  ◌>>=◌, Bool-cases, inl, inr, length, ◌==◌, arith,
}
use gua.Base.Int.{ℤ}
use gua.Base.Strings.{fields, trim_space, trim_space-first, has_prefix, is_space}
use gua.Cron.Field.{ParseError}
use gua.Cron.Parser.{
  parse, parser_parse, parse_fields, expand_fields, new_parser, wanted, as_schedule, Schedule,
}

-- A pattern is no descriptor.
abbrev pub IsSpec : Text → Type 0
IsSpec spec = has_prefix (trim_space spec) (codes "@") ≡ false

no_at : (c : ℕ) (spec : Text) → IsSpec (c ∷ spec) → (c == b'@') ≡ false
unfolding has_prefix is_space
no_at c spec h = elim (Bool-cases (c == b'@')) [
  | inl at ↦
      let e : c ≡ b'@' = ground (arith, at) in
      let (r, first) = trim_space-first c spec (rw e refl) in
      let starts : has_prefix (trim_space (c ∷ spec)) (codes "@") ≡ true = rw first (rw e refl) in
      absurd (ground (arith, starts, h))
  | inr other ↦ other
]

fields-nil : fields [] ≡ []
unfolding fields
fields-nil = refl

five_items :
    (fs : List Text)
    → length fs ≡ 5
    → (a : Text) × (b : Text) × (c : Text) × (d : Text) × (e : Text) × (fs ≡ a ∷ b ∷ c ∷ d ∷ e ∷ [])
five_items [] h = absurd (omega (arith, h))
five_items (a ∷ []) h = absurd (omega (arith, h))
five_items (a ∷ b ∷ []) h = absurd (omega (arith, h))
five_items (a ∷ b ∷ c ∷ []) h = absurd (omega (arith, h))
five_items (a ∷ b ∷ c ∷ d ∷ []) h = absurd (omega (arith, h))
five_items (a ∷ b ∷ c ∷ d ∷ e ∷ []) h = (a, b, c, d, e, refl)
five_items (a ∷ b ∷ c ∷ d ∷ e ∷ f ∷ fs) h = absurd (omega (arith, h))

module _ (parse_duration : Text → Option ℤ) where
  abbrev pub as_read : List Text → Result ParseError Schedule
  as_read fs = do s ← parse_fields (some fs); as_schedule s

  -- A pattern of five fields is read with the seconds 0.
  parse-five :
      (c : ℕ) (spec : Text) {m h d mo w : Text}
      → IsSpec (c ∷ spec)
      → fields (c ∷ spec) ≡ m ∷ h ∷ d ∷ mo ∷ w ∷ []
      → parse parse_duration (c ∷ spec) ≡ as_read (codes "0" ∷ m ∷ h ∷ d ∷ mo ∷ w ∷ [])
  unfolding parse parser_parse expand_fields new_parser wanted
  parse-five c spec is five = rw is (rw five (rw (no_at c spec is) refl))

  pub parse-six :
      (c : ℕ) (spec : Text) {s m h d mo w : Text}
      → IsSpec (c ∷ spec)
      → fields (c ∷ spec) ≡ s ∷ m ∷ h ∷ d ∷ mo ∷ w ∷ []
      → parse parse_duration (c ∷ spec) ≡ as_read (s ∷ m ∷ h ∷ d ∷ mo ∷ w ∷ [])
  unfolding parse parser_parse expand_fields new_parser wanted
  parse-six c spec is six = rw is (rw six (rw (no_at c spec is) refl))

  fields-zero : (spec : Text) → fields (codes "0 " ++ spec) ≡ codes "0" ∷ fields spec
  unfolding fields
  fields-zero spec = refl

  zero-IsSpec : (spec : Text) → IsSpec (codes "0 " ++ spec)
  unfolding has_prefix is_space
  zero-IsSpec spec =
      let (r, first) = trim_space-first b'0' (codes " " ++ spec) refl in rw first refl

  -- A pattern of five fields that is no descriptor means what the pattern of six fields means that has
  -- 0 for the seconds before it: they parse into the same schedule, or fail with the same error.
  pub parse-zero_seconds :
      (spec : Text)
      → has_prefix (trim_space spec) (codes "@") ≡ false
      → length (fields spec) ≡ 5
      → parse parse_duration spec ≡ parse parse_duration (codes "0 " ++ spec)
  parse-zero_seconds [] is five = absurd (ground (arith, five, ap length fields-nil))
  parse-zero_seconds (c ∷ spec) is five =
      let (m, h, d, mo, w, read) = five_items (fields (c ∷ spec)) five in
      parse-five c spec is read
      ∙ sym (
          parse-six b'0' (codes " " ++ c ∷ spec) (zero-IsSpec (c ∷ spec))
            (fields-zero (c ∷ spec) ∙ ap (λ fs. codes "0" ∷ fs) read))
