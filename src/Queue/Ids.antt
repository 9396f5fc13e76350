-- ===== src/Queue/Ids.antt =====
-- genID of delayquene/riverquene.go, from the eight bytes that crypto/rand reads.
use gua.Base.{
  ℕ, ◌+◌, ◌-◌, ◌*◌, ◌/◌, ◌%◌, ◌<◌, ◌≡◌, refl, true, List, [], ◌∷◌, Text, All, length, ltb,
  if◌then◌else◌, ok, arith,
}
use gua.Queue.Types.{types_code, is_name_char, is_name, validate_name}

-- A digit of `encoding/hex`.
abbrev hex_digit : ℕ → ℕ
hex_digit d = if ltb d 10 then b'0' + d else b'a' + (d - 10)

-- `hex.EncodeToString`.
abbrev hex : List ℕ → Text
hex [] = []
hex (b ∷ bs) = hex_digit (b / 16) ∷ hex_digit (b % 16) ∷ hex bs

abbrev IsByte : ℕ → Type 0
IsByte b = b < 256

unfoldable pub gen_id : List ℕ → Text
gen_id bytes = hex bytes

-- The number of a digit, and the bytes behind a text of digits.
abbrev digit_value : ℕ → ℕ
digit_value c = if ltb c b'a' then c - b'0' else c - b'a' + 10

abbrev unhex : Text → List ℕ
unhex [] = []
unhex (c ∷ []) = []
unhex (c ∷ d ∷ s) = (16 * digit_value c + digit_value d) ∷ unhex s

digit-is_name_char : (d : ℕ) → d < 16 → is_name_char (hex_digit d) ≡ true
unfolding types_code
digit-is_name_char d small = ground arith

digit_value-hex_digit : (d : ℕ) → d < 16 → digit_value (hex_digit d) ≡ d
digit_value-hex_digit d small = ground arith

hex-is_name : (b : ℕ) (bs : List ℕ) → All IsByte (b ∷ bs) → is_name (hex (b ∷ bs)) ≡ true
unfolding types_code
hex-is_name b [] (small, _) = ground (
  arith,
  digit-is_name_char (b / 16) (omega (arith, small)),
  digit-is_name_char (b % 16) (omega arith),
)
hex-is_name b (c ∷ bs) (small, rest) = ground (
  arith,
  digit-is_name_char (b / 16) (omega (arith, small)),
  digit-is_name_char (b % 16) (omega arith),
  hex-is_name c bs rest,
)

length-hex : (bs : List ℕ) → length (hex bs) ≡ 2 * length bs
length-hex [] = refl
length-hex (b ∷ bs) = omega (arith, length-hex bs)

unhex-hex : (bs : List ℕ) → All IsByte bs → unhex (hex bs) ≡ bs
unhex-hex [] _ = refl
unhex-hex (b ∷ bs) (small, rest) = ground (
  arith,
  digit_value-hex_digit (b / 16) (omega (arith, small)),
  digit_value-hex_digit (b % 16) (omega arith),
  unhex-hex bs rest,
)

-- An id made of any eight bytes is accepted as a name, and the bytes can be read from it, so that ids of
-- other bytes are other ids.
gen_id-valid :
    (bytes : List ℕ)
    → length bytes ≡ 8
    → All IsByte bytes
    → (validate_name (gen_id bytes) ≡ ok tt) × (unhex (gen_id bytes) ≡ bytes)
unfolding gen_id types_code
gen_id-valid [] eight small = absurd (omega (arith, eight))
gen_id-valid (b ∷ bs) eight small =
    (ground (arith, hex-is_name b bs small, length-hex (b ∷ bs), eight), unhex-hex (b ∷ bs) small)
