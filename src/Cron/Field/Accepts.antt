-- ===== src/Cron/Field/Accepts.antt =====
-- What a field that delayquene/parser.go accepts (getField, getRange) may hold.
use gua.Base.{ℕ, ◌≤◌, ◌<◌, bit_or, ◌≡◌, ◌⊎◌, true, List, [], ◌∷◌, Text, ok, >>=-eq-ok, arith}
use gua.Base.Strings.{split}
use gua.Cron.Bits.{has_bit, has_none, has_bit-one, has_bit-bit_or}
use gua.Cron.Field.{
  Bounds, star_bit, get_bits, get_range, field_bits, get_field, low_and_high, range_step,
  check_range, is_single,
}
use gua.Cron.Field.Ranges.{has_bit-get_bits}

-- The bits of an accepted range: a progression inside the bounds, and perhaps the star.
pub record IsRange (r : Bounds) (bits : ℕ) : Type 0 where
  pub start : ℕ
  pub end : ℕ
  pub step : ℕ
  pub extra : ℕ
  pub from_min : r.min ≤ start
  pub ordered : start ≤ end
  pub to_max : end ≤ r.max
  pub positive : 0 < step
  pub star_or_none : (extra ≡ 0) ⊎ (extra ≡ star_bit)
  pub is_bits : bits ≡ bit_or (get_bits start end step) extra

check_range-ok :
    (r : Bounds) (start end step : ℕ) {u : Unit}
    → check_range r start end step ≡ ok u
    → (r.min ≤ start) × (start ≤ end) × (end ≤ r.max) × (0 < step)
unfolding check_range
check_range-ok r start end step h = ground arith

low_and_high-extra :
    (r : Bounds) (parts : Text × List Text) {bounds : ℕ × ℕ × ℕ}
    → low_and_high r parts ≡ ok bounds
    → (bounds.2 ≡ 0) ⊎ (bounds.2 ≡ star_bit)
unfolding low_and_high
low_and_high-extra r (low, rest) h = ground arith

get_range-IsRange :
    (expr : Text) (r : Bounds) {bits : ℕ} → get_range expr r ≡ ok bits → IsRange r bits
unfolding get_range
get_range-IsRange expr r h =
    let (first, slashed) = split expr b'/' in
    let parts = split first b'-' in
    let (bounds, read, h₁) = >>=-eq-ok (low_and_high r parts) _ h in
    let (stepped, read_step, h₂) =
      >>=-eq-ok (range_step r (is_single parts.1) bounds.1 slashed) _ h₁ in
    let (u, checked, h₃) = >>=-eq-ok (check_range r bounds.0 stepped.1 stepped.0) _ h₂ in
    let (a, b, c, d) = check_range-ok r bounds.0 stepped.1 stepped.0 checked in
    record {
      start = bounds.0;
      end = stepped.1;
      step = stepped.0;
      extra = bounds.2;
      from_min = a;
      ordered = b;
      to_max = c;
      positive = d;
      star_or_none = low_and_high-extra r parts read;
      is_bits = cc;
    }

-- The star's mark is bit 63 and no other.
has_bit-extra : (k extra : ℕ) → (extra ≡ 0) ⊎ (extra ≡ star_bit) → has_bit k extra ≡ true → k ≡ 63
has_bit-extra k extra s h = ground (arith, has_none k, has_bit-one k 63)

-- A bit that an accepted range sets is in the field's bounds, or marks the star.
has_bit-IsRange :
    {r : Bounds} {bits : ℕ} (k : ℕ)
    → IsRange r bits
    → r.max < 63
    → has_bit k bits ≡ true
    → ((r.min ≤ k) × (k ≤ r.max)) ⊎ (k ≡ 63)
has_bit-IsRange k range h b = ground (
  arith,
  has_bit-bit_or k (get_bits start end step) extra,
  has_bit-extra k extra star_or_none,
  has_bit-get_bits start end step k (omega arith) (omega arith) positive,
)
  where
    open range use {start, end, step, extra, star_or_none, positive, from_min, ordered, to_max}

abbrev OnlyInBounds : Bounds → ℕ → Type 0
OnlyInBounds r bits = (k : ℕ) → has_bit k bits ≡ true → ((r.min ≤ k) × (k ≤ r.max)) ⊎ (k ≡ 63)

field_bits-bounds :
    (r : Bounds) (bits : ℕ) (ranges : List Text) {out : ℕ}
    → r.max < 63
    → OnlyInBounds r bits
    → field_bits r bits ranges ≡ ok out
    → OnlyInBounds r out
unfolding field_bits
field_bits-bounds r bits [] m i h = λ k b. ground (arith, i k)
field_bits-bounds r bits (expr ∷ ranges) m i h =
    let (bit, read, more) = >>=-eq-ok (get_range expr r) _ h in
    field_bits-bounds r (bit_or bits bit) ranges m
      (λ k b. ground (
        arith,
        has_bit-bit_or k bits bit,
        i k,
        has_bit-IsRange k (get_range-IsRange expr r read) m,
      ))
      more

-- For bounds below 63, a field that the parser accepts sets no bit outside the field's bounds, but the
-- star's mark.
pub get_field-bounds :
    (field : Text) (r : Bounds) (k : ℕ) {bits : ℕ}
    → r.max < 63
    → get_field field r ≡ ok bits
    → has_bit k bits ≡ true
    → ((r.min ≤ k) × (k ≤ r.max)) ⊎ (k ≡ 63)
unfolding get_field
get_field-bounds field r k m h =
    field_bits-bounds r 0 _ m (λ j b. absurd (ground (arith, has_none j))) h k
