-- ===== src/Cron/Field/Ranges.antt =====
-- What the bit sets of delayquene/parser.go hold: `getBits`, `getRange` and `getField`.
use native.Mathlib.Nat.{pow-le-pow_right, mod-eq_of_lt, mod-eq-sub-mod}
use gua.Base.{
  ℕ, zero, suc, ◌+◌, ◌-◌, ◌%◌, ◌^◌, ◌≤◌, ◌<◌, bit_or, ◌≡◌, refl, inl, inr, Bool, true, ◌&&◌, ◌||◌,
  ltb, leb, ◌==◌, Bool-cases, arith, ◌∙◌, ap,
}
use gua.Cron.Bits.{has_bit, has_none, has_bit-one, has_bit-block, has_bit-bit_or, has_bit-bit_and}
use gua.Cron.Field.{shl64, not64, set_bits, get_bits}

pow-le-top : (n : ℕ) → n < 64 → 2 ^ n ≤ 2 ^ 63
pow-le-top n h = pow-le-pow_right {n = 2} (omega arith) {i = n} {j = 63} (omega arith)

shl64-one : (i : ℕ) → i < 64 → shl64 1 i ≡ 2 ^ i
shl64-one i h = omega (arith, pow-le-top i h)

-- The numbers from `lo` to `hi` in steps of `step`.
abbrev pub on_steps : ℕ → ℕ → ℕ → ℕ → Bool
on_steps lo hi step k = leb lo k && leb k hi && (k - lo) % step == 0

on_steps-next :
    (i hi step k : ℕ)
    → i ≤ hi
    → 0 < step
    → on_steps i hi step k ≡ (k == i || on_steps (i + step) hi step k)
on_steps-next i hi step k h p = elim (Bool-cases (leb (i + step) k)) [
  | inl far ↦
      let behind : k - i - step ≡ k - (i + step) = omega arith in
      let fits : step ≤ k - i = ground arith in
      let wraps : (k - i) % step ≡ (k - (i + step)) % step =
        mod-eq-sub-mod fits ∙ ap (λ x. x % step) behind in
      ground arith
  | inr near ↦ elim (Bool-cases (leb i k)) [
    | inl past ↦ let small : (k - i) % step ≡ k - i = mod-eq_of_lt (ground arith) in ground arith
    | inr before ↦ ground arith
  ]
]

has_bit-set_bits :
    (fuel i hi step bits k : ℕ)
    → suc hi - i ≤ fuel
    → hi < 64
    → 0 < step
    → has_bit k (set_bits fuel i hi step bits) ≡ (has_bit k bits || on_steps i hi step k)
unfolding set_bits
has_bit-set_bits zero i hi step bits k f h p = ground arith
has_bit-set_bits (suc fuel) i hi step bits k f h p = elim (Bool-cases (leb i hi)) [
  | inl more ↦
      let i≤hi : i ≤ hi = ground arith in
      rw more (
        has_bit-set_bits fuel (i + step) hi step (bit_or bits (shl64 1 i)) k (omega arith) h p
        ∙ ground (
          arith,
          has_bit-bit_or k bits (shl64 1 i),
          shl64-one i (omega arith),
          has_bit-one k i,
          on_steps-next i hi step k i≤hi p,
        ))
  | inr done ↦ ground arith
]

-- `math.MaxUint64 << n` at each of the 65 values of `n`.
shift_table : ℕ → Bool
shift_table zero = true
shift_table (suc n) = shl64 (2 ^ 64 - 1) n == 2 ^ 64 - 2 ^ n && shift_table n

ones_shifted_below :
    (m n : ℕ) → shift_table m ≡ true → n < m → shl64 (2 ^ 64 - 1) n ≡ 2 ^ 64 - 2 ^ n
unfolding shift_table
ones_shifted_below zero n t h = absurd (omega arith)
ones_shifted_below (suc m) n t h = ground (arith, ones_shifted_below m n)

ones_shifted : (n : ℕ) → n < 65 → shl64 (2 ^ 64 - 1) n ≡ 2 ^ 64 - 2 ^ n
ones_shifted n h = ones_shifted_below 65 n (unfold shift_table in refl) h

has_bit-below : (k n : ℕ) → n < 64 → has_bit k (not64 (shl64 (2 ^ 64 - 1) n)) ≡ ltb k n
has_bit-below k n h =
    let ones : not64 (shl64 (2 ^ 64 - 1) n) ≡ 2 ^ n - 2 ^ 0 =
      omega (arith, ones_shifted n (omega arith), pow-le-top n h) in
    rw ones (has_bit-block k n 0 (omega arith) ∙ ground arith)

has_bit-from : (k n : ℕ) → n < 64 → has_bit k (shl64 (2 ^ 64 - 1) n) ≡ (leb n k && ltb k 64)
has_bit-from k n h = rw (ones_shifted n (omega arith)) (has_bit-block k 64 n (omega arith))

-- From below 64 to below 63, and with a positive step, `getBits` sets the bits of its progression and
-- no other, by its shifts and by its loop.
pub has_bit-get_bits :
    (lo hi step k : ℕ)
    → lo < 64
    → hi < 63
    → 0 < step
    → has_bit k (get_bits lo hi step) ≡ on_steps lo hi step k
unfolding get_bits
has_bit-get_bits lo hi step k l h p = elim (Bool-cases (step == 1)) [
  | inl one ↦ rw one (
      rw has_bit-bit_and ground
        (arith, has_bit-below k (hi + 1) (omega arith), has_bit-from k lo l))
  | inr other ↦ rw other (
      has_bit-set_bits (suc hi - lo) lo hi step 0 k (omega arith) (omega arith) p
      ∙ rw has_none refl)
]
