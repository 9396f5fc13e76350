-- ===== src/Cron/Bits.antt =====
-- The `uint64` bit sets of delayquene/spec.go: the test `1<<k & s != 0`, and what `|`, `<<` and `^`
-- do to it.
use Prim.Native.Nat.{digits, bit_and-bitwise, bit_or-bitwise}
use native.Mathlib.Nat.{two-pow-succ, one-le-pow}
use gua.Base.{
  ℕ, zero, suc, ◌+◌, ◌-◌, ◌*◌, ◌/◌, ◌%◌, ◌^◌, ◌≤◌, ◌<◌, min, max, bit_and, bit_or, ◌≡◌, refl, ◌∙◌,
  Bool, false, ◌&&◌, ◌||◌, not, arith, ltb, leb, ◌==◌,
}

-- `1<<k & s != 0`, which the code also writes `1<<k & s > 0`.
unfoldable pub has_bit : ℕ → ℕ → Bool
has_bit k s = not (bit_and (2 ^ k) s == 0)

-- The digit recursion behind a bitwise operation does not depend on its fuel, once that is enough.
module _ (rest : ℕ → ℕ) (op : ℕ → ℕ → ℕ) where
  digits-fuel : (a b n m : ℕ) → a ≤ n → a ≤ m → digits rest op n a b ≡ digits rest op m a b
  digits-fuel a b n m p q = go n m a b p q
    where
      go : (n m a b : ℕ) → a ≤ n → a ≤ m → digits rest op n a b ≡ digits rest op m a b
      go zero zero zero b p q = refl
      go zero (suc m) zero b p q = refl
      go (suc n) zero zero b p q = refl
      go (suc n) (suc m) zero b p q = refl
      go zero m (suc a) b p q = absurd (omega arith)
      go (suc n) zero (suc a) b p q = absurd (omega arith)
      go (suc n) (suc m) (suc a) b p q =
          let half : suc a / 2 ≤ a = omega arith in
          omega (arith, go n m (suc a / 2) (b / 2) (omega arith) (omega arith))

-- One binary digit at a time.
bit_and-step : (a b : ℕ) → bit_and a b ≡ bit_and (a / 2) (b / 2) * 2 + min (a % 2) (b % 2)
bit_and-step zero b = omega (arith, bit_and-bitwise 0 b, bit_and-bitwise 0 (b / 2))
bit_and-step (suc a) b =
    let h = suc a / 2 in
    let enough = digits-fuel (λ _. zero) min h (b / 2) a h (omega arith) (omega arith) in
    omega (arith, enough, bit_and-bitwise (suc a) b, bit_and-bitwise h (b / 2))

bit_or-step : (a b : ℕ) → bit_or a b ≡ bit_or (a / 2) (b / 2) * 2 + max (a % 2) (b % 2)
bit_or-step zero b = omega (arith, bit_or-bitwise 0 b, bit_or-bitwise 0 (b / 2))
bit_or-step (suc a) b =
    let h = suc a / 2 in
    let enough = digits-fuel (λ y. y) max h (b / 2) a h (omega arith) (omega arith) in
    omega (arith, enough, bit_or-bitwise (suc a) b, bit_or-bitwise h (b / 2))

-- The test by recursion on the bit's number.
pub has_bit-zero : (s : ℕ) → has_bit 0 s ≡ (s % 2 == 1)
unfolding has_bit
has_bit-zero s = ground (arith, bit_and-step 1 s, bit_and-bitwise 0 (s / 2))

pub has_bit-suc : (k s : ℕ) → has_bit (suc k) s ≡ has_bit k (s / 2)
unfolding has_bit
has_bit-suc k s = ground (arith, bit_and-step (2 ^ suc k) s, two-pow-succ k)

-- The empty set.
pub has_none : (k : ℕ) → has_bit k 0 ≡ false
has_none zero = unfold has_bit in refl
has_none (suc k) = rw has_bit-suc (has_none k)

pub has_bit-bit_or : (k a b : ℕ) → has_bit k (bit_or a b) ≡ (has_bit k a || has_bit k b)
has_bit-bit_or zero a b =
    ground (arith, has_bit-zero a, has_bit-zero b, has_bit-zero (bit_or a b), bit_or-step a b)
has_bit-bit_or (suc k) a b = ground (
  arith,
  has_bit-suc k a,
  has_bit-suc k b,
  has_bit-suc k (bit_or a b),
  bit_or-step a b,
  has_bit-bit_or k (a / 2) (b / 2),
)

pub has_bit-bit_and : (k a b : ℕ) → has_bit k (bit_and a b) ≡ (has_bit k a && has_bit k b)
has_bit-bit_and zero a b =
    ground (arith, has_bit-zero a, has_bit-zero b, has_bit-zero (bit_and a b), bit_and-step a b)
has_bit-bit_and (suc k) a b = ground (
  arith,
  has_bit-suc k a,
  has_bit-suc k b,
  has_bit-suc k (bit_and a b),
  bit_and-step a b,
  has_bit-bit_and k (a / 2) (b / 2),
)

pow-pos : (n : ℕ) → 0 < 2 ^ n
pow-pos n = one-le-pow n 2 (omega arith)

-- The bits from `n` up to `m`, `2 ^ m - 2 ^ n`.
pub has_bit-block : (k m n : ℕ) → n ≤ m → has_bit k (2 ^ m - 2 ^ n) ≡ (leb n k && ltb k m)
has_bit-block zero zero zero h = unfold has_bit in refl
has_bit-block (suc k) zero zero h = rw has_bit-suc (has_bit-block k zero zero h ∙ ground arith)
has_bit-block k zero (suc n) h = absurd (omega arith)
has_bit-block zero (suc m) zero h =
    ground (arith, has_bit-zero (2 ^ suc m - 2 ^ 0), two-pow-succ m, pow-pos m)
has_bit-block (suc k) (suc m) zero h =
    let halves : (2 ^ suc m - 2 ^ 0) / 2 ≡ 2 ^ m - 2 ^ 0 =
      omega (arith, two-pow-succ m, pow-pos m) in
    rw (has_bit-suc, halves) (has_bit-block k m zero (omega arith) ∙ ground arith)
has_bit-block zero (suc m) (suc n) h =
    ground (arith, has_bit-zero (2 ^ suc m - 2 ^ suc n), two-pow-succ m, two-pow-succ n)
has_bit-block (suc k) (suc m) (suc n) h =
    let halves : (2 ^ suc m - 2 ^ suc n) / 2 ≡ 2 ^ m - 2 ^ n =
      omega (arith, two-pow-succ m, two-pow-succ n) in
    rw (has_bit-suc, halves) (has_bit-block k m n (omega arith) ∙ ground arith)

pub has_bit-one : (k n : ℕ) → has_bit k (2 ^ n) ≡ (k == n)
has_bit-one zero zero = unfold has_bit in refl
has_bit-one (suc k) zero = rw has_bit-suc (has_none k ∙ ground arith)
has_bit-one zero (suc n) = ground (arith, has_bit-zero (2 ^ suc n), two-pow-succ n)
has_bit-one (suc k) (suc n) =
    let halves : 2 ^ suc n / 2 ≡ 2 ^ n = omega (arith, two-pow-succ n) in
    rw (has_bit-suc, halves) (has_bit-one k n ∙ ground arith)
