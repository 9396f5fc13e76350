-- ===== src/Base/Lists.antt =====
-- Lists measured by native numbers, filters by a Boolean test, and predicates on their items.
use Prim.Native.Nat.{ℕ, zero, suc, ◌+◌}
use mathlib.Core.Path.{◌≡◌, refl}
use mathlib.Core.Bool.{Bool, true, false, ◌||◌}
use mathlib.Core.Logic.{◌≢◌, inl, inr}
use mathlib.Core.Option.{Option, none, some}
use mathlib.Core.List.{List, [], ◌∷◌, ◌++◌}
use native.Mathlib.Omega.{arith}
use gua.Base.Tests.{if◌then◌else◌, Bool-cases}

module _ {ℓ} {A : Type ℓ} where
  abbrev pub length : List A → ℕ
  length [] = 0
  length (x ∷ xs) = suc (length xs)

  -- The items that pass the test, in order.
  abbrev pub keep : (A → Bool) → List A → List A
  keep p [] = []
  keep p (x ∷ xs) = let rest = keep p xs in if p x then x ∷ rest else rest

  -- How many items pass the test.
  abbrev pub count : (A → Bool) → List A → ℕ
  count p [] = 0
  count p (x ∷ xs) = let rest = count p xs in if p x then suc rest else rest

  -- The first item that passes the test.
  abbrev pub find : (A → Bool) → List A → Option A
  find p [] = none
  find p (x ∷ xs) = let rest = find p xs in if p x then some x else rest

  abbrev pub any : (A → Bool) → List A → Bool
  any p [] = false
  any p (x ∷ xs) = p x || any p xs

  abbrev pub take : ℕ → List A → List A
  take zero xs = []
  take (suc n) [] = []
  take (suc n) (x ∷ xs) = x ∷ take n xs

  -- The item at an index; the list with another item there, and without it.
  abbrev pub nth : ℕ → List A → Option A
  nth n [] = none
  nth zero (x ∷ xs) = some x
  nth (suc n) (x ∷ xs) = nth n xs

  abbrev pub set_at : ℕ → A → List A → List A
  set_at n y [] = []
  set_at zero y (x ∷ xs) = y ∷ xs
  set_at (suc n) y (x ∷ xs) = x ∷ set_at n y xs

  abbrev pub remove_at : ℕ → List A → List A
  remove_at n [] = []
  remove_at zero (x ∷ xs) = xs
  remove_at (suc n) (x ∷ xs) = x ∷ remove_at n xs

  pub count-nth :
      (p : A → Bool) (n : ℕ) (xs : List A) {x : A}
      → nth n xs ≡ some x
      → count p xs ≡ (if p x then 1 else 0) + count p (remove_at n xs)
  count-nth p n [] h = cc
  count-nth p zero (y ∷ xs) h = ground arith
  count-nth p (suc n) (y ∷ xs) h = ground (arith, count-nth p n xs h)

  pub count-set_at :
      (p : A → Bool) (n : ℕ) (y : A) (xs : List A) {x : A}
      → nth n xs ≡ some x
      → count p (set_at n y xs) ≡ (if p y then 1 else 0) + count p (remove_at n xs)
  count-set_at p n y [] h = cc
  count-set_at p zero y (z ∷ xs) h = ground arith
  count-set_at p (suc n) y (z ∷ xs) h = ground (arith, count-set_at p n y xs h)

  -- An item that is counted has an index.
  pub nth-count :
      (p : A → Bool) (xs : List A)
      → count p xs ≢ 0
      → (n : ℕ) × (x : A) × (nth n xs ≡ some x) × (p x ≡ true)
  nth-count p [] h = absurd (h refl)
  nth-count p (x ∷ xs) h = elim (Bool-cases (p x)) [
    | inl passes ↦ (0, x, refl, passes)
    | inr fails ↦
        let (n, y, at, holds) = nth-count p xs (λ z. h (ground (arith, fails, z))) in
        (suc n, y, at, holds)
  ]

  pub length-append : (xs ys : List A) → length (xs ++ ys) ≡ length xs + length ys
  length-append [] ys = omega arith
  length-append (x ∷ xs) ys = omega (arith, length-append xs ys)

  pub count-append : (p : A → Bool) (xs ys : List A) → count p (xs ++ ys) ≡ count p xs + count p ys
  count-append p [] ys = omega arith
  count-append p (x ∷ xs) ys = ground (arith, count-append p xs ys)

  pub length-keep : (p : A → Bool) (xs : List A) → length (keep p xs) ≡ count p xs
  length-keep p [] = refl
  length-keep p (x ∷ xs) = ground (arith, length-keep p xs)

module _ {ℓ κ} {A : Type ℓ} (P : A → Type κ) where
  abbrev pub All : List A → Type κ
  All [] = Unit
  All (x ∷ xs) = P x × All xs

  pub All-append : (xs ys : List A) → All xs → All ys → All (xs ++ ys)
  All-append [] ys _ hy = hy
  All-append (x ∷ xs) ys (px, hx) hy = (px, All-append xs ys hx hy)
