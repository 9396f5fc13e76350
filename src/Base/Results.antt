-- ===== src/Base/Results.antt =====
-- A Go pair `(value, error)`: a value, or an error of the type that the component declares.
use mathlib.Core.Path.{◌≡◌, refl}

pub data Result (E A : Type 0) : Type 0 where
  ok : A → Result E A
  err : E → Result E A

module _ {E A B : Type 0} where
  -- `if err != nil { return …, err }`
  infixl 5 ◌>>=◌ ◌>>◌
  abbrev pub ◌>>=◌ : Result E A → (A → Result E B) → Result E B
  (ok value) >>= rest = rest value
  (err e) >>= rest = err e

  abbrev pub ◌>>◌ : Result E A → Result E B → Result E B
  first >> second = first >>= λ _. second

  -- A chain that returned a value had one at its first step.
  pub >>=-eq-ok :
      (first : Result E A) (rest : A → Result E B) {result : B}
      → (first >>= rest) ≡ ok result
      → (value : A) × (first ≡ ok value) × (rest value ≡ ok result)
  >>=-eq-ok (err e) rest returned = cc
  >>=-eq-ok (ok value) rest returned = (value, refl, returned)
