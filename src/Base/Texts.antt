-- ===== src/Base/Texts.antt =====
-- Texts: a Go string as the list of its code points.
use Prim.Native.Nat.{ℕ}
use Prim.Native.Char.{code}
use Prim.Native.String.{String}
use mathlib.Core.Path.{◌≡◌, refl}
use mathlib.Core.Logic.{◌↔◌}
use mathlib.Core.Bool.{Bool, true, false, ◌&&◌}
use mathlib.Core.List.{List, [], ◌∷◌}
use native.Mathlib.Omega.{arith}
use gua.Base.Tests.{◌==◌}

abbrev pub Text : Type 0
Text = List ℕ

-- The code points of a literal.
abbrev pub codes : String → Text
codes String.[] = []
codes (String.◌∷◌ c s) = code c ∷ codes s

-- Go's `==` on strings.
infix 50 ◌=t◌
unfoldable pub ◌=t◌ : Text → Text → Bool
[] =t [] = true
[] =t (d ∷ t) = false
(c ∷ s) =t [] = false
(c ∷ s) =t (d ∷ t) = c == d && s =t t

pub =t→eq : (s t : Text) → (s =t t) ≡ true → s ≡ t
unfolding ◌=t◌
=t→eq [] [] h = refl
=t→eq [] (d ∷ t) h = cc
=t→eq (c ∷ s) [] h = cc
=t→eq (c ∷ s) (d ∷ t) h = ground (arith, =t→eq s t)

pub =t_refl : (s : Text) → (s =t s) ≡ true
unfolding ◌=t◌
=t_refl [] = refl
=t_refl (c ∷ s) = ground (arith, =t_refl s)

pub eq→=t : (s t : Text) → s ≡ t → (s =t t) ≡ true
eq→=t s t h = rw h (=t_refl t)

pub =t_iff : (s t : Text) → ((s =t t) ≡ true) ↔ (s ≡ t)
=t_iff s t = (=t→eq s t, eq→=t s t)

-- A text compares as an equal one does.
pub =t_same : (s t u : Text) → (s =t t) ≡ true → (s =t u) ≡ (t =t u)
=t_same s t u h = rw (=t→eq s t h) refl

pub =t_flip : (s t : Text) → (s =t t) ≡ (t =t s)
unfolding ◌=t◌
=t_flip [] [] = refl
=t_flip [] (d ∷ t) = refl
=t_flip (c ∷ s) [] = refl
=t_flip (c ∷ s) (d ∷ t) = ground (arith, =t_flip s t)
