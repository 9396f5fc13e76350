-- ===== src/Base/Strings/Splits.antt =====
-- Texts with a separator between them, and the functions of Go's package strings that split them.
use mathlib.Core.List.{List, [], ◌∷◌, ◌++◌}
use mathlib.Core.Bool.{Bool, true, false, ◌||◌, not}
use mathlib.Core.Path.{◌≡◌, refl, ap, ◌∙◌}
use Prim.Native.Nat.{ℕ}
use native.Mathlib.Omega.{arith}
use gua.Base.Tests.{◌==◌}
use gua.Base.Lists.{All, any, keep}
use gua.Base.Texts.{Text}
use gua.Base.Strings.{split_by, split, is_empty}

-- Texts with a character between them.
abbrev pub join : ℕ → Text → List Text → Text
join c s [] = s
join c s (t ∷ ts) = s ++ c ∷ join c t ts

-- No character of a text passes a test.
abbrev pub Free : (ℕ → Bool) → Text → Type 0
Free p s = any p s ≡ false

pub any-append : (p : ℕ → Bool) (s t : Text) → any p (s ++ t) ≡ (any p s || any p t)
any-append p [] t = refl
any-append p (c ∷ s) t = ground (arith, any-append p s t)

split_by-append :
    (p : ℕ → Bool) (s t : Text) (c : ℕ)
    → Free p s
    → p c ≡ true
    → split_by p (s ++ c ∷ t) ≡ (s, (split_by p t).0 ∷ (split_by p t).1)
unfolding split_by
split_by-append p [] t c free at = ground (arith, at)
split_by-append p (d ∷ s) t c free at = ground (arith, split_by-append p s t c (ground arith) at)

split_by-Free : (p : ℕ → Bool) (s : Text) → Free p s → split_by p s ≡ (s, [])
unfolding split_by
split_by-Free p [] free = refl
split_by-Free p (d ∷ s) free = ground (arith, split_by-Free p s)

pub split_by-join :
    (p : ℕ → Bool) (c : ℕ) (s : Text) (ts : List Text)
    → p c ≡ true
    → Free p s
    → All (Free p) ts
    → split_by p (join c s ts) ≡ (s, ts)
split_by-join p c s [] at free frees = split_by-Free p s free
split_by-join p c s (t ∷ ts) at free (f, fs) =
    split_by-append p s (join c t ts) c free at
    ∙ ap (λ parts. (s, parts.0 ∷ parts.1)) (split_by-join p c t ts at f fs)

pub keep_full :
    (ts : List Text) → All (λ t. is_empty t ≡ false) ts → keep (λ t. not (is_empty t)) ts ≡ ts
keep_full [] full = refl
keep_full (t ∷ ts) (f, fs) = rw f (ap (λ l. t ∷ l) (keep_full ts fs))

pub split-once :
    (c : ℕ) (s t : Text)
    → Free (λ d. d == c) s
    → Free (λ d. d == c) t
    → split (s ++ c ∷ t) c ≡ (s, t ∷ [])
unfolding split
split-once c s t hs ht =
    split_by-append (λ d. d == c) s t c hs (ground arith)
    ∙ ap (λ x. (s, x.0 ∷ x.1)) (split_by-Free (λ d. d == c) t ht)
