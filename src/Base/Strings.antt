-- ===== src/Base/Strings.antt =====
-- What the source uses of Go's `strings` and `strconv`, on texts as lists of code points.
pub mod Splits
use mathlib.Core.List.{reverse, reverse-cons, reverse-append}
use Prim.Native.Nat.{ℕ, ◌+◌, ◌-◌, ◌*◌, ◌^◌}
use mathlib.Core.Bool.{Bool, true, false, ◌&&◌, ◌||◌, not}
use mathlib.Core.Option.{Option, none, some}
use mathlib.Core.List.{List, [], ◌∷◌, ◌++◌, map}
use mathlib.Core.Path.{◌≡◌, refl, ap, ◌∙◌}
use native.Mathlib.Omega.{arith}
use gua.Base.Tests.{ltb, leb, ◌==◌, if◌then◌else◌}
use gua.Base.Lists.{keep}
use gua.Base.Texts.{Text}
use gua.Base.Int.{ℤ, pos, negsuc}

abbrev put_head : ℕ → Text × List Text → Text × List Text
put_head c (part, rest) = (c ∷ part, rest)

abbrev new_head : Text × List Text → Text × List Text
new_head (part, rest) = ([], part ∷ rest)

-- The parts of a text between the characters that pass a test: the first part, and the others.
unfoldable pub split_by : (ℕ → Bool) → Text → Text × List Text
split_by p [] = ([], [])
split_by p (c ∷ s) = let parts = split_by p s in if p c then new_head parts else put_head c parts

-- `strings.Split(s, sep)` for a separator of one character: there is always a first part.
unfoldable pub split : Text → ℕ → Text × List Text
unfolding split_by
split s sep = split_by (λ c. c == sep) s

abbrev pub is_empty : Text → Bool
is_empty [] = true
is_empty (c ∷ s) = false

-- `strings.FieldsFunc(s, p)`: the parts that are not empty.
unfoldable pub fields_func : Text → (ℕ → Bool) → List Text
unfolding split_by
fields_func s p =
    let (first, rest) = split_by p s in keep (λ part. not (is_empty part)) (first ∷ rest)

-- `unicode.IsSpace`.
unfoldable pub is_space : ℕ → Bool
is_space c =
    (leb 9 c && leb c 13)
    || c == 32
    || c == 0x85
    || c == 0xa0
    || c == 0x1680
    || (leb 0x2000 c && leb c 0x200a)
    || c == 0x2028
    || c == 0x2029
    || c == 0x202f
    || c == 0x205f
    || c == 0x3000

-- `strings.Fields(s)`.
unfoldable pub fields : Text → List Text
unfolding fields_func is_space
fields s = fields_func s is_space

trim_left : Text → Text
unfolding is_space
trim_left [] = []
trim_left (c ∷ s) = let rest = trim_left s in if is_space c then rest else c ∷ s

-- `strings.TrimSpace(s)`.
unfoldable pub trim_space : Text → Text
unfolding trim_left
trim_space s = reverse (trim_left (reverse (trim_left s)))

-- `strings.HasPrefix(s, prefix)`.
unfoldable pub has_prefix : Text → Text → Bool
has_prefix s [] = true
has_prefix [] (d ∷ p) = false
has_prefix (c ∷ s) (d ∷ p) = c == d && has_prefix s p

-- `s[len(prefix):]`, and `strings.TrimPrefix` of a text that has the prefix.
unfoldable pub drop_prefix : Text → Text → Text
drop_prefix s [] = s
drop_prefix [] (d ∷ p) = []
drop_prefix (c ∷ s) (d ∷ p) = drop_prefix s p

-- `strings.ToLower`, as far as a comparison with an ASCII text can tell: the ASCII capitals, and the
-- two other code points whose lower case is an ASCII letter (U+0130 and U+212A). Every other code
-- point stands for itself, since neither it nor its lower case is in such a text.
unfoldable pub lower : ℕ → ℕ
lower c =
    if leb b'A' c && leb c b'Z'
    then c + 32
    else if c == 0x130
    then b'i'
    else if c == 0x212a
    then b'k'
    else c

unfoldable pub to_lower : Text → Text
unfolding lower
to_lower = map lower

-- Decimal digits behind the number `n`; none on any other character.
unfoldable pub digits_from : ℕ → Text → Option ℕ
digits_from n [] = some n
digits_from n (c ∷ s) =
    let rest = digits_from (n * 10 + (c - b'0')) s in
    if leb b'0' c && leb c b'9' then rest else none

unfoldable pub unsigned : Text → Option ℕ
unfolding digits_from
unsigned [] = none
unsigned (c ∷ s) = digits_from 0 (c ∷ s)

abbrev in_range_pos : Option ℕ → Option ℤ
in_range_pos none = none
in_range_pos (some n) = if ltb n (2 ^ 63) then some (pos n) else none

abbrev in_range_neg : Option ℕ → Option ℤ
in_range_neg none = none
in_range_neg (some n) =
    if n == 0 then some (pos 0) else if leb n (2 ^ 63) then some (negsuc (n - 1)) else none

-- `strconv.Atoi` on a 64-bit platform: a sign or none, decimal digits, and the range of an int64.
unfoldable pub atoi : Text → Option ℤ
unfolding unsigned
atoi [] = none
atoi (c ∷ s) =
    if c == b'-'
    then in_range_neg (unsigned s)
    else if c == b'+'
    then in_range_pos (unsigned s)
    else in_range_pos (unsigned (c ∷ s))

-- A text with a prefix is the prefix and what is behind it.
pub append-drop_prefix : (s p : Text) → has_prefix s p ≡ true → s ≡ p ++ drop_prefix s p
unfolding has_prefix drop_prefix
append-drop_prefix s [] h = refl
append-drop_prefix [] (d ∷ p) h = cc
append-drop_prefix (c ∷ s) (d ∷ p) h = ground (arith, append-drop_prefix s p)

trim_left-snoc :
    (c : ℕ) (s : Text) → is_space c ≡ false → trim_left (s ++ c ∷ []) ≡ trim_left s ++ c ∷ []
unfolding trim_left
trim_left-snoc c [] h = ground arith
trim_left-snoc c (d ∷ s) h = ground (arith, trim_left-snoc c s h)

-- A first character that is no space stays the first.
pub trim_space-first :
    (c : ℕ) (s : Text) → is_space c ≡ false → (r : Text) × (trim_space (c ∷ s) ≡ c ∷ r)
unfolding trim_space trim_left
trim_space-first c s h = (
  reverse (trim_left (reverse s)),
  rw h (
      ap (λ t. reverse (trim_left t)) (reverse-cons c s)
      ∙ ap reverse (trim_left-snoc c (reverse s) h)
      ∙ reverse-append (trim_left (reverse s)) (c ∷ [])),
)
