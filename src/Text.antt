-- ===== src/Text.antt =====
-- Go strings, as lists of their runes (the text is taken to be valid UTF-8), and the functions of
-- Go's standard library that the program calls on them.
pub mod Decimal
use Prim.Native.Char.{code}
use Prim.Native.String
use tdiscuss.Base.{
  ℕ, ◌+◌, String, ◌≡◌, refl, ◌↔◌, Bool, true, false, not, ◌&&◌, ◌||◌, List, [], ◌∷◌, ◌++◌, arith,
  leb, ◌==◌, if◌then◌else◌, Option, none, some,
}
use mathlib.Core.List.{reverse}

abbrev pub Text : Type 0
Text = List ℕ

-- The runes of a literal.
abbrev pub codes : String → Text
codes String.[] = []
codes (String.◌∷◌ c s) = code c ∷ codes s

-- `a == b`
unfoldable pub text_eq : Text → Text → Bool
text_eq [] [] = true
text_eq [] (_ ∷ _) = false
text_eq (_ ∷ _) [] = false
text_eq (x ∷ xs) (y ∷ ys) = x == y && text_eq xs ys

pub text_eq_iff : (a b : Text) → (text_eq a b ≡ true) ↔ (a ≡ b)
unfolding text_eq
text_eq_iff [] [] = ground arith
text_eq_iff [] (y ∷ ys) = ground arith
text_eq_iff (x ∷ xs) [] = ground arith
text_eq_iff (x ∷ xs) (y ∷ ys) = ground (arith, text_eq_iff xs ys)

pub text_eq_refl : (a : Text) → text_eq a a ≡ true
text_eq_refl a = (text_eq_iff a a).1 refl

-- `a == ""`
abbrev pub is_empty : Text → Bool
is_empty [] = true
is_empty (_ ∷ _) = false

-- `strings.CutPrefix`: what follows the prefix, if it is one.
unfoldable pub cut_prefix : Text → Text → Option Text
cut_prefix [] s = some s
cut_prefix (_ ∷ _) [] = none
cut_prefix (p ∷ ps) (c ∷ s) = if p == c then cut_prefix ps s else none

-- `strings.HasPrefix`
unfoldable pub has_prefix : Text → Text → Bool
unfolding cut_prefix
has_prefix s p = elim (cut_prefix p s) [ none ↦ false | some _ ↦ true ]

-- `strings.HasSuffix`
unfoldable pub has_suffix : Text → Text → Bool
unfolding has_prefix
has_suffix s p = has_prefix (reverse s) (reverse p)

-- What stands before and after the first `c` (`strings.Index`, `strings.Split`).
unfoldable pub cut : ℕ → Text → Option (Text × Text)
cut c [] = none
cut c (x ∷ s) =
    if x == c
    then some ([], s)
    else elim (cut c s) [ none ↦ none | some (before, after) ↦ some (x ∷ before, after) ]

-- `unicode.IsSpace`
unfoldable pub is_space : ℕ → Bool
is_space c =
    (leb 9 c && leb c 13)
    || c == 32
    || c == 0x85
    || c == 0xa0
    || c == 0x1680
    || (leb 0x2000 c && leb c 0x200a)
    || c == 0x2028
    || c == 0x2029
    || c == 0x202f
    || c == 0x205f
    || c == 0x3000

-- `strings.TrimLeftFunc` by `unicode.IsSpace`
unfoldable pub trim_left : Text → Text
unfolding is_space
trim_left [] = []
trim_left (c ∷ s) = if is_space c then trim_left s else c ∷ s

-- `strings.TrimSpace`
unfoldable pub trim_space : Text → Text
unfolding trim_left
trim_space s = reverse (trim_left (reverse (trim_left s)))

-- `strings.ReplaceAll` of one rune by a text
unfoldable pub replace_rune : ℕ → Text → Text → Text
replace_rune old new [] = []
replace_rune old new (c ∷ s) =
    if c == old then new ++ replace_rune old new s else c ∷ replace_rune old new s

-- `strings.ReplaceAll` of two runes in a row by a text
unfoldable pub replace_pair : ℕ → ℕ → Text → Text → Text
replace_pair a b new [] = []
replace_pair a b new (c ∷ []) = c ∷ []
replace_pair a b new (c ∷ d ∷ s) =
    let hit = new ++ replace_pair a b new s in
    let miss = c ∷ replace_pair a b new (d ∷ s) in if c == a && d == b then hit else miss

-- `strings.ToLower`, on ASCII letters.
unfoldable pub to_lower : Text → Text
to_lower [] = []
to_lower (c ∷ s) = (if leb 65 c && leb c 90 then c + 32 else c) ∷ to_lower s

trim_tests :
    (trim_space (codes " \ta b\n") ≡ codes "a b")
    × (replace_pair 13 10 (codes "\n") (codes "a\r\nb\r") ≡ codes "a\nb\r")
unfolding trim_space replace_pair
trim_tests = (refl, refl)
