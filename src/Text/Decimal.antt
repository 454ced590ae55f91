-- ===== src/Text/Decimal.antt =====
-- Decimal numerals: `strconv.FormatInt`, `strconv.ParseInt` and the verb `%d` of `fmt.Sscanf`.
use tdiscuss.Base.{
  ℕ, zero, suc, ◌+◌, ◌-◌, ◌*◌, ◌/◌, ◌%◌, ◌^◌, ◌<◌, ◌≡◌, refl, ◌∙◌, Bool, true, ◌&&◌, List, [], ◌∷◌,
  arith, leb, ltb, ◌==◌, if◌then◌else◌, Option, none, some, ℤ, pos, negsuc, Bool-cases, inl, inr,
  all, ◌≢◌,
}
use mathlib.Core.Path.{subst}

abbrev Text : Type 0
Text = List ℕ

abbrev pub is_digit : ℕ → Bool
is_digit c = leb 48 c && leb c 57

-- The fuel is one more than the number, which is more than its digits.
decimal_from : ℕ → ℕ → Text → Text
decimal_from zero n acc = acc
decimal_from (suc f) n acc =
    let more = decimal_from f (n / 10) ((48 + n % 10) ∷ acc) in
    if ltb n 10 then (48 + n) ∷ acc else more

unfoldable pub decimal : ℕ → Text
unfolding decimal_from
decimal n = decimal_from (suc n) n []

-- `strconv.FormatInt(z, 10)` and `%d`
unfoldable pub format_int : ℤ → Text
unfolding decimal
format_int (pos n) = decimal n
format_int (negsuc n) = 45 ∷ decimal (suc n)

unfoldable pub parse_digits : ℕ → Text → Option ℕ
parse_digits acc [] = some acc
parse_digits acc (c ∷ s) = if is_digit c then parse_digits (acc * 10 + (c - 48)) s else none

-- At least one digit, and nothing else.
unfoldable pub parse_number : Text → Option ℕ
unfolding parse_digits
parse_number [] = none
parse_number (c ∷ s) = parse_digits 0 (c ∷ s)

-- The checks of range for a signed integer of `bits` bits.
fit_pos : ℕ → Option ℕ → Option ℤ
fit_pos bits none = none
fit_pos bits (some n) = if ltb n (2 ^ (bits - 1)) then some (pos n) else none

fit_neg : ℕ → Option ℕ → Option ℤ
fit_neg bits none = none
fit_neg bits (some zero) = some (pos 0)
fit_neg bits (some (suc n)) = if ltb n (2 ^ (bits - 1)) then some (negsuc n) else none

-- `strconv.ParseInt(s, 10, bits)`: `none` is an error of syntax or of range.
unfoldable pub parse_int : ℕ → Text → Option ℤ
unfolding parse_number fit_pos fit_neg
parse_int bits [] = none
parse_int bits (c ∷ s) =
    if c == 43
    then fit_pos bits (parse_number s)
    else if c == 45
    then fit_neg bits (parse_number s)
    else fit_pos bits (parse_number (c ∷ s))

-- The longest run of digits at the front.
leading_digits : Text → Text
leading_digits [] = []
leading_digits (c ∷ s) = if is_digit c then c ∷ leading_digits s else []

-- `fmt.Sscanf(s, "%d", &n)` into an `int64`, from a text with no space in front: a sign, then the
-- longest run of digits. What follows the run is not looked at.
unfoldable pub scan_int : Text → Option ℤ
unfolding leading_digits fit_pos fit_neg parse_number
scan_int [] = none
scan_int (c ∷ s) =
    if c == 43
    then fit_pos 64 (parse_number (leading_digits s))
    else if c == 45
    then fit_neg 64 (parse_number (leading_digits s))
    else fit_pos 64 (parse_number (leading_digits (c ∷ s)))

number_tests :
    (parse_int 64 (format_int (negsuc 41)) ≡ some (negsuc 41))
    × (parse_int 64 [] ≡ none)
    × (scan_int (49 ∷ 50 ∷ 97 ∷ []) ≡ some (pos 12))
unfolding parse_int format_int scan_int
number_tests = (refl, refl, refl)

parse_digits-decimal_from :
    (f n : ℕ) (acc : Text) → n < f → parse_digits 0 (decimal_from f n acc) ≡ parse_digits n acc
unfolding decimal_from
parse_digits-decimal_from zero n acc h = elim h [ ]
parse_digits-decimal_from (suc f) n acc h = elim (Bool-cases (ltb n 10)) [
  | inl small ↦ rw small (unfold parse_digits in ground arith)
  | inr big ↦ rw big (
      parse_digits-decimal_from f (n / 10) ((48 + n % 10) ∷ acc) (ground arith)
      ∙ (unfold parse_digits in ground arith))
]

-- Every number reads back from its decimal form.
pub parse_digits-decimal : (n : ℕ) → parse_digits 0 (decimal n) ≡ some n
unfolding decimal parse_digits
parse_digits-decimal n = parse_digits-decimal_from (suc n) n [] (omega arith)

abbrev StartsWithDigit : Text → Type 0
StartsWithDigit [] = ⊥
StartsWithDigit (c ∷ s) = is_digit c ≡ true

decimal_from-StartsWithDigit :
    (f n : ℕ) (acc : Text) → n < f → StartsWithDigit (decimal_from f n acc)
unfolding decimal_from
decimal_from-StartsWithDigit zero n acc h = elim h [ ]
decimal_from-StartsWithDigit (suc f) n acc h = elim (Bool-cases (ltb n 10)) [
  | inl small ↦ rw small (ground arith)
  | inr big ↦ rw big (decimal_from-StartsWithDigit f (n / 10) ((48 + n % 10) ∷ acc) (ground arith))
]

parse_number_of_digits :
    (s : Text) {n : ℕ}
    → StartsWithDigit s
    → parse_digits 0 s ≡ some n
    → n < 2 ^ 63
    → parse_int 64 s ≡ some (pos n)
unfolding parse_int
parse_number_of_digits [] d h p = elim d [ ]
parse_number_of_digits (c ∷ s) d h p = ground arith

parse_number_of_minus :
    (s : Text) {n : ℕ}
    → StartsWithDigit s
    → parse_digits 0 s ≡ some (suc n)
    → n < 2 ^ 63
    → parse_int 64 (45 ∷ s) ≡ some (negsuc n)
unfolding parse_int
parse_number_of_minus [] d h p = elim d [ ]
parse_number_of_minus (c ∷ s) d h p = ground arith

-- The values of Go's `int64`.
abbrev pub IsInt64 : ℤ → Type 0
IsInt64 (pos n) = n < 2 ^ 63
IsInt64 (negsuc n) = n < 2 ^ 63

pub parse_int-format_int : (z : ℤ) → IsInt64 z → parse_int 64 (format_int z) ≡ some z
unfolding format_int
parse_int-format_int (pos n) h =
    parse_number_of_digits (decimal n) (decimal_from-StartsWithDigit (suc n) n [] (omega arith))
      (parse_digits-decimal n) h
parse_int-format_int (negsuc n) h =
    parse_number_of_minus (decimal (suc n))
      (decimal_from-StartsWithDigit (suc (suc n)) (suc n) [] (omega arith))
      (parse_digits-decimal (suc n)) h

decimal_from-digits :
    (f n : ℕ) (acc : Text)
    → n < f
    → all is_digit acc ≡ true
    → all is_digit (decimal_from f n acc) ≡ true
unfolding decimal_from
decimal_from-digits zero n acc h d = elim h [ ]
decimal_from-digits (suc f) n acc h d = elim (Bool-cases (ltb n 10)) [
  | inl small ↦ rw small (ground arith)
  | inr big ↦
      rw big (decimal_from-digits f (n / 10) ((48 + n % 10) ∷ acc) (ground arith) (ground arith))
]

-- A decimal form has a digit, and nothing but digits.
pub decimal-digits : (n : ℕ) → (decimal n ≢ []) × (all is_digit (decimal n) ≡ true)
unfolding decimal
decimal-digits n = (
  λ e. subst StartsWithDigit e (decimal_from-StartsWithDigit (suc n) n [] (omega arith)),
  decimal_from-digits (suc n) n [] (omega arith) refl,
)
