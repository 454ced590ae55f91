-- ===== src/PathId.antt =====
-- parser.go: `parseID`, the number in the path of a thread or a member.
use tdiscuss.Base.{
  ℕ, ◌<◌, ◌^◌, ◌≡◌, ◌≢◌, refl, true, [], ◌∷◌, ◌++◌, if◌then◌else◌, Option, none, some, ℤ, pos, all,
  ◌∙◌,
}
use tdiscuss.Text.{Text, codes, cut_prefix}
use tdiscuss.Text.Decimal.{
  is_digit, parse_int, format_int, decimal, decimal-digits, parse_int-format_int,
}

-- `[0-9]+$`, and `strconv.ParseInt` of what it matches.
abbrev digits_id : Text → Option ℤ
digits_id [] = none
digits_id (c ∷ s) = if all is_digit (c ∷ s) then parse_int 64 (c ∷ s) else none

abbrev id_after : Option Text → Option Text → Option ℤ
id_after none none = none
id_after none (some s) = digits_id s
id_after (some s) _ = digits_id s

unfoldable pub parse_id : Text → Option ℤ
unfolding cut_prefix parse_int
parse_id path = id_after (cut_prefix (codes "/thread/") path) (cut_prefix (codes "/member/") path)

digits_id_lem : (s : Text) → s ≢ [] → all is_digit s ≡ true → digits_id s ≡ parse_int 64 s
digits_id_lem [] ne d = elim (ne refl) [ ]
digits_id_lem (c ∷ s) ne d = rw d refl

digits_id-decimal : (n : ℕ) → n < 2 ^ 63 → digits_id (decimal n) ≡ some (pos n)
digits_id-decimal n h =
    let (ne, d) = decimal-digits n in
    digits_id_lem (decimal n) ne d ∙ (unfold format_int in parse_int-format_int (pos n) h)

-- The paths of threads and of members that are made with a number below 2 ^ 63 read back as that
-- number.
pub parse_id-decimal :
    (n : ℕ)
    → n < 2 ^ 63
    → (parse_id (codes "/thread/" ++ decimal n) ≡ some (pos n))
      × (parse_id (codes "/member/" ++ decimal n) ≡ some (pos n))
unfolding parse_id
parse_id-decimal n h = (digits_id-decimal n h, digits_id-decimal n h)
