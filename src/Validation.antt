-- ===== src/Validation.antt =====
-- validation.go: the validator, its checks and the forms of the program. A validator is the list of
-- the errors so far; a check returns its verdict and the validator after it.
pub mod Forms
use tdiscuss.Base.{
  ℕ, ◌≡◌, refl, Bool, true, false, not, ◌&&◌, ◌||◌, List, [], ◌∷◌, ◌++◌, arith, leb, ltb, ◌==◌,
  if◌then◌else◌, Option, none, some, length, String, ℤ, pos, negsuc, ltb_ℤ, zero, suc,
}
use tdiscuss.Text.{Text, codes, text_eq, is_empty, trim_space, is_space}
use tdiscuss.Text.Decimal.{decimal, format_int, scan_int}

pub data Message : Type 0 where
  is_required bad_url incomplete_url bad_protocol has_html bad_number bad_characters : Message
  too_long too_short : ℕ → Message
  below above : ℤ → Message

pub record ValidationError : Type 0 where
  pub field : String
  pub message : Message

abbrev pub Validator : Type 0
Validator = List ValidationError

-- What the checks of length count is the runes.
unfoldable pub message_text : Message → Text
message_text is_required = codes "is required"
message_text bad_url = codes "must be a valid URL"
message_text incomplete_url = codes "must be a complete URL with scheme and host"
message_text bad_protocol = codes "must use http or https protocol"
message_text has_html = codes "must not contain HTML tags"
message_text bad_number = codes "must be a valid number"
message_text bad_characters = codes "contains invalid characters"
message_text (too_long n) = codes "must not exceed " ++ (decimal n ++ codes " characters")
message_text (too_short n) = codes "must be at least " ++ (decimal n ++ codes " characters")
message_text (below z) = codes "must be at least " ++ format_int z
message_text (above z) = codes "must not exceed " ++ format_int z

-- `ValidationError.Error`
unfoldable pub error_text : ValidationError → Text
unfolding message_text
error_text e = codes e.field ++ (codes ": " ++ message_text e.message)

-- `ValidationErrors.Error`
unfoldable pub errors_text : List ValidationError → Text
unfolding error_text
errors_text [] = []
errors_text (e ∷ []) = error_text e
errors_text (e ∷ d ∷ es) = error_text e ++ (codes "; " ++ errors_text (d ∷ es))

abbrev pub new_validator : Validator
new_validator = []

abbrev pub has_errors : Validator → Bool
has_errors [] = false
has_errors (_ ∷ _) = true

abbrev pub add_error : String → Message → Validator → Validator
add_error field message v = v ++ record { field = field; message = message } ∷ []

abbrev check : Bool → String → Message → Validator → Bool × Validator
check passed field message v = if passed then (true, v) else (false, add_error field message v)

abbrev pub validate_required : String → Text → Validator → Bool × Validator
validate_required field value v = check (not (is_empty (trim_space value))) field is_required v

abbrev pub validate_max_length : String → Text → ℕ → Validator → Bool × Validator
validate_max_length field value max_length v =
    check (leb (length value) max_length) field (too_long max_length) v

abbrev pub validate_min_length : String → Text → ℕ → Validator → Bool × Validator
validate_min_length field value min_length v =
    check (leb min_length (length value)) field (too_short min_length) v

-- What `url.Parse` finds.
pub record Url : Type 0 where
  pub scheme : Text
  pub host : Text

abbrev pub is_web : Url → Bool
is_web u = text_eq u.scheme (codes "http") || text_eq u.scheme (codes "https")

abbrev url_checks : String → Option Url → Validator → Bool × Validator
url_checks field none v = (false, add_error field bad_url v)
url_checks field (some u) v =
    if is_empty u.scheme || is_empty u.host
    then (false, add_error field incomplete_url v)
    else check (is_web u) field bad_protocol v

-- `parse_url` is `url.Parse`.
abbrev pub validate_url : (Text → Option Url) → String → Text → Validator → Bool × Validator
validate_url parse_url field value v =
    if is_empty value then (true, v) else url_checks field (parse_url value) v

abbrev is_letter : ℕ → Bool
is_letter c = (leb 65 c && leb c 90) || (leb 97 c && leb c 122)

contains_rune : ℕ → Text → Bool
contains_rune c [] = false
contains_rune c (x ∷ s) = x == c || contains_rune c s

-- `[a-zA-Z][^>]*>` at the front
abbrev opens_name : Text → Bool
opens_name [] = false
opens_name (c ∷ s) = is_letter c && contains_rune b'>' s

-- `/?[a-zA-Z][^>]*>` at the front
abbrev opens_tag : Text → Bool
opens_tag [] = false
opens_tag (c ∷ s) = if c == b'/' then opens_name s else opens_name (c ∷ s)

-- A match of `</?[a-zA-Z][^>]*>` somewhere.
unfoldable pub has_tag : Text → Bool
unfolding contains_rune
has_tag [] = false
has_tag (c ∷ s) = (c == b'<' && opens_tag s) || has_tag s

unfoldable pub validate_no_html : String → Text → Validator → Bool × Validator
unfolding has_tag
validate_no_html field value v = check (not (has_tag value)) field has_html v

-- The spaces that `fmt.Sscanf` skips before `%d`; a newline is an error.
skip_spaces : Text → Option Text
unfolding is_space
skip_spaces [] = some []
skip_spaces (c ∷ s) = if c == 10 then none else if is_space c then skip_spaces s else some (c ∷ s)

abbrev scan_after : Option Text → Option ℤ
scan_after none = none
scan_after (some s) = scan_int s

-- `fmt.Sscanf(value, "%d", &num)`
unfoldable pub scan : Text → Option ℤ
unfolding skip_spaces scan_int
scan value = scan_after (skip_spaces value)

abbrev range_checks : String → ℤ → ℤ → Option ℤ → Validator → Option ℤ × Validator
range_checks field lo hi none v = (none, add_error field bad_number v)
range_checks field lo hi (some num) v =
    if ltb_ℤ num lo
    then (none, add_error field (below lo) v)
    else if ltb_ℤ hi num
    then (none, add_error field (above hi) v)
    else (some num, v)

-- The pair `(num, ok)` of the source is an option.
abbrev pub validate_integer : String → Text → ℤ → ℤ → Validator → Option ℤ × Validator
validate_integer field value lo hi v = range_checks field lo hi (scan value) v

all_in : Text → Text → Bool
unfolding contains_rune
all_in [] allowed = true
all_in (r ∷ value) allowed = contains_rune r allowed && all_in value allowed

unfoldable pub validate_alphanumeric : String → Text → Text → Validator → Bool × Validator
unfolding all_in
validate_alphanumeric field value extras v =
    check
      (all_in value
        (codes "abcdefghijklmnopqrstuvwxyzABCDEFGHIJKLMNOPQRSTUVWXYZ0123456789" ++ extras))
      field bad_characters v

abbrev pub max_title_length : ℕ
max_title_length = 200

abbrev pub max_subject_length : ℕ
max_subject_length = 255

abbrev pub max_body_length : ℕ
max_body_length = 10000

abbrev pub max_url_length : ℕ
max_url_length = 500

abbrev pub max_location_length : ℕ
max_location_length = 100

abbrev pub max_name_length : ℕ
max_name_length = 100

abbrev pub max_bio_length : ℕ
max_bio_length = 1000

abbrev pub max_pronouns_length : ℕ
max_pronouns_length = 50

abbrev pub min_edit_window : ℤ
min_edit_window = pos 0

abbrev pub max_edit_window : ℤ
max_edit_window = pos 86400

-- `if v.ValidateRequired(…) { v.ValidateMaxLength(…); v.ValidateMinLength(…) }`
abbrev required_text : String → Text → ℕ → ℕ → Validator → Validator
required_text field value most least v =
    let (present, v) = validate_required field value v in
    if present
    then (validate_min_length field value least (validate_max_length field value most v).1).1
    else v

unfoldable pub validate_thread_form : Text → Text → List ValidationError
validate_thread_form subject body =
    required_text "body" body max_body_length 1
      (required_text "subject" subject max_subject_length 3 new_validator)

unfoldable pub validate_thread_post_form : Text → List ValidationError
validate_thread_post_form body = required_text "body" body max_body_length 1 new_validator

abbrev photo_checks : (Text → Option Url) → Text → Validator → Validator
photo_checks parse_url photo v =
    if is_empty photo
    then v
    else (validate_max_length "photo_url" photo max_url_length
        (validate_url parse_url "photo_url" photo v).1).1

unfoldable pub validate_profile_form :
    (Text → Option Url) → Text → Text → Text → Text → Text → List ValidationError
validate_profile_form parse_url photo location preferred_name bio pronouns =
    let v = photo_checks parse_url photo new_validator in
    let v = (validate_max_length "location" location max_location_length v).1 in
    let v = (validate_max_length "preferred_name" preferred_name max_name_length v).1 in
    let v = (validate_max_length "bio" bio max_bio_length v).1 in
    (validate_max_length "pronouns" pronouns max_pronouns_length v).1

abbrev window_checks : Text → Validator → ℤ × Validator
window_checks window v =
    let (present, v) = validate_required "edit_window" window v in
    if present
    then (let (val, v) = validate_integer "edit_window" window min_edit_window max_edit_window v in
        elim val [ none ↦ (pos 0, v) | some n ↦ (n, v) ])
    else (pos 0, v)

unfoldable pub validate_admin_form : Text → Text → Text × ℤ × List ValidationError
unfolding scan
validate_admin_form title window =
    let v = required_text "board_title" title max_title_length 1 new_validator in
    let (edit_window, v) = window_checks window v in (title, edit_window, v)
