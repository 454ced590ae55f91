-- ===== src/Validation/Forms.antt =====
-- What the forms accept, on every input.
use tdiscuss.Base.{ℕ, ◌≤◌, ◌≡◌, ◌≢◌, ◌⊎◌, ◌↔◌, true, [], arith, Option, none, some, length, ℤ, pos}
use tdiscuss.Text.{Text, trim_space}
use tdiscuss.Validation.{
  Url, is_web, scan, validate_thread_form, validate_thread_post_form, validate_profile_form,
  validate_admin_form,
}

-- A required text with a range of lengths, in runes.
abbrev pub IsFilled : Text → ℕ → ℕ → Type 0
IsFilled value least most = (trim_space value ≢ []) × (least ≤ length value) × (length value ≤ most)

-- A new thread is accepted exactly when subject and body are more than white space, the subject
-- has 3 to 255 runes and the body 1 to 10000.
pub thread_form_iff :
    (subject body : Text)
    → (validate_thread_form subject body ≡ []) ↔ (IsFilled subject 3 255 × IsFilled body 1 10000)
unfolding validate_thread_form
thread_form_iff subject body = ground arith

-- A reply is accepted exactly when it is more than white space and has 1 to 10000 runes.
pub thread_post_form_iff :
    (body : Text) → (validate_thread_post_form body ≡ []) ↔ IsFilled body 1 10000
unfolding validate_thread_post_form
thread_post_form_iff body = ground arith

-- What `url.Parse` finds is a complete address of the web.
abbrev IsWebAddress : Option Url → Type 0
IsWebAddress none = ⊥
IsWebAddress (some u) = (u.scheme ≢ []) × (u.host ≢ []) × (is_web u ≡ true)

-- The photo of a profile: none, or a complete address of the web.
abbrev pub IsPhoto : (Text → Option Url) → Text → Type 0
IsPhoto parse_url photo = (photo ≡ []) ⊎ (IsWebAddress (parse_url photo) × (length photo ≤ 500))

-- A profile is accepted exactly when the photo is empty or an http(s) address with a host of at
-- most 500 runes, and the four texts are within their lengths.
pub profile_form_iff :
    (parse_url : Text → Option Url) (photo location preferred_name bio pronouns : Text)
    → (validate_profile_form parse_url photo location preferred_name bio pronouns ≡ []) ↔ (
        IsPhoto parse_url photo
        × (length location ≤ 100)
        × (length preferred_name ≤ 100)
        × (length bio ≤ 1000)
        × (length pronouns ≤ 50))
unfolding validate_profile_form
profile_form_iff parse_url photo location preferred_name bio pronouns = ground arith

-- The window that the admin form scans lies between none and a day.
abbrev pub IsWindow : Option ℤ → ℤ → Type 0
IsWindow none w = ⊥
IsWindow (some (pos n)) w = (w ≡ pos n) × (n ≤ 86400)
IsWindow (some _) w = ⊥

-- The admin form is accepted exactly when the title has 1 to 200 runes, not all white space, and
-- the window text is more than white space and scans to a number of seconds from 0 to 86400, which
-- is the number returned.
pub admin_form_iff :
    (title window : Text)
    → ((validate_admin_form title window).2 ≡ []) ↔ (
        IsFilled title 1 200
        × (trim_space window ≢ [])
        × IsWindow (scan window) (validate_admin_form title window).1)
unfolding validate_admin_form
admin_form_iff title window = ground arith
