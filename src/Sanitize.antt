-- ===== src/Sanitize.antt =====
-- validation.go: `SanitizeInput`, pass by pass.
pub mod Laws
pub mod Again
pub mod Runs
mod Tests
use tdiscuss.Base.{
  ℕ, ◌+◌, ◌≡◌, refl, Bool, true, false, ◌||◌, List, [], ◌∷◌, ltb, ◌==◌, if◌then◌else◌,
}
use tdiscuss.Text.{Text, codes, trim_space, replace_rune, replace_pair}

-- The class `[^\S\n]` of Go's regular expressions: tab, form feed, carriage return and space.
abbrev pub is_blank : ℕ → Bool
is_blank c = c == 9 || c == 12 || c == 13 || c == 32

-- `[^\S\n]+` by a space; `inside` says that the run's space is already written.
unfoldable pub collapse_blanks : Bool → Text → Text
collapse_blanks inside [] = []
collapse_blanks inside (c ∷ s) =
    let rest = collapse_blanks (is_blank c) s in
    if is_blank c then (if inside then rest else 32 ∷ rest) else c ∷ rest

abbrev pub next_run : ℕ → ℕ → ℕ
next_run run c = if c == 10 then (if ltb run 2 then run + 1 else run) else 0

-- `\n{3,}` by two newlines; `run` counts the newlines of the run that are written.
unfoldable pub collapse_newlines : ℕ → Text → Text
collapse_newlines run [] = []
collapse_newlines run (c ∷ s) =
    let rest = collapse_newlines (next_run run c) s in
    if c == 10 then (if ltb run 2 then c ∷ rest else rest) else c ∷ rest

unfoldable pub sanitize_input : Text → Text
unfolding trim_space replace_rune replace_pair collapse_blanks collapse_newlines
sanitize_input input =
    let input = replace_pair 13 10 (10 ∷ []) input in
    let input = replace_rune 13 (10 ∷ []) input in
    let input = trim_space input in
    let input = collapse_blanks false input in
    let input = collapse_newlines 0 input in replace_rune 0 [] input
