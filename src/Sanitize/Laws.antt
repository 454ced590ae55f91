-- ===== src/Sanitize/Laws.antt =====
-- What `SanitizeInput` leaves in a text.
use mathlib.Core.List.{reverse, reverse_aux}
use tdiscuss.Base.{
  ℕ, ◌+◌, ◌<◌, ◌≡◌, ◌≢◌, refl, Bool, true, false, [], ◌∷◌, arith, ◌==◌, ◌&&◌, if◌then◌else◌, All,
  All-append, Bool-cases, inl, inr,
}
use tdiscuss.Text.{Text, trim_left, trim_space, replace_rune, replace_pair, is_space}
use tdiscuss.Sanitize.{is_blank, collapse_blanks, next_run, collapse_newlines, sanitize_input}

-- Predicates on runes that each pass keeps.
module _ (P : ℕ → Type 0) where
  All-reverse_aux : (s t : Text) → All P s → All P t → All P (reverse_aux s t)
  All-reverse_aux [] t h k = k
  All-reverse_aux (c ∷ s) t h k = All-reverse_aux s (c ∷ t) h.1 (h.0, k)

  All-trim_left : (s : Text) → All P s → All P (trim_left s)
  unfolding trim_left
  All-trim_left [] h = h
  All-trim_left (c ∷ s) h = elim (Bool-cases (is_space c)) [
    | inl blank ↦ rw blank (All-trim_left s h.1)
    | inr kept ↦ rw kept h
  ]

  All-trim_space : (s : Text) → All P s → All P (trim_space s)
  unfolding trim_space
  All-trim_space s h =
      All-reverse_aux (trim_left (reverse (trim_left s))) []
        (All-trim_left (reverse (trim_left s))
          (All-reverse_aux (trim_left s) [] (All-trim_left s h) tt))
        tt

  All-collapse_blanks : P 32 → (b : Bool) (s : Text) → All P s → All P (collapse_blanks b s)
  unfolding collapse_blanks
  All-collapse_blanks p b [] h = tt
  All-collapse_blanks p b (c ∷ s) h = ground (arith, All-collapse_blanks p (is_blank c) s h.1)

  All-collapse_newlines : (n : ℕ) (s : Text) → All P s → All P (collapse_newlines n s)
  unfolding collapse_newlines
  All-collapse_newlines n [] h = tt
  All-collapse_newlines n (c ∷ s) h = ground (arith, All-collapse_newlines (next_run n c) s h.1)

  All-replace_rune :
      (old : ℕ) (new : Text) (s : Text) → All P new → All P s → All P (replace_rune old new s)
  unfolding replace_rune
  All-replace_rune old new [] k h = tt
  All-replace_rune old new (c ∷ s) k h =
      let rest = All-replace_rune old new s k h.1 in
      elim (Bool-cases (c == old)) [
        | inl hit ↦ rw hit (All-append P new (replace_rune old new s) k rest)
        | inr kept ↦ rw kept (h.0, rest)
      ]

-- The rune that is replaced is gone.
All-replaced :
    (old : ℕ) (new : Text) (s : Text)
    → All (λ c. c ≢ old) new
    → All (λ c. c ≢ old) (replace_rune old new s)
unfolding replace_rune
All-replaced old new [] k = tt
All-replaced old new (c ∷ s) k =
    let rest = All-replaced old new s k in
    elim (Bool-cases (c == old)) [
      | inl hit ↦ rw hit (All-append (λ c. c ≢ old) new (replace_rune old new s) k rest)
      | inr kept ↦ rw kept (ground arith, rest)
    ]

-- The text before each of the last passes.
abbrev pub unified : Text → Text
unified input = replace_rune 13 (10 ∷ []) (replace_pair 13 10 (10 ∷ []) input)

abbrev pub spaced : Text → Text
spaced input = collapse_blanks false (trim_space (unified input))

abbrev pub tidied : Text → Text
tidied input = collapse_newlines 0 (spaced input)

module _ (P : ℕ → Type 0) (space : P 32) where
  All-tidied : (input : Text) → All P (unified input) → All P (tidied input)
  All-tidied input h = All-collapse_newlines P 0 (spaced input) (
      All-collapse_blanks P space false (trim_space (unified input))
        (All-trim_space P (unified input) h))

-- Whatever the input, the result holds no null byte and no carriage return.
pub sanitize_input-clean :
    (input : Text)
    → All (λ c. c ≢ 0) (sanitize_input input) × All (λ c. c ≢ 13) (sanitize_input input)
unfolding sanitize_input
sanitize_input-clean input = (
  All-replaced 0 [] (tidied input) tt,
  All-replace_rune (λ c. c ≢ 13) 0 [] (tidied input) tt
      (All-tidied (λ c. c ≢ 13) (omega arith) input
        (All-replaced 13 (10 ∷ []) (replace_pair 13 10 (10 ∷ []) input) (omega arith, tt))),
)

-- No two blanks in a row, and no blank but the space; `after` says that a blank stands in front.
abbrev pub IsSpaced : Bool → Text → Type 0
IsSpaced after [] = Unit
IsSpaced after (c ∷ s) =
    ((is_blank c ≡ true) → (c ≡ 32) × (after ≡ false)) × IsSpaced (is_blank c) s

-- No three newlines in a row; `run` newlines stand in front.
abbrev pub IsParagraphed : ℕ → Text → Type 0
IsParagraphed run [] = Unit
IsParagraphed run (c ∷ s) = ((c ≡ 10) → run < 2) × IsParagraphed (if c == 10 then run + 1 else 0) s

collapse_blanks-IsSpaced : (b : Bool) (s : Text) → IsSpaced b (collapse_blanks b s)
unfolding collapse_blanks
collapse_blanks-IsSpaced b [] = tt
collapse_blanks-IsSpaced true (c ∷ s) = ground (arith, collapse_blanks-IsSpaced (is_blank c) s)
collapse_blanks-IsSpaced false (c ∷ s) = ground (arith, collapse_blanks-IsSpaced (is_blank c) s)

collapse_newlines-IsParagraphed : (n : ℕ) (s : Text) → IsParagraphed n (collapse_newlines n s)
unfolding collapse_newlines
collapse_newlines-IsParagraphed n [] = tt
collapse_newlines-IsParagraphed n (c ∷ s) =
    ground (arith, collapse_newlines-IsParagraphed (next_run n c) s)

-- Only newlines go, and only after a newline, so no two blanks meet.
collapse_newlines-IsSpaced :
    (n : ℕ) (b : Bool) (s : Text)
    → (b ≡ true → n ≡ 0)
    → IsSpaced b s
    → IsSpaced b (collapse_newlines n s)
unfolding collapse_newlines
collapse_newlines-IsSpaced n b [] k h = tt
collapse_newlines-IsSpaced n true (c ∷ s) k h =
    ground (arith, collapse_newlines-IsSpaced (next_run n c) (is_blank c) s)
collapse_newlines-IsSpaced n false (c ∷ s) k h =
    ground (arith, collapse_newlines-IsSpaced (next_run n c) (is_blank c) s)

pub replace_rune_absent :
    (old : ℕ) (new s : Text) → All (λ c. c ≢ old) s → replace_rune old new s ≡ s
unfolding replace_rune
replace_rune_absent old new [] h = refl
replace_rune_absent old new (c ∷ s) h = ground (arith, replace_rune_absent old new s h.1)

All-replace_pair :
    (P : ℕ → Type 0) (a b : ℕ) (new s : Text) → All P new → All P s → All P (replace_pair a b new s)
unfolding replace_pair
All-replace_pair P a b new [] k h = tt
All-replace_pair P a b new (c ∷ []) k h = h
All-replace_pair P a b new (c ∷ d ∷ s) k h =
    let later = All-replace_pair P a b new s k h.1.1 in
    let kept = All-replace_pair P a b new (d ∷ s) k h.1 in
    elim (Bool-cases (c == a && d == b)) [
      | inl hit ↦ rw hit (All-append P new (replace_pair a b new s) k later)
      | inr miss ↦ rw miss (h.0, kept)
    ]

pub tidied_no_null : (input : Text) → All (λ c. c ≢ 0) input → All (λ c. c ≢ 0) (tidied input)
tidied_no_null input h =
    let P : ℕ → Type 0 = λ c. c ≢ 0 in
    All-tidied P (omega arith) input (
      All-replace_rune P 13 (10 ∷ []) (replace_pair 13 10 (10 ∷ []) input) (omega arith, tt)
        (All-replace_pair P 13 10 (10 ∷ []) input (omega arith, tt) h))

-- A text with no null byte comes out with single spaces for its runs of blanks, and with at most
-- two newlines in a row.
pub sanitize_input-tidy :
    (input : Text)
    → All (λ c. c ≢ 0) input
    → IsSpaced false (sanitize_input input) × IsParagraphed 0 (sanitize_input input)
unfolding sanitize_input
sanitize_input-tidy input h =
    rw (replace_rune_absent 0 [] (tidied input) (tidied_no_null input h)) (
      collapse_newlines-IsSpaced 0 false (spaced input) (λ e. refl)
          (collapse_blanks-IsSpaced false (trim_space (unified input))),
      collapse_newlines-IsParagraphed 0 (spaced input),
    )

-- Between two runes that are neither white space nor null, a null byte after the second of three
-- newlines goes, and the three newlines stay.
pub sanitize_input-null :
    (x y : ℕ)
    → is_space x ≡ false
    → is_space y ≡ false
    → x ≢ 0
    → y ≢ 0
    → sanitize_input (x ∷ 10 ∷ 10 ∷ 0 ∷ 10 ∷ y ∷ []) ≡ x ∷ 10 ∷ 10 ∷ 10 ∷ y ∷ []
unfolding sanitize_input
sanitize_input-null x y hx hy px py = ground arith
