-- ===== src/Sanitize/Again.antt =====
-- `SanitizeInput` of what it has returned.
use mathlib.Core.List.{reverse, reverse_aux, reverse-reverse}
use tdiscuss.Base.{
  ℕ, ◌+◌, ◌≡◌, ◌≢◌, refl, Bool, true, false, [], ◌∷◌, arith, ◌==◌, if◌then◌else◌, All, ◌⊎◌,
  Bool-cases, ltb, inl, inr,
}
use tdiscuss.Text.{Text, trim_left, trim_space, replace_pair, is_space}
use tdiscuss.Sanitize.{is_blank, collapse_blanks, next_run, collapse_newlines, sanitize_input}
use tdiscuss.Sanitize.Laws.{
  unified, spaced, tidied, tidied_no_null, replace_rune_absent, IsSpaced, IsParagraphed,
  sanitize_input-clean, sanitize_input-tidy,
}

-- The first rune is no white space, and neither is the last.
abbrev Starts : Text → Type 0
Starts [] = ⊥
Starts (c ∷ s) = is_space c ≡ false

abbrev Stops : Text → Type 0
Stops [] = ⊥
Stops (c ∷ []) = is_space c ≡ false
Stops (c ∷ d ∷ s) = Stops (d ∷ s)

abbrev IsTrimmed : Text → Type 0
IsTrimmed s = (s ≡ []) ⊎ (Starts s × Stops s)

Stops-cons : (c : ℕ) (s : Text) → Stops s → Stops (c ∷ s)
Stops-cons c [] h = elim h [ ]
Stops-cons c (d ∷ s) h = h

Stops-reverse_aux : (s t : Text) → Stops t → Stops (reverse_aux s t)
Stops-reverse_aux [] t h = h
Stops-reverse_aux (c ∷ s) t h = Stops-reverse_aux s (c ∷ t) (Stops-cons c t h)

Stops-reverse : (s : Text) → Starts s → Stops (reverse s)
Stops-reverse [] h = elim h [ ]
Stops-reverse (c ∷ s) h = Stops-reverse_aux s (c ∷ []) h

Starts-reverse_aux : (s t : Text) → Stops s → Starts (reverse_aux s t)
Starts-reverse_aux [] t h = elim h [ ]
Starts-reverse_aux (c ∷ []) t h = h
Starts-reverse_aux (c ∷ d ∷ s) t h = Starts-reverse_aux (d ∷ s) (c ∷ t) h

trim_left-Starts : (s : Text) → (trim_left s ≡ []) ⊎ Starts (trim_left s)
unfolding trim_left
trim_left-Starts [] = inl refl
trim_left-Starts (c ∷ s) = elim (Bool-cases (is_space c)) [
  | inl blank ↦ rw blank (trim_left-Starts s)
  | inr kept ↦ rw kept (inr kept)
]

trim_left-Stops : (s : Text) → Stops s → Stops (trim_left s)
unfolding trim_left
trim_left-Stops [] h = elim h [ ]
trim_left-Stops (c ∷ []) h = rw h h
trim_left-Stops (c ∷ d ∷ s) h = elim (Bool-cases (is_space c)) [
  | inl blank ↦ rw blank (trim_left-Stops (d ∷ s) h)
  | inr kept ↦ rw kept h
]

trim_left-same : (s : Text) → Starts s → trim_left s ≡ s
unfolding trim_left
trim_left-same [] h = refl
trim_left-same (c ∷ s) h = rw h refl

trim_space-IsTrimmed : (s : Text) → IsTrimmed (trim_space s)
unfolding trim_space
trim_space-IsTrimmed s = elim (trim_left-Starts s) [
  | inl empty ↦ inl (rw empty refl)
  | inr starts ↦
      (let stops = trim_left-Stops (reverse (trim_left s)) (Stops-reverse (trim_left s) starts) in
        elim (trim_left-Starts (reverse (trim_left s))) [
          | inl empty ↦ inl (rw empty refl)
          | inr begun ↦ inr (
            Starts-reverse_aux (trim_left (reverse (trim_left s))) [] stops,
            Stops-reverse (trim_left (reverse (trim_left s))) begun,
          )
        ])
]

trim_space-same : (s : Text) → IsTrimmed s → trim_space s ≡ s
unfolding trim_space
trim_space-same s (inl empty) = rw empty refl
trim_space-same s (inr (starts, stops)) =
    rw (trim_left-same s starts)
      (rw (trim_left-same (reverse s) (Starts-reverse_aux s [] stops)) (reverse-reverse s))

-- A blank and a newline are white space.
blank_is_space : (c : ℕ) → is_space c ≡ false → is_blank c ≡ false
unfolding is_space
blank_is_space c h = ground (arith, h)

newline_is_space : (c : ℕ) → is_space c ≡ false → (c == 10) ≡ false
unfolding is_space
newline_is_space c h = ground (arith, h)

collapse_blanks-Starts : (s : Text) → Starts s → Starts (collapse_blanks false s)
unfolding collapse_blanks
collapse_blanks-Starts [] h = h
collapse_blanks-Starts (c ∷ s) h = rw (blank_is_space c h) h

blank_Stops :
    (blank inside : Bool) (c : ℕ) (s : Text)
    → Stops s
    → Stops (if blank then (if inside then s else 32 ∷ s) else c ∷ s)
blank_Stops true true c s h = h
blank_Stops true false c s h = Stops-cons 32 s h
blank_Stops false inside c s h = Stops-cons c s h

collapse_blanks-Stops : (b : Bool) (s : Text) → Stops s → Stops (collapse_blanks b s)
unfolding collapse_blanks
collapse_blanks-Stops b [] h = h
collapse_blanks-Stops b (c ∷ []) h = rw (blank_is_space c h) h
collapse_blanks-Stops b (c ∷ d ∷ s) h =
    blank_Stops (is_blank c) b c _ (collapse_blanks-Stops (is_blank c) (d ∷ s) h)

collapse_newlines-Starts : (s : Text) → Starts s → Starts (collapse_newlines 0 s)
unfolding collapse_newlines
collapse_newlines-Starts [] h = h
collapse_newlines-Starts (c ∷ s) h = rw (newline_is_space c h) h

newline_Stops :
    (newline few : Bool) (c : ℕ) (s : Text)
    → Stops s
    → Stops (if newline then (if few then c ∷ s else s) else c ∷ s)
newline_Stops true true c s h = Stops-cons c s h
newline_Stops true false c s h = h
newline_Stops false few c s h = Stops-cons c s h

collapse_newlines-Stops : (n : ℕ) (s : Text) → Stops s → Stops (collapse_newlines n s)
unfolding collapse_newlines
collapse_newlines-Stops n [] h = h
collapse_newlines-Stops n (c ∷ []) h = rw (newline_is_space c h) h
collapse_newlines-Stops n (c ∷ d ∷ s) h =
    newline_Stops (c == 10) (ltb n 2) c _ (collapse_newlines-Stops (next_run n c) (d ∷ s) h)

tidied-IsTrimmed : (input : Text) → IsTrimmed (tidied input)
unfolding collapse_blanks collapse_newlines
tidied-IsTrimmed input = elim (trim_space-IsTrimmed (unified input)) [
  | inl empty ↦ inl (rw empty refl)
  | inr (starts, stops) ↦ inr (
    collapse_newlines-Starts (spaced input)
        (collapse_blanks-Starts (trim_space (unified input)) starts),
    collapse_newlines-Stops 0 (spaced input)
        (collapse_blanks-Stops false (trim_space (unified input)) stops),
  )
]

-- Each pass leaves alone what has its result already.
replace_pair_absent : (a b : ℕ) (new s : Text) → All (λ c. c ≢ a) s → replace_pair a b new s ≡ s
unfolding replace_pair
replace_pair_absent a b new [] h = refl
replace_pair_absent a b new (c ∷ []) h = refl
replace_pair_absent a b new (c ∷ d ∷ s) h =
    ground (arith, h.0, replace_pair_absent a b new (d ∷ s) h.1)

collapse_blanks-same : (b : Bool) (s : Text) → IsSpaced b s → collapse_blanks b s ≡ s
unfolding collapse_blanks
collapse_blanks-same b [] h = refl
collapse_blanks-same b (c ∷ s) h = elim (Bool-cases (is_blank c)) [
  | inl blank ↦
      (let ih = collapse_blanks-same (is_blank c) s h.1 in ground (arith, blank, ih, h.0 blank))
  | inr kept ↦ (let ih = collapse_blanks-same (is_blank c) s h.1 in ground (arith, kept, ih))
]

collapse_newlines-same : (n : ℕ) (s : Text) → IsParagraphed n s → collapse_newlines n s ≡ s
unfolding collapse_newlines
collapse_newlines-same n [] h = refl
collapse_newlines-same n (c ∷ s) h = elim (Bool-cases (c == 10)) [
  | inl newline ↦ ground (arith, newline, h.0, collapse_newlines-same (n + 1) s)
  | inr kept ↦ ground (arith, kept, collapse_newlines-same 0 s)
]

-- A text with no carriage return and no null byte that is trimmed and tidy.
sanitize_input-same :
    (s : Text)
    → All (λ c. c ≢ 13) s
    → All (λ c. c ≢ 0) s
    → IsTrimmed s
    → IsSpaced false s
    → IsParagraphed 0 s
    → sanitize_input s ≡ s
unfolding sanitize_input
sanitize_input-same s returns nulls trimmed spaced_s paragraphed =
    rw (replace_pair_absent 13 10 (10 ∷ []) s returns) (
      rw (replace_rune_absent 13 (10 ∷ []) s returns) (
        rw (trim_space-same s trimmed) (
          rw (collapse_blanks-same false s spaced_s)
            (rw (collapse_newlines-same 0 s paragraphed) (replace_rune_absent 0 [] s nulls)))))

sanitize_input-IsTrimmed :
    (input : Text) → All (λ c. c ≢ 0) input → IsTrimmed (sanitize_input input)
unfolding sanitize_input
sanitize_input-IsTrimmed input h =
    rw (replace_rune_absent 0 [] (tidied input) (tidied_no_null input h)) (tidied-IsTrimmed input)

-- For a text with no null byte, a second pass changes nothing.
pub sanitize_input-again :
    (input : Text)
    → All (λ c. c ≢ 0) input
    → sanitize_input (sanitize_input input) ≡ sanitize_input input
sanitize_input-again input h =
    let (nulls, returns) = sanitize_input-clean input in
    let (tidy, paragraphs) = sanitize_input-tidy input h in
    sanitize_input-same (sanitize_input input) returns nulls (sanitize_input-IsTrimmed input h) tidy
      paragraphs
