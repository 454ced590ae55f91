-- ===== src/Sanitize/Runs.antt =====
-- `SanitizeInput` by the runs of its text: what becomes of each run of blanks and of newlines.
use mathlib.Core.List.{append_assoc}
use tdiscuss.Base.{
  ℕ, zero, suc, ◌<◌, ◌≡◌, ◌≢◌, refl, true, false, [], ◌∷◌, ◌++◌, arith, ◌==◌, All, Bool-cases, inl,
  inr, All-append, ap,
}
use mathlib.Core.Path.{subst, sym}
use tdiscuss.Text.{Text, trim_space, replace_rune, replace_pair}
use tdiscuss.Sanitize.{is_blank, collapse_blanks, collapse_newlines, sanitize_input}
use tdiscuss.Sanitize.Laws.{
  tidied, spaced, unified, tidied_no_null, replace_rune_absent, IsSpaced, IsParagraphed,
  sanitize_input-tidy,
}

abbrev pub StartsBlank : Text → Type 0
StartsBlank [] = ⊥
StartsBlank (c ∷ s) = is_blank c ≡ true

abbrev pub StartsNewline : Text → Type 0
StartsNewline [] = ⊥
StartsNewline (c ∷ s) = c ≡ 10

-- The second text is the first with one space for each whole run of blanks, and all else kept.
pub data Spaces : Text → Text → Type 0 where
  end : Spaces [] []
  kept : (c : ℕ) {s t : Text} → is_blank c ≡ false → Spaces s t → Spaces (c ∷ s) (c ∷ t)
  blanks :
      (run : Text) {s t : Text}
      → run ≢ []
      → All (λ c. is_blank c ≡ true) run
      → (StartsBlank s → ⊥)
      → Spaces s t
      → Spaces (run ++ s) (32 ∷ t)

unfoldable pub newlines : ℕ → Text
newlines zero = []
newlines (suc n) = 10 ∷ newlines n

abbrev pub at_most_two : ℕ → ℕ
at_most_two zero = 0
at_most_two (suc zero) = 1
at_most_two (suc (suc n)) = 2

-- The second text is the first with two newlines for each whole run of more, and all else kept.
pub data Paragraphs : Text → Text → Type 0 where
  end : Paragraphs [] []
  kept : (c : ℕ) {s t : Text} → c ≢ 10 → Paragraphs s t → Paragraphs (c ∷ s) (c ∷ t)
  gap :
      (n : ℕ) {s t : Text}
      → 0 < n
      → (StartsNewline s → ⊥)
      → Paragraphs s t
      → Paragraphs (newlines n ++ s) (newlines (at_most_two n) ++ t)

-- A text with its blanks collapsed, and one behind a run of blanks.
collapse_blanks-Spaces :
    (s : Text)
    → Spaces s (collapse_blanks false s)
      × ((run : Text)
          → run ≢ []
          → All (λ c. is_blank c ≡ true) run
          → Spaces (run ++ s) (32 ∷ collapse_blanks true s))
unfolding collapse_blanks
collapse_blanks-Spaces [] =
    (Spaces.end, λ run some_run all. Spaces.blanks run some_run all (λ h. h) Spaces.end)
collapse_blanks-Spaces (c ∷ s) = elim (Bool-cases (is_blank c)) [
  | inr other ↦ rw other (
    Spaces.kept c other (collapse_blanks-Spaces s).0,
    λ run some_run all.
        Spaces.blanks run some_run all (λ h. cc) (Spaces.kept c other (collapse_blanks-Spaces s).0),
  )
  | inl blank ↦ rw blank (
    (collapse_blanks-Spaces s).1 (c ∷ []) (λ e. cc) (blank, tt),
    λ run some_run all.
        subst (λ u. Spaces u (32 ∷ collapse_blanks true s)) (append_assoc run (c ∷ []) s)
          ((collapse_blanks-Spaces s).1 (run ++ c ∷ []) (longer run)
            (All-append (λ c. is_blank c ≡ true) run (c ∷ []) all (blank, tt))),
  )
]
  where
    longer : (run : Text) → (run ++ c ∷ []) ≢ []
    longer [] e = cc
    longer (d ∷ run) e = cc

newlines_more : (n : ℕ) (s : Text) → newlines n ++ 10 ∷ s ≡ newlines (suc n) ++ s
unfolding newlines
newlines_more zero s = refl
newlines_more (suc n) s = ap (λ u. 10 ∷ u) (newlines_more n s)

abbrev Gap : ℕ → Text → Type 0
Gap n s =
    Paragraphs (newlines n ++ s) (newlines (at_most_two n) ++ collapse_newlines (at_most_two n) s)

-- One more newline of a run: it is written while there are fewer than two.
Gap-step : (n : ℕ) (s : Text) → 0 < n → Gap (suc n) s → Gap n (10 ∷ s)
unfolding newlines collapse_newlines
Gap-step zero s pos_n g = (let no : ⊥ = omega (arith, pos_n) in elim no [ ])
Gap-step (suc zero) s pos_n g = g
Gap-step (suc (suc n)) s pos_n g =
    subst (λ u. Paragraphs u (10 ∷ 10 ∷ collapse_newlines 2 s))
      (sym (newlines_more (suc (suc n)) s)) g

collapse_newlines-Paragraphs :
    (s : Text) → Paragraphs s (collapse_newlines 0 s) × ((n : ℕ) → 0 < n → Gap n s)
unfolding collapse_newlines newlines
collapse_newlines-Paragraphs [] =
    (Paragraphs.end, λ n pos_n. Paragraphs.gap n pos_n (λ h. h) Paragraphs.end)
collapse_newlines-Paragraphs (c ∷ s) = elim (Bool-cases (c == 10)) [
  | inr other ↦
      (let ne : c ≢ 10 = ground (arith, other) in
        let rest = Paragraphs.kept c ne (collapse_newlines-Paragraphs s).0 in
        rw other (rest, λ n pos_n. Paragraphs.gap n pos_n ne rest))
  | inl newline ↦
      (let same : 10 ≡ c = ground (arith, newline) in
        subst
          (λ d.
            Paragraphs (d ∷ s) (collapse_newlines 0 (d ∷ s)) × ((n : ℕ) → 0 < n → Gap n (d ∷ s)))
          same
          (
            (collapse_newlines-Paragraphs s).1 1 (omega arith),
            λ n pos_n.
                Gap-step n s pos_n ((collapse_newlines-Paragraphs s).1 (suc n) (omega arith)),
          ))
]

-- A text with no null byte comes out as its text with line feeds for carriage returns, alone or
-- before a line feed, and without the white space at its ends, in which every run of blanks has
-- become one space and after that every run of more than two newlines two, and all else is kept.
-- So it has no two blanks in a row, no blank but the space, and no three newlines in a row.
pub sanitize_input-runs :
    (input : Text)
    → All (λ c. c ≢ 0) input
    → let lines = replace_rune 13 (10 ∷ []) (replace_pair 13 10 (10 ∷ []) input) in
      ((middle : Text) × Spaces (trim_space lines) middle
        × Paragraphs middle (sanitize_input input))
      × IsSpaced false (sanitize_input input)
      × IsParagraphed 0 (sanitize_input input)
unfolding sanitize_input
sanitize_input-runs input h =
    let (spaced_out, paragraphed) = sanitize_input-tidy input h in
    (
      (
        spaced input,
        (collapse_blanks-Spaces (trim_space (unified input))).0,
        rw (replace_rune_absent 0 [] (tidied input) (tidied_no_null input h))
            (collapse_newlines-Paragraphs (spaced input)).0,
      ),
      spaced_out,
      paragraphed,
    )
