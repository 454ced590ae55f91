-- ===== src/Middleware/Limits/Laws.antt =====
-- The visitors of a limiter: one for each key, kept apart, and dropped when they are idle.
use tdiscuss.Base.{
  ℕ, ◌-◌, ◌≡◌, ◌≢◌, refl, [], ◌∷◌, ltb, if◌then◌else◌, Option, none, some, All, Bool-cases, inl,
  inr, arith,
}
use mathlib.Core.Path.{subst}
use tdiscuss.Base.{◌∙◌}
use tdiscuss.Text.{Text, text_eq, text_eq_iff, text_eq_refl}
use tdiscuss.Middleware.Outside.{RateLibrary}
use tdiscuss.Middleware.{Exchange, Visitor, Visitors}
use tdiscuss.Middleware.Limits.{
  RateLimitConfig, find_visitor, put_visitor, get_visitor, allow_visitor, visit, cleanup_visitors,
  get_visitor_key, get_limits_for_path, seen_or_new,
}

module _ {L : Type 0} (lib : RateLibrary L) where
  pub find-put_self :
      (key : Text) (v : Visitor L) (vs : Visitors L)
      → find_visitor lib key (put_visitor lib key v vs) ≡ some v
  unfolding find_visitor put_visitor
  find-put_self key v [] = rw (text_eq_refl key)
  find-put_self key v ((k, old) ∷ vs) = elim (Bool-cases (text_eq k key)) [
    | inl hit ↦ rw hit (rw hit)
    | inr miss ↦ rw miss (rw miss (find-put_self key v vs))
  ]

  pub find-put_ne :
      (key other : Text) (v : Visitor L) (vs : Visitors L)
      → key ≢ other
      → find_visitor lib other (put_visitor lib key v vs) ≡ find_visitor lib other vs
  unfolding find_visitor put_visitor
  find-put_ne key other v [] h = ground (arith, text_eq_iff key other)
  find-put_ne key other v ((k, old) ∷ vs) h = ground (
    arith,
    text_eq_iff key other,
    text_eq_iff k key,
    text_eq_iff k other,
    find-put_ne key other v vs h,
  )

  -- The visitors have different keys.
  abbrev Absent : Text → Visitors L → Type 0
  Absent k = All (λ e. e.0 ≢ k)

  abbrev pub Distinct : Visitors L → Type 0
  Distinct [] = Unit
  Distinct ((k, v) ∷ vs) = Absent k vs × Distinct vs

  put-Absent :
      (k key : Text) (v : Visitor L) (vs : Visitors L)
      → key ≢ k
      → Absent k vs
      → Absent k (put_visitor lib key v vs)
  unfolding put_visitor
  put-Absent k key v [] h a = (h, tt)
  put-Absent k key v ((j, old) ∷ vs) h a = elim (Bool-cases (text_eq j key)) [
    | inl hit ↦ rw hit a
    | inr miss ↦ rw miss (a.0, put-Absent k key v vs h a.1)
  ]

  pub put-Distinct :
      (key : Text) (v : Visitor L) (vs : Visitors L)
      → Distinct vs
      → Distinct (put_visitor lib key v vs)
  unfolding put_visitor
  put-Distinct key v [] d = (tt, tt)
  put-Distinct key v ((k, old) ∷ vs) d = elim (Bool-cases (text_eq k key)) [
    | inl hit ↦ rw hit d
    | inr miss ↦ rw miss (
      put-Absent k key v vs (λ e. ground (arith, text_eq_iff k key)) d.0,
      put-Distinct key v vs d.1,
    )
  ]

  cleanup-Absent :
      (interval now : ℕ) (k : Text) (vs : Visitors L)
      → Absent k vs
      → Absent k (cleanup_visitors lib interval now vs)
  unfolding cleanup_visitors
  cleanup-Absent interval now k [] a = tt
  cleanup-Absent interval now k ((j, v) ∷ vs) a =
      elim (Bool-cases (ltb interval (now - v.last_seen))) [
        | inl idle ↦ rw idle (cleanup-Absent interval now k vs a.1)
        | inr live ↦ rw live (a.0, cleanup-Absent interval now k vs a.1)
      ]

  -- A round of the cleanup leaves one visitor for each key.
  pub cleanup-Distinct :
      (interval now : ℕ) (vs : Visitors L)
      → Distinct vs
      → Distinct (cleanup_visitors lib interval now vs)
  unfolding cleanup_visitors
  cleanup-Distinct interval now [] d = tt
  cleanup-Distinct interval now ((k, v) ∷ vs) d =
      elim (Bool-cases (ltb interval (now - v.last_seen))) [
        | inl idle ↦ rw idle (cleanup-Distinct interval now vs d.1)
        | inr live ↦
            rw live (cleanup-Absent interval now k vs d.0, cleanup-Distinct interval now vs d.1)
      ]

  -- What a visit and a round of the cleanup do to the visitors.
  pub data Round : Visitors L → Visitors L → Type 0 where
    visited :
        (config : RateLimitConfig) (ex : Exchange) (now : ℕ) (vs : Visitors L)
        → Round vs (visit lib config ex now vs).2
    cleaned : (interval now : ℕ) (vs : Visitors L) → Round vs (cleanup_visitors lib interval now vs)

  pub data Reach (vs : Visitors L) : Visitors L → Type 0 where
    here : Reach vs vs
    onward : {us ws : Visitors L} → Reach vs us → Round us ws → Reach vs ws

  Round-Distinct : {us ws : Visitors L} → Round us ws → Distinct us → Distinct ws
  unfolding visit get_visitor allow_visitor
  Round-Distinct (visited config ex now vs) d = put-Distinct _ _ _ (put-Distinct _ _ vs d)
  Round-Distinct (cleaned interval now vs) d = cleanup-Distinct interval now vs d

  -- The list that stands for the map never has two visitors for a key, as a map has not.
  pub Reach-Distinct : {vs : Visitors L} → Reach [] vs → Distinct vs
  Reach-Distinct here = tt
  Reach-Distinct (onward r s) = Round-Distinct s (Reach-Distinct r)

  abbrev pub unless_idle : ℕ → ℕ → Option (Visitor L) → Option (Visitor L)
  unless_idle interval now none = none
  unless_idle interval now (some v) = if ltb interval (now - v.last_seen) then none else some v

  find-Absent : (k : Text) (vs : Visitors L) → Absent k vs → find_visitor lib k vs ≡ none
  unfolding find_visitor
  find-Absent k [] a = refl
  find-Absent k ((j, v) ∷ vs) a = ground (arith, text_eq_iff j k, find-Absent k vs a.1)

  -- Where the keys are different, a round of the cleanup drops exactly the visitors that have not
  -- been seen for longer than the interval.
  pub find-cleanup :
      (interval now : ℕ) (key : Text) (vs : Visitors L)
      → Distinct vs
      → find_visitor lib key (cleanup_visitors lib interval now vs)
        ≡ unless_idle interval now (find_visitor lib key vs)
  unfolding find_visitor cleanup_visitors
  find-cleanup interval now key [] d = refl
  find-cleanup interval now key ((k, v) ∷ vs) d =
      elim (Bool-cases (ltb interval (now - v.last_seen))) [
        | inl idle ↦ rw idle (elim (Bool-cases (text_eq k key)) [
          | inl hit ↦
              rw
                (find-Absent key (cleanup_visitors lib interval now vs) (
                  cleanup-Absent interval now key vs
                    (subst (λ j. Absent j vs) ((text_eq_iff k key).0 hit) d.0)))
                (rw hit (rw idle))
          | inr miss ↦ rw miss (find-cleanup interval now key vs d.1)
        ])
        | inr live ↦ rw live (ground (arith, find-cleanup interval now key vs d.1))
      ]

  seen_now :
      (config : RateLimitConfig) (key : Text) (limit burst now : ℕ) (o : Option (Visitor L))
      → (seen_or_new lib config key limit burst now o).last_seen ≡ now
  seen_now config key limit burst now none = ground arith
  seen_now config key limit burst now (some v) = refl

  -- A visit leaves the visitors of other keys alone, and its own is seen at its instant.
  pub visit-find :
      (config : RateLimitConfig) (ex : Exchange) (now : ℕ) (vs : Visitors L) (other : Text)
      → get_visitor_key config ex ≢ other
      → (find_visitor lib other (visit lib config ex now vs).2 ≡ find_visitor lib other vs)
        × (find_visitor lib (get_visitor_key config ex) (visit lib config ex now vs).2
            ≡ some (visit lib config ex now vs).1)
        × ((visit lib config ex now vs).1.last_seen ≡ now)
  unfolding visit get_visitor allow_visitor
  visit-find config ex now vs other h =
      let key = get_visitor_key config ex in
      let limits = get_limits_for_path config ex.request.path in
      let v = seen_or_new lib config key limits.0 limits.1 now (find_visitor lib key vs) in
      (
        find-put_ne key other _ (put_visitor lib key v vs) h ∙ find-put_ne key other v vs h,
        find-put_self key _ (put_visitor lib key v vs),
        seen_now config key limits.0 limits.1 now (find_visitor lib key vs),
      )

  -- A visitor who is known keeps the limits of the first visit: two requests of one key are treated
  -- alike, whatever their paths and the limits of these.
  pub visit-known :
      (config config' : RateLimitConfig) (ex ex' : Exchange) (now : ℕ) (vs : Visitors L)
      (v : Visitor L)
      → get_visitor_key config ex ≡ get_visitor_key config' ex'
      → find_visitor lib (get_visitor_key config ex) vs ≡ some v
      → visit lib config ex now vs ≡ visit lib config' ex' now vs
  unfolding visit get_visitor allow_visitor
  visit-known config config' ex ex' now vs v same known = rw (← same) (rw known refl)
