-- ===== src/RateLimiter/Alone.antt =====
-- The limiter of the root package: its visitors do not disturb one another.
use tdiscuss.Base.{
  ℕ, ◌≡◌, refl, sym, ◌∙◌, Bool, true, false, List, [], ◌∷◌, if◌then◌else◌, Bool-cases, inl, inr,
  arith,
}
use mathlib.Core.Path.{subst}
use tdiscuss.Text.{Text, text_eq, text_eq_iff}
use tdiscuss.Web.{Request, Response}
use tdiscuss.Middleware.Outside.{RateLibrary}
use tdiscuss.Middleware.Limits.Laws.{Distinct, cleanup-Distinct}
use tdiscuss.RateLimiter.{
  RateLimiter, Handler, Place, Site, new_rate_limiter, user_id, an_hour, cleanup, admit,
  rate_limit_middleware, too_many,
}
use tdiscuss.RateLimiter.Laws.{
  SameFor, admit-SameFor, admit-SameFor_ne, admit-Distinct, cleanup-SameFor,
}

-- A request at an instant, or a round of the cleanup.
pub data Happening : Type 0 where
  request : ℕ → Request → Happening
  sweep : ℕ → Happening

-- The happenings but the requests of others.
unfoldable pub only : Text → List Happening → List Happening
unfolding user_id
only key [] = []
only key (sweep now ∷ hs) = sweep now ∷ only key hs
only key (request now r ∷ hs) =
    let rest = only key hs in if text_eq (user_id r) key then request now r ∷ rest else rest

-- What the requests of one visitor were answered.
unfoldable pub answers_to : Text → List (Text × Response) → List (Text × Response)
answers_to key [] = []
answers_to key ((k, a) ∷ as') =
    let rest = answers_to key as' in if text_eq k key then (k, a) ∷ rest else rest

module _ {L : Type 0} (lib : RateLibrary L) where
  -- The middleware in front of a handler that only answers, on a limiter and a clock.
  abbrev Stand : Type 0
  Stand = RateLimiter L × ℕ

  abbrev pub place : Place L Stand
  place = record { read = λ w. w.0; write = λ rl w. (rl, w.1) }

  abbrev pub site : Site L Stand
  site = record { clock = λ w. w.1; warn = λ m k p w. w; met = λ w ls. ls }

  abbrev pub answering : (Request → Response) → Handler Stand
  answering answer r hs w = ((answer r, hs), w)

  module _ (answer : Request → Response) where
    -- The answer to a request, and the limiter after it.
    unfoldable pub serve_limited : ℕ → Request → RateLimiter L → Response × RateLimiter L
    unfolding rate_limit_middleware
    serve_limited now r rl =
        let ((a, hs), (rl', t)) =
          rate_limit_middleware lib site place (answering answer) r [] (rl, now) in
        (a, rl')

    -- All requests of a sequence with their visitors and answers.
    unfoldable pub answers : List Happening → RateLimiter L → List (Text × Response)
    unfolding serve_limited cleanup
    answers [] rl = []
    answers (request now r ∷ hs) rl =
        let (a, rl') = serve_limited now r rl in (user_id r, a) ∷ answers hs rl'
    answers (sweep now ∷ hs) rl = answers hs (cleanup lib now rl)

    abbrev verdict : Request → Bool → Response
    verdict r allowed = if allowed then answer r else too_many

    serve_limited-admit :
        (now : ℕ) (r : Request) (rl : RateLimiter L)
        → serve_limited now r rl
          ≡ (verdict r (admit lib (user_id r) now rl).0, (admit lib (user_id r) now rl).1)
    unfolding serve_limited rate_limit_middleware
    serve_limited-admit now r rl = elim (Bool-cases (admit lib (user_id r) now rl).0) [
      | inl ok ↦ rw ok refl
      | inr refused ↦ rw refused refl
    ]

    answers-step :
        (now : ℕ) (r : Request) (hs : List Happening) (rl : RateLimiter L)
        → answers (request now r ∷ hs) rl
          ≡ (user_id r, verdict r (admit lib (user_id r) now rl).0)
            ∷ answers hs (admit lib (user_id r) now rl).1
    unfolding answers
    answers-step now r hs rl = rw (serve_limited-admit now r rl) refl

    answers_to-hit :
        (key k : Text) (a : Response) (as' : List (Text × Response))
        → text_eq k key ≡ true
        → answers_to key ((k, a) ∷ as') ≡ (k, a) ∷ answers_to key as'
    unfolding answers_to
    answers_to-hit key k a as' e = rw e refl

    answers_to-miss :
        (key k : Text) (a : Response) (as' : List (Text × Response))
        → text_eq k key ≡ false
        → answers_to key ((k, a) ∷ as') ≡ answers_to key as'
    unfolding answers_to
    answers_to-miss key k a as' e = rw e refl

    only-hit :
        (key : Text) (now : ℕ) (r : Request) (hs : List Happening)
        → text_eq (user_id r) key ≡ true
        → only key (request now r ∷ hs) ≡ request now r ∷ only key hs
    unfolding only
    only-hit key now r hs e = rw e refl

    only-miss :
        (key : Text) (now : ℕ) (r : Request) (hs : List Happening)
        → text_eq (user_id r) key ≡ false
        → only key (request now r ∷ hs) ≡ only key hs
    unfolding only
    only-miss key now r hs e = rw e refl

    answers-hit :
        (key : Text) (now : ℕ) (r : Request) (hs : List Happening) (rl rl' : RateLimiter L)
        → text_eq (user_id r) key ≡ true
        → (admit lib (user_id r) now rl).0 ≡ (admit lib (user_id r) now rl').0
        → answers_to key (answers hs (admit lib (user_id r) now rl).1)
          ≡ answers (only key hs) (admit lib (user_id r) now rl').1
        → answers_to key (answers (request now r ∷ hs) rl)
          ≡ answers (only key (request now r ∷ hs)) rl'
    answers-hit key now r hs rl rl' hit same rest = rw (answers-step now r hs rl) (
        rw (answers_to-hit key _ _ _ hit) (
          rw (only-hit key now r hs hit)
            (rw (answers-step now r (only key hs) rl') (rw same (rw rest refl)))))

    answers-miss :
        (key : Text) (now : ℕ) (r : Request) (hs : List Happening) (rl rl' : RateLimiter L)
        → text_eq (user_id r) key ≡ false
        → answers_to key (answers hs (admit lib (user_id r) now rl).1) ≡ answers (only key hs) rl'
        → answers_to key (answers (request now r ∷ hs) rl)
          ≡ answers (only key (request now r ∷ hs)) rl'
    answers-miss key now r hs rl rl' miss rest =
        rw (answers-step now r hs rl)
          (rw (answers_to-miss key _ _ _ miss) (rw (only-miss key now r hs miss) rest))

    answers-SameFor :
        (key : Text) (hs : List Happening) (rl rl' : RateLimiter L)
        → Distinct lib rl.visitors
        → Distinct lib rl'.visitors
        → SameFor lib key rl rl'
        → answers_to key (answers hs rl) ≡ answers (only key hs) rl'
    unfolding answers answers_to only cleanup
    answers-SameFor key [] rl rl' d d' s = refl
    answers-SameFor key (sweep now ∷ hs) rl rl' d d' s =
        answers-SameFor key hs (cleanup lib now rl) (cleanup lib now rl')
          (cleanup-Distinct lib an_hour now rl.visitors d)
          (cleanup-Distinct lib an_hour now rl'.visitors d')
          (cleanup-SameFor lib key now rl rl' d d' s)
    answers-SameFor key (request now r ∷ hs) rl rl' d d' s =
        let k = user_id r in
        elim (Bool-cases (text_eq k key)) [
          | inl hit ↦
              let own = (text_eq_iff k key).0 hit in
              let (same, s') =
                admit-SameFor lib k now rl rl' (subst (λ j. SameFor lib j rl rl') (sym own) s) in
              answers-hit key now r hs rl rl' hit same (
                answers-SameFor key hs _ _ (admit-Distinct lib k now rl d)
                  (admit-Distinct lib k now rl' d')
                  (subst (λ j. SameFor lib j (admit lib k now rl).1 (admit lib k now rl').1) own
                    s'))
          | inr miss ↦
              let (l, b, f) =
                admit-SameFor_ne lib key k now rl (λ e. ground (arith, text_eq_iff k key)) in
              answers-miss key now r hs rl rl' miss (
                answers-SameFor key hs _ rl' (admit-Distinct lib k now rl d) d'
                  (l ∙ s.0, b ∙ s.1, f ∙ s.2))
        ]

    -- However requests and rounds of the cleanup follow one another, from a new limiter: the
    -- answers to the requests of one visitor are those of a limiter that only this visitor uses.
    pub rate_limit_middleware-alone :
        (key : Text) (requests_per_second burst : ℕ) (hs : List Happening)
        → let rl = new_rate_limiter requests_per_second burst in
          answers_to key (answers hs rl) ≡ answers (only key hs) rl
    unfolding new_rate_limiter
    rate_limit_middleware-alone key requests_per_second burst hs =
        answers-SameFor key hs _ _ tt tt (refl, refl, refl)
