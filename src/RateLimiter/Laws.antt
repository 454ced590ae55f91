-- ===== src/RateLimiter/Laws.antt =====
-- What a visit and a round of the cleanup do to a limiter, as one visitor sees it.
use tdiscuss.Base.{ℕ, ◌≡◌, ◌≢◌, refl, sym, ◌∙◌}
use tdiscuss.Text.{Text}
use tdiscuss.Middleware.Outside.{RateLibrary}
use tdiscuss.Middleware.{Visitor}
use tdiscuss.Middleware.Limits.{find_visitor, put_visitor, allow_visitor}
use tdiscuss.Middleware.Limits.Laws.{
  Distinct, find-put_self, find-put_ne, put-Distinct, find-cleanup,
}
use tdiscuss.RateLimiter.{RateLimiter, an_hour, seen_or_made, get_visitor, cleanup, admit}

module _ {L : Type 0} (lib : RateLibrary L) where
  -- Two limiters that treat a key alike.
  abbrev pub SameFor : Text → RateLimiter L → RateLimiter L → Type 0
  SameFor key rl rl' =
      (rl.limit ≡ rl'.limit)
      × (rl.burst ≡ rl'.burst)
      × (find_visitor lib key rl.visitors ≡ find_visitor lib key rl'.visitors)

  abbrev visitor_for : Text → ℕ → RateLimiter L → Visitor L
  visitor_for key now rl = seen_or_made lib rl now (find_visitor lib key rl.visitors)

  visitor_for_same :
      (key : Text) (now : ℕ) (rl rl' : RateLimiter L)
      → SameFor key rl rl'
      → visitor_for key now rl ≡ visitor_for key now rl'
  visitor_for_same key now rl rl' (l, b, f) = rw f (rw l (rw b refl))

  pub admit-SameFor :
      (key : Text) (now : ℕ) (rl rl' : RateLimiter L)
      → SameFor key rl rl'
      → ((admit lib key now rl).0 ≡ (admit lib key now rl').0)
        × SameFor key (admit lib key now rl).1 (admit lib key now rl').1
  unfolding admit get_visitor allow_visitor
  admit-SameFor key now rl rl' (l, b, f) =
      let v = visitor_for key now rl in
      let same = visitor_for_same key now rl rl' (l, b, f) in
      (
        rw same refl,
        (
          l,
          b,
          find-put_self lib key _ (put_visitor lib key v rl.visitors)
              ∙ (rw same refl)
              ∙ sym (
                  find-put_self lib key _
                    (put_visitor lib key (visitor_for key now rl') rl'.visitors)),
        ),
      )

  pub admit-SameFor_ne :
      (key other : Text) (now : ℕ) (rl : RateLimiter L)
      → other ≢ key
      → SameFor key (admit lib other now rl).1 rl
  unfolding admit get_visitor allow_visitor
  admit-SameFor_ne key other now rl ne =
      let v = visitor_for other now rl in
      (
        refl,
        refl,
        find-put_ne lib other key _ (put_visitor lib other v rl.visitors) ne
            ∙ find-put_ne lib other key v rl.visitors ne,
      )

  pub admit-Distinct :
      (key : Text) (now : ℕ) (rl : RateLimiter L)
      → Distinct lib rl.visitors
      → Distinct lib (admit lib key now rl).1.visitors
  unfolding admit get_visitor allow_visitor
  admit-Distinct key now rl d = put-Distinct lib key _ _ (put-Distinct lib key _ rl.visitors d)

  pub cleanup-SameFor :
      (key : Text) (now : ℕ) (rl rl' : RateLimiter L)
      → Distinct lib rl.visitors
      → Distinct lib rl'.visitors
      → SameFor key rl rl'
      → SameFor key (cleanup lib now rl) (cleanup lib now rl')
  unfolding cleanup
  cleanup-SameFor key now rl rl' d d' (l, b, f) = (
    l,
    b,
    find-cleanup lib an_hour now key rl.visitors d
        ∙ (rw f (sym (find-cleanup lib an_hour now key rl'.visitors d'))),
  )
