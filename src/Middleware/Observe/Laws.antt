-- ===== src/Middleware/Observe/Laws.antt =====
-- The labels of the metrics.
use tdiscuss.Base.{ℕ, ◌≡◌, ◌≢◌, refl, [], ◌∷◌, ◌++◌, All, none, arith}
use tdiscuss.Text.{Text, codes, cut}
use tdiscuss.Middleware.Observe.{get_route_pattern}

cut_absent : (c : ℕ) (s : Text) → All (λ x. x ≢ c) s → cut c s ≡ none
unfolding cut
cut_absent c [] h = refl
cut_absent c (x ∷ s) h = ground (arith, cut_absent c s h.1)

-- Requests for different threads count under one label: what follows `/thread/`, if it holds no
-- slash, does not show; and so for members.
pub get_route_pattern-single :
    (s : Text)
    → All (λ x. x ≢ b'/') s
    → (get_route_pattern (codes "/thread/" ++ s) ≡ codes "/thread/{tid}")
      × (get_route_pattern (codes "/member/" ++ s) ≡ codes "/member/{id}")
unfolding get_route_pattern
get_route_pattern-single s h = rw (cut_absent b'/' s h) (refl, refl)
