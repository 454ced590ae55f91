-- ===== src/Middleware/Laws.antt =====
-- Chains and conditions.
use tdiscuss.Base.{◌≡◌, refl, ap, [], ◌∷◌}
use tdiscuss.Middleware.{Handler, Chain, chain_then, chain_extend}

module _ {L : Type 0} where
  -- A chain that is extended by another runs the first chain's middlewares outside the second's.
  pub chain_then-extend :
      (chain other : Chain L) (h : Handler L)
      → chain_then (chain_extend chain other) h ≡ chain_then chain (chain_then other h)
  unfolding chain_then chain_extend
  chain_then-extend [] other h = refl
  chain_then-extend (m ∷ chain) other h = ap m (chain_then-extend chain other h)
