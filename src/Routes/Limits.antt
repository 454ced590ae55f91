-- ===== src/Routes/Limits.antt =====
-- Which limits the routes have, and who may read the metrics.
use tdiscuss.Base.{ℕ, ◌≡◌, refl, Bool, true, [], ◌∷◌, ◌++◌, some, arith, inl, inr, Bool-cases}
use tdiscuss.Text.{Text, codes, text_eq}
use tdiscuss.Text.Decimal.{is_digit}
use tdiscuss.Middleware.{
  Exchange, World, Handler, chain_then, when, has_path_prefix, set_header, new_request_context,
  request_context_middleware,
}
use tdiscuss.Middleware.Limits.{get_limits_for_path, get_client_ip, listed, ip_whitelist_middleware}
use tdiscuss.Routes.{route_rate_limits, metrics_chain}

-- For a thread's page, whose number starts with a digit, the limits are the default ones: no
-- pattern of the routes matches the path.
pub get_limits-thread :
    (dev : Bool) (c : ℕ) (s : Text)
    → is_digit c ≡ true
    → get_limits_for_path (route_rate_limits dev) (codes "/thread/" ++ c ∷ s) ≡ (10000, 20)
unfolding get_limits_for_path text_eq
get_limits-thread dev c s h = ground arith

-- The metrics are open to every address: whatever the request, its whole chain only calls the
-- handler of the metrics, with the same request and the same database.
pub metrics_chain-open :
    {L : Type 0} (h : Handler L) (ex : Exchange) (w : World L)
    → (w' : World L) × (chain_then metrics_chain h ex w
        ≡ h (record ex { context = some (new_request_context ex w.db) }) w')
      × (w'.db ≡ w.db)
unfolding chain_then when ip_whitelist_middleware request_context_middleware has_path_prefix
    tdiscuss.Middleware.put_header
metrics_chain-open h ex w = elim (Bool-cases (has_path_prefix (codes "/_/metrics") ex)) [
  | inl under ↦
      elim (Bool-cases (listed (get_client_ip ex.request) (codes "127.0.0.1" ∷ codes "::1" ∷ []))) [
        | inl hit ↦
            (set_header "X-RateLimit-Whitelisted" (codes "true") w, rw under (rw hit refl), refl)
        | inr miss ↦ (w, rw under (rw miss refl), refl)
      ]
  | inr other ↦ (w, rw other refl, refl)
]
