-- ===== src/Routes/Secured.antt =====
-- The headers of every answer, with which the browser is told what it may do.
use tdiscuss.Base.{◌≡◌, refl, ◌∙◌, String, Bool, true, false, pos, ◌*◌}
use tdiscuss.Text.{codes}
use tdiscuss.Middleware.Limits.{rate_limit_middleware}
use tdiscuss.Middleware.Auth.{
  auth_middleware, user_enrichment_middleware, require_admin_middleware, board_data_middleware,
}
use tdiscuss.Web.{Request, Service, value_of}
use tdiscuss.Handlers.Routes.{Endpoint}
use tdiscuss.Middleware.Outside.{Outside}
use tdiscuss.Middleware.{
  Exchange, World, Visitors, Reply, request_context_middleware, answered, panicked, Headers,
  Handler, when, has_method, chain_then, chain_append,
}
use tdiscuss.Middleware.Security.{
  default_security_config, build_csp, build_permissions_policy, build_hsts, is_https, basic_headers,
  policy_header, hsts_header, policy_with, security_headers_middleware, put_headers, fixed_headers,
  request_size_limit_middleware, csrf_protection_middleware,
}
use tdiscuss.Middleware.Observe.{observed, logged, observability_middleware, logging_middleware}
use tdiscuss.Middleware.Setup.{
  Slot, main_slot, admin_slot, admin_audit_middleware, state_changing, create_public_chain,
  create_authenticated_chain,
}
use tdiscuss.Middleware.Quiet.{
  Apart, Quiet, Quiet-board_data, Quiet-enrichment, Quiet-when, Quiet-csrf, Quiet-require_admin,
  Quiet-audit, Quiet-auth, Quiet-size_limit, Quiet-rate_limit, value_of-put,
}
use tdiscuss.Routes.{serve_route, auth_chain, endpoint_handler, route_rate_limits, route_setup}

-- What an answer carries, over HTTPS or not.
pub record Secured (https : Bool) (hs : Headers) : Type 0 where
  pub frames : value_of "X-Frame-Options" hs ≡ codes "DENY"
  pub sniffing : value_of "X-Content-Type-Options" hs ≡ codes "nosniff"
  pub referrer : value_of "Referrer-Policy" hs ≡ codes "strict-origin-when-cross-origin"
  pub auditor : value_of "X-XSS-Protection" hs ≡ codes "0"
  pub contents :
      value_of "Content-Security-Policy" hs ≡ build_csp default_security_config.csp_directives
  pub permissions :
      value_of "Permissions-Policy" hs
      ≡ build_permissions_policy default_security_config.permissions_policy
  pub transport :
      https ≡ true → value_of "Strict-Transport-Security" hs ≡ build_hsts default_security_config

-- What the security middleware puts, before it calls the next handler.
put_before : Bool → Headers → Headers
put_before https hs =
    let config = default_security_config in
    policy_with config (build_csp config.csp_directives) (
      hsts_header https config (
        policy_header (build_permissions_policy config.permissions_policy)
          (basic_headers config hs)))

put-Secured : (https : Bool) (hs : Headers) → Secured https (put_before https hs)
unfolding put_before put_headers build_permissions_policy
put-Secured true hs = record {
  frames = simp value_of-put;
  sniffing = simp value_of-put;
  referrer = simp value_of-put;
  auditor = simp value_of-put;
  contents = simp value_of-put;
  permissions = simp value_of-put;
  transport = λ f. simp value_of-put;
}
put-Secured false hs = record {
  frames = simp value_of-put;
  sniffing = simp value_of-put;
  referrer = simp value_of-put;
  auditor = simp value_of-put;
  contents = simp value_of-put;
  permissions = simp value_of-put;
  transport = λ f. cc;
}

Apart-frames : Apart "X-Frame-Options"
Apart-frames = record { limit = refl; remaining = refl; reset = refl; policy = refl; retry = refl }

Apart-sniffing : Apart "X-Content-Type-Options"
Apart-sniffing = record {
  limit = refl;
  remaining = refl;
  reset = refl;
  policy = refl;
  retry = refl;
}

Apart-referrer : Apart "Referrer-Policy"
Apart-referrer = record {
  limit = refl;
  remaining = refl;
  reset = refl;
  policy = refl;
  retry = refl;
}

Apart-auditor : Apart "X-XSS-Protection"
Apart-auditor = record { limit = refl; remaining = refl; reset = refl; policy = refl; retry = refl }

Apart-contents : Apart "Content-Security-Policy"
Apart-contents = record {
  limit = refl;
  remaining = refl;
  reset = refl;
  policy = refl;
  retry = refl;
}

Apart-permissions : Apart "Permissions-Policy"
Apart-permissions = record {
  limit = refl;
  remaining = refl;
  reset = refl;
  policy = refl;
  retry = refl;
}

Apart-transport : Apart "Strict-Transport-Security"
Apart-transport = record {
  limit = refl;
  remaining = refl;
  reset = refl;
  policy = refl;
  retry = refl;
}

-- Headers that are those before, where no limiter writes.
Alike : Headers → Headers → Type 0
Alike hs hs' = (k : String) → Apart k → value_of k hs' ≡ value_of k hs

Alike-Secured :
    (https : Bool) (hs hs' : Headers) → Alike hs hs' → Secured https hs → Secured https hs'
unfolding Alike
Alike-Secured https hs hs' alike s = record {
  frames = alike "X-Frame-Options" Apart-frames ∙ s.frames;
  sniffing = alike "X-Content-Type-Options" Apart-sniffing ∙ s.sniffing;
  referrer = alike "Referrer-Policy" Apart-referrer ∙ s.referrer;
  auditor = alike "X-XSS-Protection" Apart-auditor ∙ s.auditor;
  contents = alike "Content-Security-Policy" Apart-contents ∙ s.contents;
  permissions = alike "Permissions-Policy" Apart-permissions ∙ s.permissions;
  transport = λ e. alike "Strict-Transport-Security" Apart-transport ∙ s.transport e;
}

module _ {L : Type 0} (out : Outside L) where
  module _ (svc : Service) (k : String) (apart : Apart k) where
    handled-Quiet : (e : Endpoint) → Quiet k (endpoint_handler {L = L} svc e)
    unfolding endpoint_handler
    handled-Quiet e = record { at = λ ex w. refl }

    csrf-Quiet :
        (next : Handler L)
        → Quiet k next
        → Quiet k (when (has_method state_changing) (csrf_protection_middleware out) next)
    csrf-Quiet next q = Quiet-when k _ _ next (Quiet-csrf k out next q) q

    -- What stands inside the security middleware, on the routes of members and of administrators.
    inner-Quiet :
        (slot : Slot L) (dev : Bool) (next : Handler L)
        → ((vs : Visitors L) (w : World L) → (slot.write vs w).headers ≡ w.headers)
        → Quiet k next
        → Quiet k (
            request_size_limit_middleware out (pos (1024 * 1024)) (
              rate_limit_middleware out.rate slot.read slot.write (route_rate_limits dev) (
                auth_middleware out (
                  user_enrichment_middleware
                    (when (has_method state_changing) (csrf_protection_middleware out) next)))))
    inner-Quiet slot dev next keeps q = Quiet-size_limit k out _ _ (
        Quiet-rate_limit k apart out.rate (route_rate_limits dev) slot _ keeps
          (Quiet-auth k out _ (Quiet-enrichment k _ (csrf-Quiet next q))))

    member-Quiet : (e : Endpoint) → Quiet k (board_data_middleware (endpoint_handler {L = L} svc e))
    member-Quiet e = Quiet-board_data k _ (handled-Quiet e)

    admin-Quiet : Quiet k (
        require_admin_middleware (
          admin_audit_middleware
            (board_data_middleware (endpoint_handler {L = L} svc Endpoint.admin))))
    admin-Quiet = Quiet-require_admin k _ (Quiet-audit k _ (member-Quiet Endpoint.admin))

  -- The handler gives answers that carry the headers.
  record Secures (h : Handler L) : Type 0 where
    at : (ex : Exchange) (w : World L) → Secured (is_https out.equal_fold ex) (h ex w).1.headers

  observed-Secured :
      (r : Request) (https : Bool) (p : Reply × World L)
      → Secured https p.1.headers
      → Secured https (observed r p).1.headers
  observed-Secured r https (answered p, w) s = s
  observed-Secured r https (panicked, w) s = s

  logged-Secured :
      (https : Bool) (p : Reply × World L)
      → Secured https p.1.headers
      → Secured https (logged p).1.headers
  logged-Secured https (answered p, w) s = s
  logged-Secured https (panicked, w) s = s

  observability-Secures :
      (next : Handler L) → Secures next → Secures (observability_middleware next)
  unfolding observability_middleware
  observability-Secures next h = record {
    at = λ ex w. observed-Secured ex.request (is_https out.equal_fold ex) _ (h.at _ _);
  }

  logging-Secures : (next : Handler L) → Secures next → Secures (logging_middleware next)
  unfolding logging_middleware
  logging-Secures next h = record {
    at = λ ex w. logged-Secured (is_https out.equal_fold ex) _ (h.at ex _);
  }

  context-Secures : (next : Handler L) → Secures next → Secures (request_context_middleware next)
  unfolding request_context_middleware
  context-Secures next h = record { at = λ ex w. h.at _ w }

  security-Secures :
      (next : Handler L)
      → ((k : String) → Apart k → Quiet k next)
      → Secures (security_headers_middleware out default_security_config next)
  unfolding security_headers_middleware fixed_headers put_before put_headers Alike
  security-Secures next q = record {
    at = λ ex w.
        Alike-Secured (is_https out.equal_fold ex) _ _ (λ k apart. (q k apart).at ex _)
          (put-Secured (is_https out.equal_fold ex) w.headers);
  }

  public-Secures :
      (slot : Slot L) (dev : Bool) (next : Handler L)
      → ((k : String)
          → Apart k
          → Quiet k (
              request_size_limit_middleware out
                (pos (1024 * 1024))
                (rate_limit_middleware out.rate slot.read slot.write (route_rate_limits dev) next)))
      → Secures (chain_then (create_public_chain out (route_setup dev) slot) next)
  unfolding chain_then create_public_chain
  public-Secures slot dev next q =
      context-Secures _ (observability-Secures _ (logging-Secures _ (security-Secures _ q)))

  -- Every route but that of the administration.
  auth-Secures :
      (svc : Service) (dev : Bool) (e : Endpoint)
      → Secures (chain_then (auth_chain out dev) (endpoint_handler svc e))
  unfolding chain_then create_public_chain create_authenticated_chain chain_append
  auth-Secures svc dev e =
      public-Secures main_slot dev _ λ k apart.
        inner-Quiet svc k apart main_slot dev _ (λ vs w. refl) (member-Quiet svc k apart e)

  -- Every answer on a route carries the seven headers, whatever the request and the state: the pages,
  -- the redirects and all errors, also those of the limiters and of the sign-in; the one for
  -- transport security if the request came over HTTPS.
  pub serve_route-Secured :
      (svc : Service) (dev : Bool) (e : Endpoint) (ex : Exchange) (w : World L)
      → Secured (is_https out.equal_fold ex) (serve_route out svc dev e ex w).1.headers
  unfolding serve_route chain_then create_public_chain create_authenticated_chain chain_append
  serve_route-Secured svc dev Endpoint.admin ex w =
      (public-Secures admin_slot dev _ λ k apart.
          inner-Quiet svc k apart admin_slot dev _ (λ vs w. refl) (admin-Quiet svc k apart)).at
        ex w
  serve_route-Secured svc dev e ex w = (auth-Secures svc dev e).at ex w
