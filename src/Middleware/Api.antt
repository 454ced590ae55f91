-- ===== src/Middleware/Api.antt =====
-- middleware/middleware_setup.go: the chain of the API, and the routes of `SetupRoutes`.
use tdiscuss.Base.{◌*◌, Bool, ◌||◌, [], ◌∷◌, ◌++◌, leb, if◌then◌else◌, pos}
use tdiscuss.Text.{codes}
use tdiscuss.Web.{status}
use tdiscuss.Middleware.Outside.{Outside}
use tdiscuss.Middleware.{
  World, Reply, answered, panicked, Middleware, Chain, chain_append, set_header, put_header,
  request_context_middleware,
}
use tdiscuss.Middleware.Limits.{RateLimitConfig, rate_limit_middleware}
use tdiscuss.Middleware.Security.{
  SecurityConfig, security_headers_middleware, request_size_limit_middleware,
}
use tdiscuss.Middleware.Auth.{auth_middleware, user_enrichment_middleware}
use tdiscuss.Middleware.Observe.{observability_middleware, logging_middleware}
use tdiscuss.Middleware.Setup.{
  MiddlewareSetup, Slot, create_public_chain, create_authenticated_chain, create_admin_chain,
  static_file_middleware,
}

module _ {L : Type 0} where
  -- Only the logger in the context changes.
  unfoldable pub api_logging_middleware : Middleware L
  api_logging_middleware next ex w = next ex w

  -- The status of an error is sent with another `Content-Type`; the body is as it was.
  abbrev pub as_json : Reply × World L → Reply × World L
  as_json (answered p, w) =
      if leb 400 (status p)
      then (answered p, set_header "Content-Type" (codes "application/json") w)
      else (answered p, w)
  as_json (panicked, w) = (panicked, w)

  unfoldable pub json_error_middleware : Middleware L
  unfolding status put_header
  json_error_middleware next ex w = as_json (next ex w)

abbrev pub api_security_config : MiddlewareSetup → SecurityConfig
api_security_config ms = record ms.security_config {
  csp_directives =
      (codes "default-src", codes "'none'") ∷ (codes "frame-ancestors", codes "'none'") ∷ [];
}

abbrev pub api_rate_limit_config : MiddlewareSetup → RateLimitConfig
api_rate_limit_config ms = record ms.rate_limit_config { requests_per_second = 100000; burst = 200 }

-- The middlewares that `append` adds under a test.
abbrev pub added_if : {L : Type 0} → Bool → Chain L → Chain L
added_if b chain = if b then chain else []

-- The patterns of `SetupRoutes` but that of the metrics.
pub data SetupRoute : Type 0 where
  root thread_pages member_pages thread_new thread_create member_edit : SetupRoute
  thread_edit thread_post_edit thread_reply admin static health : SetupRoute

module _ {L : Type 0} (out : Outside L) where
  -- `slot` is the map of the limiter that the call makes.
  unfoldable pub create_api_chain : MiddlewareSetup → Slot L → Chain L
  create_api_chain ms slot =
      request_context_middleware
      ∷ (added_if (ms.enable_metrics || ms.enable_tracing) (observability_middleware ∷ [])
          ++ (api_logging_middleware
              ∷ security_headers_middleware out (api_security_config ms)
              ∷ request_size_limit_middleware out (pos (10 * 1024 * 1024))
              ∷ (added_if ms.enable_rate_limit (
                    rate_limit_middleware out.rate slot.read slot.write (api_rate_limit_config ms)
                    ∷ [])
                  ++ (added_if ms.enable_auth
                        (auth_middleware out ∷ user_enrichment_middleware ∷ [])
                      ++ json_error_middleware ∷ []))))

  -- The chains of `SetupRoutes`; each of the three calls makes a limiter of its own.
  unfoldable pub setup_chain : MiddlewareSetup → Slot L → Slot L → Slot L → SetupRoute → Chain L
  unfolding create_public_chain create_authenticated_chain create_admin_chain chain_append
  setup_chain ms public auth admins root = create_public_chain out ms public
  setup_chain ms public auth admins thread_pages = create_public_chain out ms public
  setup_chain ms public auth admins member_pages = create_public_chain out ms public
  setup_chain ms public auth admins admin = create_admin_chain out ms admins
  setup_chain ms public auth admins static =
      chain_append (create_public_chain out ms public) (static_file_middleware ∷ [])
  setup_chain ms public auth admins health = request_context_middleware ∷ logging_middleware ∷ []
  setup_chain ms public auth admins _ = create_authenticated_chain out ms auth
