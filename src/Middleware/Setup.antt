-- ===== src/Middleware/Setup.antt =====
-- middleware/middleware_setup.go: the chains, and the middlewares that it declares.
use tdiscuss.Base.{
  ◌*◌, Bool, true, ◌||◌, List, [], ◌∷◌, ◌++◌, if◌then◌else◌, Option, none, some, pos,
}
use tdiscuss.Text.{Text, codes, has_prefix, has_suffix}
use tdiscuss.Web.{User, Method, Request, status}
use tdiscuss.Middleware.Outside.{Outside}
use tdiscuss.Middleware.{
  Exchange, World, Visitors, Reply, answered, panicked, Handler, Middleware, Chain, chain_append,
  when, has_method, get_user, write_log, set_header, admin_action, admin_action_completed,
  request_context_middleware,
}
use tdiscuss.Middleware.Limits.{RateLimitConfig, default_rate_limit_config, rate_limit_middleware}
use tdiscuss.Middleware.Security.{
  SecurityConfig, default_security_config, security_headers_middleware, csrf_protection_middleware,
  request_size_limit_middleware,
}
use tdiscuss.Middleware.Auth.{auth_middleware, user_enrichment_middleware, require_admin_middleware}
use tdiscuss.Middleware.Observe.{observability_middleware, logging_middleware}

pub record MiddlewareSetup : Type 0 where
  pub security_config : SecurityConfig
  pub rate_limit_config : RateLimitConfig
  pub enable_auth : Bool
  pub enable_rate_limit : Bool
  pub enable_metrics : Bool
  pub enable_tracing : Bool
  pub enable_csrf : Bool

abbrev pub new_middleware_setup : MiddlewareSetup
new_middleware_setup = record {
  security_config = default_security_config;
  rate_limit_config = default_rate_limit_config;
  enable_auth = true;
  enable_rate_limit = true;
  enable_metrics = true;
  enable_tracing = true;
  enable_csrf = true;
}

unfoldable pub get_api_version : Text → Text
unfolding has_prefix
get_api_version path =
    if has_prefix path (codes "/api/v1/")
    then codes "v1"
    else if has_prefix path (codes "/api/v2/")
    then codes "v2"
    else codes "unknown"

-- The map of visitors of one limiter.
pub record Slot (L : Type 0) : Type 0 where
  pub read : World L → Visitors L
  pub write : Visitors L → World L → World L

module _ {L : Type 0} where
  -- The limiters of the chain of members and of the chain of administrators.
  abbrev pub main_slot : Slot L
  main_slot = record { read = λ w. w.visitors; write = λ vs w. record w { visitors = vs } }

  abbrev pub admin_slot : Slot L
  admin_slot = record {
    read = λ w. w.admin_visitors;
    write = λ vs w. record w { admin_visitors = vs };
  }

  abbrev pub completed : Request → User → Reply × World L → Reply × World L
  completed r u (answered response, w) = (
    answered response,
    write_log (admin_action_completed r.method r.path u.id (status response)) w,
  )
  completed r u (panicked, w) = (panicked, w)

  abbrev pub audited : Request → User → World L → World L
  audited r u w = write_log (admin_action r.method r.path u.id) w

  -- Without a user, `user.ID` is a read through a nil pointer.
  abbrev pub audit : Handler L → Exchange → Option User → World L → Reply × World L
  audit next ex none w = (panicked, w)
  audit next ex (some u) w = completed ex.request u (next ex (audited ex.request u w))

  unfoldable pub admin_audit_middleware : Middleware L
  unfolding status
  admin_audit_middleware next ex w = audit next ex (get_user ex) w

  abbrev font_header : Text → World L → World L
  font_header path w =
      if has_suffix path (codes ".woff")
        || has_suffix path (codes ".woff2")
        || has_suffix path (codes ".ttf")
      then set_header "Access-Control-Allow-Origin" (codes "*") w
      else w

  unfoldable pub static_file_middleware : Middleware L
  unfolding has_suffix
  static_file_middleware next ex w =
      next ex
        (font_header ex.request.path (set_header "Cache-Control" (codes "public, max-age=86400") w))

abbrev pub state_changing : List Method
state_changing = Method.post ∷ Method.put ∷ Method.patch ∷ Method.delete ∷ []

module _ {L : Type 0} (out : Outside L) where
  abbrev added : Bool → Middleware L → Chain L
  added b m = if b then m ∷ [] else []

  abbrev limiting : MiddlewareSetup → Slot L → Chain L
  limiting ms slot =
      added ms.enable_rate_limit
        (rate_limit_middleware out.rate slot.read slot.write ms.rate_limit_config)

  -- `slot` is the map of the limiter that the call makes.
  unfoldable pub create_public_chain : MiddlewareSetup → Slot L → Chain L
  create_public_chain ms slot =
      request_context_middleware
      ∷ (added (ms.enable_metrics || ms.enable_tracing) observability_middleware
          ++ (logging_middleware
              ∷ security_headers_middleware out ms.security_config
              ∷ request_size_limit_middleware out (pos (1024 * 1024))
              ∷ limiting ms slot))

  abbrev with_auth : MiddlewareSetup → Chain L → Chain L
  with_auth ms chain =
      if ms.enable_auth
      then chain_append chain (auth_middleware out ∷ user_enrichment_middleware ∷ [])
      else chain

  abbrev with_csrf : MiddlewareSetup → Chain L → Chain L
  with_csrf ms chain =
      if ms.enable_csrf
      then chain_append chain
          (when (has_method state_changing) (csrf_protection_middleware out) ∷ [])
      else chain

  unfoldable pub create_authenticated_chain : MiddlewareSetup → Slot L → Chain L
  unfolding create_public_chain chain_append
  create_authenticated_chain ms slot = with_csrf ms (with_auth ms (create_public_chain ms slot))

  unfoldable pub create_admin_chain : MiddlewareSetup → Slot L → Chain L
  unfolding create_authenticated_chain chain_append
  create_admin_chain ms slot =
      chain_append
        (chain_append (create_authenticated_chain ms slot) (require_admin_middleware ∷ []))
        (admin_audit_middleware ∷ [])
