-- ===== src/Routes.antt =====
-- routes.go: the chains of the routes, static files and the recovery from panics.
pub mod Claims
pub mod Rules
pub mod SignIn
pub mod Chains
pub mod Guard
pub mod Whole
pub mod Limits
pub mod Setups
pub mod Foreign
pub mod Secured
use tdiscuss.Base.{
  ℕ, String, Bool, true, false, not, ◌||◌, List, [], ◌∷◌, ◌++◌, if◌then◌else◌, Option, none, some,
}
use tdiscuss.Text.{Text, codes, is_empty, text_eq, has_prefix, has_suffix, cut_prefix, to_lower}
use tdiscuss.Text.Decimal.{decimal}
use tdiscuss.Web.{Request, Response, Service, Method, message, plain, value_of}
use tdiscuss.Web.Action.{serve}
use tdiscuss.Handlers.Show.{not_found, health_check}
use tdiscuss.Handlers.Routes.{Endpoint, handle}
use tdiscuss.Middleware.Outside.{Outside}
use tdiscuss.Middleware.{
  Exchange, World, Reply, answered, panicked, Handler, Middleware, Chain, Event, chain_then,
  chain_append, when, has_path_prefix, get_user, write_log, set_header, panic_recovered,
  same_method, put_header, request_context_middleware,
}
use tdiscuss.Middleware.Limits.{
  EndpointLimit, RateLimitConfig, default_rate_limit_config, ip_whitelist_middleware,
}
use tdiscuss.Middleware.Auth.{board_data_middleware}
use tdiscuss.Middleware.Observe.{logging_middleware}
use tdiscuss.Middleware.Setup.{
  MiddlewareSetup, new_middleware_setup, create_authenticated_chain, create_admin_chain, main_slot,
  admin_slot,
}

abbrev pub endpoint_limits : Bool → List EndpointLimit
endpoint_limits is_dev_mode =
    record { pattern = codes "/thread/new"; rate = 500; burst = 2 }
    ∷ record { pattern = codes "/thread/{tid}"; rate = 2000; burst = 5 }
    ∷ record { pattern = codes "/thread/{tid}/edit"; rate = 1000; burst = 3 }
    ∷ record { pattern = codes "/member/edit"; rate = 500; burst = 2 }
    ∷ record { pattern = codes "/admin"; rate = if is_dev_mode then 10000 else 200; burst = 1 }
    ∷ []

abbrev pub route_rate_limits : Bool → RateLimitConfig
route_rate_limits is_dev_mode = record default_rate_limit_config {
  endpoint_limits = endpoint_limits is_dev_mode;
}

abbrev pub route_setup : Bool → MiddlewareSetup
route_setup is_dev_mode = record new_middleware_setup {
  rate_limit_config = route_rate_limits is_dev_mode;
}

-- The request as a handler sees it, with what the middlewares have put into its context.
abbrev pub with_context : Exchange → Request
with_context ex = record ex.request { user = get_user ex; board = ex.board }

module _ {L : Type 0} where
  unfoldable pub endpoint_handler : Service → Endpoint → Handler L
  endpoint_handler svc e ex w =
      let (response, db) = serve (handle svc e (with_context ex)) w.db in
      (answered response, record w { db = db })

  unfoldable pub health_handler : Handler L
  unfolding health_check serve
  health_handler ex w =
      let (response, db) = serve health_check w.db in (answered response, record w { db = db })

module _ {L : Type 0} (out : Outside L) where
  abbrev pub auth_chain : Bool → Chain L
  auth_chain is_dev_mode =
      chain_append (create_authenticated_chain out (route_setup is_dev_mode) main_slot)
        (board_data_middleware ∷ [])

  abbrev pub admin_chain : Bool → Chain L
  admin_chain is_dev_mode =
      chain_append (create_admin_chain out (route_setup is_dev_mode) admin_slot)
        (board_data_middleware ∷ [])

  abbrev chain_of : Bool → Endpoint → Chain L
  chain_of is_dev_mode Endpoint.admin = admin_chain is_dev_mode
  chain_of is_dev_mode _ = auth_chain is_dev_mode

  -- A request that the mux has matched to a route of the handler.
  unfoldable pub serve_route : Service → Bool → Endpoint → Handler L
  unfolding create_authenticated_chain create_admin_chain chain_append chain_then
  serve_route svc is_dev_mode e = chain_then (chain_of is_dev_mode e) (endpoint_handler svc e)

abbrev content_type : Text → Option Text
content_type path =
    if has_suffix path (codes ".js")
    then some (codes "application/javascript")
    else if has_suffix path (codes ".css")
    then some (codes "text/css")
    else if has_suffix path (codes ".html")
    then some (codes "text/html")
    else if has_suffix path (codes ".json")
    then some (codes "application/json")
    else none

abbrev drop_first : Text → Text
drop_first [] = []
drop_first (c ∷ s) = s

module _ {L : Type 0} where
  abbrev pub health_chain : Chain L
  health_chain = request_context_middleware ∷ logging_middleware ∷ []

  -- `promhttp.Handler` stands at the end of this chain.
  abbrev pub metrics_chain : Chain L
  metrics_chain =
      request_context_middleware
      ∷ when (has_path_prefix (codes "/_/metrics"))
          (ip_whitelist_middleware (codes "127.0.0.1" ∷ codes "::1" ∷ []))
      ∷ []

  abbrev type_header : Option Text → World L → World L
  type_header none w = w
  type_header (some t) w = set_header "Content-Type" t w

  abbrev file_answer : Text → Option Text → World L → Reply × World L
  file_answer path none w = (answered not_found, w)
  file_answer path (some bytes) w = (answered (plain bytes), type_header (content_type path) w)

  -- `read_file` is `ReadFile` of the embedded files; `none` is an error.
  unfoldable pub static_handler : (Text → Option Text) → Handler L
  unfolding has_suffix
  static_handler read_file ex w =
      file_answer ex.request.path (read_file (drop_first ex.request.path)) w

contains : Text → Text → Bool
unfolding has_prefix
contains part [] = is_empty part
contains part (c ∷ s) = has_prefix (c ∷ s) part || contains part s

abbrev one_of : Text → List Text → Bool
one_of s [] = false
one_of s (t ∷ ts) = text_eq s t || one_of s ts

unfoldable pub is_sensitive_field : Text → Bool
unfolding contains to_lower
is_sensitive_field field_name =
    let s = to_lower field_name in
    one_of s (
      codes "password"
      ∷ codes "passwd"
      ∷ codes "pwd"
      ∷ codes "secret"
      ∷ codes "token"
      ∷ codes "csrf_token"
      ∷ codes "api_key"
      ∷ codes "private_key"
      ∷ [])
    || contains (codes "password") s
    || contains (codes "secret") s
    || contains (codes "token") s
