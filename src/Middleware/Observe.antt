-- ===== src/Middleware/Observe.antt =====
-- middleware/middleware_observability.go: what a request leaves in the log and the metrics.
pub mod Laws
use tdiscuss.Base.{
  ℕ, ◌/◌, ◌==◌, Bool, true, false, not, ◌&&◌, List, [], ◌∷◌, ◌++◌, leb, ltb, if◌then◌else◌, Option,
  none, some,
}
use tdiscuss.Text.{Text, codes, cut_prefix, cut, is_empty}
use tdiscuss.Web.{Method, Request, status}
use tdiscuss.Middleware.{
  Exchange, RequestContext, World, Reply, answered, panicked, Event, Handler, Middleware, write_log,
  modify_context, request_started, request_received, request_completed, request_counted,
  error_counted,
}

abbrev pub Pattern : Type 0
Pattern = Text × Text

abbrev pub route_patterns : List Pattern
route_patterns =
    (codes "/thread/", codes "/thread/{tid}")
    ∷ (codes "/member/", codes "/member/{id}")
    ∷ (codes "/api/v1/thread/", codes "/api/v1/thread/{tid}")
    ∷ (codes "/api/v1/member/", codes "/api/v1/member/{id}")
    ∷ []

-- What follows the first slash, if something stands before it.
abbrev subpath : Option (Text × Text) → Text
subpath none = []
subpath (some ([], after)) = []
subpath (some (c ∷ before, after)) = b'/' ∷ after

unfoldable pub pattern_of : List Pattern → Text → Text
unfolding cut_prefix cut
pattern_of [] path = path
pattern_of ((prefix, pattern') ∷ ps) path = elim (cut_prefix prefix path) [
  | none ↦ pattern_of ps path
  | some remaining ↦ pattern' ++ subpath (cut b'/' remaining)
]

unfoldable pub get_route_pattern : Text → Text
unfolding pattern_of
get_route_pattern path = pattern_of route_patterns path

abbrev pub error_types : List (ℕ × Text)
error_types =
    (400, codes "bad_request")
    ∷ (401, codes "unauthorized")
    ∷ (403, codes "forbidden")
    ∷ (404, codes "not_found")
    ∷ (405, codes "method_not_allowed")
    ∷ (408, codes "timeout")
    ∷ (413, codes "payload_too_large")
    ∷ (429, codes "too_many_requests")
    ∷ (500, codes "internal_error")
    ∷ (502, codes "bad_gateway")
    ∷ (503, codes "service_unavailable")
    ∷ (504, codes "gateway_timeout")
    ∷ []

unfoldable pub type_in : List (ℕ × Text) → ℕ → Text
type_in [] code =
    if leb 400 code && ltb code 500 then codes "client_error" else codes "server_error"
type_in ((c, name) ∷ types) code = if c == code then name else type_in types code

unfoldable pub get_error_type : ℕ → Text
unfolding type_in
get_error_type code = type_in error_types code

abbrev or_old : Text → Option Text → Text
or_old old none = old
or_old old (some id) = id

abbrev trace_with : Option Text → RequestContext → RequestContext
trace_with span rc = record rc { trace_id = or_old rc.trace_id span }

abbrev error_events : Request → ℕ → List Event
error_events r code =
    if leb 400 code
    then error_counted r.method (get_route_pattern r.path) code (get_error_type code) ∷ []
    else []

module _ {L : Type 0} where
  abbrev count_request : Request → ℕ → World L → World L
  count_request r code w =
      let w = write_log (request_counted r.method (get_route_pattern r.path) code) w in
      record w { log = w.log ++ error_events r code }

  -- A panic goes on upwards, and nothing after the call is done.
  abbrev pub observed : Request → Reply × World L → Reply × World L
  observed r (answered response, w) = (
    answered response,
    write_log (request_completed (status response)) (count_request r (status response) w),
  )
  observed r (panicked, w) = (panicked, w)

  unfoldable pub observability_middleware : Middleware L
  unfolding get_route_pattern get_error_type status
  observability_middleware next ex w =
      let ex = modify_context (trace_with ex.span_id) ex in
      observed ex.request
        (next ex (write_log (request_started ex.request.method ex.request.path) w))

  abbrev pub logged : Reply × World L → Reply × World L
  logged (answered response, w) =
      (answered response, write_log (request_completed (status response)) w)
  logged (panicked, w) = (panicked, w)

  unfoldable pub logging_middleware : Middleware L
  unfolding status
  logging_middleware next ex w =
      logged (next ex (write_log (request_received ex.request.method ex.request.path) w))

  abbrev pub counted : Request → Reply × World L → Reply × World L
  counted r (answered response, w) = (
    answered response,
    write_log (request_counted r.method (get_route_pattern r.path) (status response)) w,
  )
  counted r (panicked, w) = (panicked, w)

  -- `metricsMiddleware`
  unfoldable pub metrics_middleware : Middleware L
  unfolding get_route_pattern status
  metrics_middleware next ex w = counted ex.request (next ex w)
