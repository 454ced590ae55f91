-- ===== src/Handlers/Otel.antt =====
-- handlers.go and handlers_placeholder.go: `OTELMiddleware`, which counts what a handler does, and
-- the page of the metrics.
use tdiscuss.Base.{◌≡◌, refl, Bool, [], ◌∷◌, ◌++◌, if◌then◌else◌}
use tdiscuss.Text.{codes}
use tdiscuss.Web.{message, Request, status}
use tdiscuss.Middleware.{
  answer, set_header, World, Reply, answered, panicked, Event, Handler, Middleware, request_counted,
  error_counted,
}

-- `requests` and `errors` are whether the counters are there.
module _ {L : Type 0} (requests errors : Bool) where
  abbrev if_there : Bool → Event → World L → World L
  if_there there e w = record w { log = if there then w.log ++ e ∷ [] else w.log }

  -- The label of the route is the path as it stands, with its numbers.
  abbrev observed : Request → Reply × World L → Reply × World L
  observed r (answered response, w) =
      (answered response, if_there requests (request_counted r.method r.path (status response)) w)
  observed r (panicked, w) =
      (panicked, if_there errors (error_counted r.method r.path 500 (codes "panic")) w)

  unfoldable pub otel_middleware : Middleware L
  unfolding status
  otel_middleware next ex w = observed ex.request (next ex w)

  -- The answer or the panic of the handler goes through as it is, and so does the state.
  observed_same :
      (r : Request) (reply : Reply) (w : World L)
      → ((observed r (reply, w)).0 ≡ reply) × ((observed r (reply, w)).1.db ≡ w.db)
  observed_same r (answered response) w = (refl, refl)
  observed_same r panicked w = (refl, refl)

-- handlers_placeholder.go: `MetricsHandler`
module _ {L : Type 0} where
  abbrev pub metrics_handler : Handler L
  metrics_handler ex w =
      answer (message 200 (codes "# Metrics endpoint\n# TODO: Implement Prometheus metrics\n"))
        (set_header "Content-Type" (codes "text/plain") w)
