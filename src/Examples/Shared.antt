-- ===== src/Examples/Shared.antt =====
-- The theorems about the headers of every answer, about requests from other sites, about visits at
-- the same time and about the user of a request, at the requests of Examples.Chains.
use tdiscuss.Base.{ℕ, Option, none, some, ◌↔◌, ◌≡◌, refl, false, List, [], ◌∷◌}
use tdiscuss.Text.{Text, codes, is_empty}
use tdiscuss.Handlers.Routes.{Endpoint}
use tdiscuss.Middleware.{Visitor}
use tdiscuss.Middleware.Limits.Shared.{Move, takes, asks, no_requests, run}
use tdiscuss.Middleware.Limits.Serial.{serial, run-serial}
use tdiscuss.Middleware.Adapters.{adapted_who_is, adapted_who_is_iff}
use tdiscuss.Middleware.Auth.{get_user_email}
use tdiscuss.Middleware.Security.{is_https}
use tdiscuss.Routes.{serve_route, route_rate_limits}
use tdiscuss.Routes.Foreign.{OnlySignIn, serve_route-Foreign}
use tdiscuss.Middleware.Outside.{Outside}
use tdiscuss.Routes.Secured.{Secured, serve_route-Secured}
use tdiscuss.Examples.{service, posted, db}
use tdiscuss.Examples.Chains.{rate, outside, arrived, world, read_page}

serve_route-Secured_example :
    Secured
      (is_https outside.equal_fold (arrived posted))
      (serve_route outside service false Endpoint.admin (arrived posted) world).1.headers
serve_route-Secured_example =
    serve_route-Secured outside service false Endpoint.admin (arrived posted) world

-- Every request seems to come from another site.
abbrev elsewhere : Outside ℕ
elsewhere = record outside { is_same_origin = λ r. false }

serve_route-Foreign_example :
    OnlySignIn elsewhere posted db
      (serve_route elsewhere service false Endpoint.create_thread (arrived posted) world).1.db
serve_route-Foreign_example =
    serve_route-Foreign elsewhere service false Endpoint.create_thread (arrived posted) world refl

-- Two requests of Ann at once, for pages with different limits: the second asks before the first.
abbrev at_once : List Move
at_once = takes 1 (arrived posted) 900 ∷ takes 2 read_page 901 ∷ asks 2 902 ∷ asks 1 903 ∷ []

abbrev no_visitor : Visitor ℕ
no_visitor = record { limiter = 0; last_seen = 0 }

run-serial_example :
    run rate (route_rate_limits false) at_once (no_requests no_visitor)
    ≡ serial rate (route_rate_limits false) at_once [] (λ k. none)
run-serial_example = run-serial rate (route_rate_limits false) at_once no_visitor

-- The client knows Ann.
abbrev client : Text → Option (Option Text)
client address = some (some (codes "ann@example.org"))

adapted_who_is_iff_example :
    (get_user_email (record outside { who_is = adapted_who_is (λ (p : Text). p) client }) posted
      ≡ some (codes "ann@example.org"))
    ↔ ((p : Text) × (client posted.remote_addr ≡ some (some p))
        × (p ≡ codes "ann@example.org")
        × (is_empty (codes "ann@example.org") ≡ false))
adapted_who_is_iff_example =
    adapted_who_is_iff (λ (p : Text). p) outside client posted (codes "ann@example.org")
