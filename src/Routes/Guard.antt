-- ===== src/Routes/Guard.antt =====
-- What a request does to the database on its whole way through the chain of its route.
use tdiscuss.Base.{◌≡◌, refl, Bool, false, ◌⊎◌, inl, inr, Option, some}
use tdiscuss.Text.{Text}
use tdiscuss.Store.Tables.{Db, row}
use tdiscuss.Store.Members.{get_board_data}
use tdiscuss.Web.{User, Request, Service}
use tdiscuss.Web.Reads.{get_board_data-keeps}
use tdiscuss.Access.{IsAdmin, Allowed}
use tdiscuss.Access.Order.{Allowed-faults}
use tdiscuss.Access.Endpoints.{handle-Allowed}
use tdiscuss.Handlers.Routes.{Endpoint}
use tdiscuss.Middleware.Outside.{Outside}
use tdiscuss.Middleware.{Exchange, World, Reply, Handler, get_user, chain_then, chain_append}
use tdiscuss.Middleware.Auth.{
  get_user_email, create_or_get_user, auth_middleware, require_admin_middleware,
  board_data_middleware,
}
use tdiscuss.Middleware.Setup.{
  admin_audit_middleware, main_slot, admin_slot, create_public_chain, create_authenticated_chain,
}
use tdiscuss.Routes.SignIn.{Holds-auth}
use tdiscuss.Routes.Claims.{Claim, Holds, Answers, Holds-weaken}
use tdiscuss.Routes.Rules.{Holds-require_admin, Holds-audit, Holds-board_data, Holds-enrichment}
use tdiscuss.Routes.Chains.{csrf-Holds, public-Holds}
use tdiscuss.Routes.{serve_route, auth_chain, endpoint_handler, with_context}

-- The administration is for administrators.
abbrev pub Clearance : Endpoint → Option User → Type 0
Clearance Endpoint.admin u = IsAdmin u
Clearance _ u = Unit

-- What a member who is let in does.
abbrev pub Entered : Endpoint → Claim
Entered e r u a p b = (b ≡ a) ⊎ (Clearance e u × Allowed u a b)

module _ {L : Type 0} (out : Outside L) where
  -- Nothing; or what the sign-in does and no more; or, after the sign-in of a member who is not
  -- blocked, what that member may do.
  abbrev pub Guarded : Endpoint → Claim
  Guarded e r u a p b =
      (b ≡ a)
      ⊎ ((email : Text) × (get_user_email out r ≡ some email)
          × ((b ≡ (create_or_get_user out.lower email a).1)
              ⊎ ((v : User) × ((create_or_get_user out.lower email a).0 ≡ row v)
                  × (v.is_blocked ≡ false)
                  × Clearance e (some v)
                  × Allowed (some v) (create_or_get_user out.lower email a).1 b)))

  abbrev pub May : Claim
  May r u a p b = Allowed u a b

  May-stay : Answers May
  May-stay r u a p = (Allowed-faults u).order.same a

  May-board :
      (r : Request) (u : Option User) (a b : Db) (p : Reply)
      → May r u (get_board_data a).1 p b
      → May r u a p b
  May-board r u a b p h =
      (Allowed-faults u).order.after a (get_board_data a).1 b
        ((get_board_data-keeps (Allowed-faults u)).at a) h

  pub endpoint-Holds : (svc : Service) (e : Endpoint) → Holds May (endpoint_handler {L = L} svc e)
  unfolding endpoint_handler
  endpoint-Holds svc e = record { at = λ ex w c. handle-Allowed svc e (with_context ex) w.db }

  Guarded-stay : (e : Endpoint) → Answers (Guarded e)
  Guarded-stay e r u a p = inl refl

  Entered-stay : (e : Endpoint) → Answers (Entered e)
  Entered-stay e r u a p = inl refl

  signed-Holds :
      (e : Endpoint) (next : Handler L)
      → Holds (Entered e) next
      → Holds (Guarded e) (auth_middleware out next)
  signed-Holds e next hn =
      Holds-auth (Entered e) (Guarded e) out (Guarded-stay e)
        (λ r u email a p ee. inr (email, ee, inl refl))
        (λ r u email a v p b ee er eb h. elim h [
          | inl same ↦ inr (email, ee, inl same)
          | inr (clear, allowed) ↦ inr (email, ee, inr (v, er, eb, clear, allowed))
        ])
        next hn

  -- Every route: of the admin page, and of all others.
  admin-Holds :
      (svc : Service)
      → Holds (Entered Endpoint.admin) (
          require_admin_middleware (
            admin_audit_middleware
              (board_data_middleware (endpoint_handler {L = L} svc Endpoint.admin))))
  admin-Holds svc = Holds-require_admin (Entered Endpoint.admin) (Entered-stay Endpoint.admin) _ (
      Holds-audit (Entered Endpoint.admin) _ (
        Holds-weaken _ (λ r u a b p h clear. inr (clear, h))
          (Holds-board_data May _ May-board (endpoint-Holds svc Endpoint.admin))))

  member-Holds :
      (svc : Service) (e : Endpoint)
      → ((u : Option User) → Clearance e u)
      → Holds (Entered e) (board_data_middleware (endpoint_handler {L = L} svc e))
  member-Holds svc e clear =
      Holds-weaken _ (λ r u a b p h. inr (clear u, h))
        (Holds-board_data May _ May-board (endpoint-Holds svc e))

  auth-Guarded :
      (svc : Service) (dev : Bool) (e : Endpoint)
      → ((u : Option User) → Clearance e u)
      → (ex : Exchange) (w : World L)
      → let h = chain_then (auth_chain out dev) (endpoint_handler {L = L} svc e) in
        Guarded e ex.request (get_user ex) w.db (h ex w).0 (h ex w).1.db
  unfolding chain_then create_public_chain create_authenticated_chain chain_append
  auth-Guarded svc dev e clear =
      public-Holds out (Guarded e) (Guarded-stay e) main_slot (λ vs w. refl) (λ r u a b p h. h) dev
        _
        (signed-Holds e _ (
          Holds-enrichment (Entered e) _
            (csrf-Holds out (Entered e) (Entered-stay e) _ (member-Holds svc e clear))))

  -- Whatever the state of the database, the limiters and the identity service, a request through
  -- the chain of its route leaves the database as it was; or does what the sign-in of the login
  -- name of its address does and no more; or signs a member in who is not blocked, and is an
  -- administrator if the route is the admin page, and then does only what that member may do.
  pub serve_route-Guarded :
      (svc : Service) (dev : Bool) (e : Endpoint) (ex : Exchange) (w : World L)
      → Guarded e ex.request
          (get_user ex)
          w.db
          (serve_route out svc dev e ex w).0
          (serve_route out svc dev e ex w).1.db
  unfolding serve_route
  serve_route-Guarded svc dev Endpoint.admin ex w =
      public-Holds out (Guarded Endpoint.admin) (Guarded-stay Endpoint.admin) admin_slot
        (λ vs w. refl) (λ r u a b p h. h) dev _
        (signed-Holds Endpoint.admin _ (
          Holds-enrichment (Entered Endpoint.admin) _ (
            csrf-Holds out (Entered Endpoint.admin) (Entered-stay Endpoint.admin) _
              (admin-Holds svc))))
        ex w
  serve_route-Guarded svc dev e ex w = auth-Guarded svc dev e (λ u. tt) ex w
