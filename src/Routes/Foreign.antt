-- ===== src/Routes/Foreign.antt =====
-- What a request from another site does to the tables on its whole way through the chain of its
-- route: the check of middleware_security.go stands before every handler that writes.
use tdiscuss.Base.{◌≡◌, ◌≢◌, refl, Bool, true, false, ◌⊎◌, inl, inr, Bool-cases, some}
use tdiscuss.Text.{Text}
use tdiscuss.Store.Tables.{Db}
use tdiscuss.Web.{Request, Service, Method}
use tdiscuss.Web.Reads.{get_board_data-keeps}
use tdiscuss.Access.Safe.{Unchanged, Unchanged-refl, Unchanged-trans, faults, handle-Unchanged}
use tdiscuss.Handlers.Routes.{Endpoint}
use tdiscuss.Middleware.Outside.{Outside}
use tdiscuss.Middleware.{
  Exchange, World, Handler, get_user, has_method, when, chain_then, chain_append,
}
use tdiscuss.Middleware.Auth.{
  get_user_email, create_or_get_user, auth_middleware, require_admin_middleware,
  board_data_middleware,
}
use tdiscuss.Middleware.Security.{csrf_protection_middleware}
use tdiscuss.Middleware.Setup.{
  admin_audit_middleware, main_slot, admin_slot, create_public_chain, create_authenticated_chain,
  state_changing,
}
use tdiscuss.Routes.SignIn.{Holds-auth}
use tdiscuss.Routes.Claims.{Claim, Holds, Answers, Holds-weaken}
use tdiscuss.Routes.Rules.{Holds-require_admin, Holds-audit, Holds-board_data, Holds-enrichment}
use tdiscuss.Routes.Chains.{public-Holds}
use tdiscuss.Routes.{serve_route, auth_chain, endpoint_handler, with_context}

-- What the handlers do: only a POST changes the tables.
abbrev Posted : Claim
Posted r u a p b = r.method ≢ Method.post → Unchanged a b

Posted-stay : Answers Posted
Posted-stay r u a p ne = Unchanged-refl a

post_checked :
    (ex : Exchange) → ex.request.method ≡ Method.post → has_method state_changing ex ≡ false → ⊥
unfolding has_method
post_checked ex e unchecked = let h : true ≡ false = rw e at unchecked in cc

module _ {L : Type 0} (out : Outside L) where
  -- What is behind the check does nothing for a request that is refused by it.
  abbrev Refused : Claim
  Refused r u a p b = out.is_same_origin r ≡ false → Unchanged a b

  -- Nothing, or what the sign-in does and no more.
  abbrev pub OnlySignIn : Request → Db → Db → Type 0
  OnlySignIn r a b =
      Unchanged a b
      ⊎ ((email : Text) × (get_user_email out r ≡ some email)
          × Unchanged (create_or_get_user out.lower email a).1 b)

  abbrev Foreign : Claim
  Foreign r u a p b = out.is_same_origin r ≡ false → OnlySignIn r a b

  Foreign-stay : Answers Foreign
  Foreign-stay r u a p cross = inl (Unchanged-refl a)

  -- A method that the check does not look at is not POST.
  csrf-Refused :
      (next : Handler L)
      → Holds Posted next
      → Holds Refused (when (has_method state_changing) (csrf_protection_middleware out) next)
  unfolding when has_method csrf_protection_middleware
  csrf-Refused next hn = record {
    at = λ ex w c cross. elim (Bool-cases (has_method state_changing ex)) [
      | inl checked ↦ rw checked (rw cross (Unchanged-refl w.db))
      | inr unchecked ↦ rw unchecked (hn.at ex w c λ e. post_checked ex e unchecked)
    ];
  }

  endpoint-Posted : (svc : Service) (e : Endpoint) → Holds Posted (endpoint_handler {L = L} svc e)
  unfolding endpoint_handler
  endpoint-Posted svc e = record {
    at = λ ex w c ne. handle-Unchanged svc e (with_context ex) w.db ne;
  }

  board-Posted :
      (svc : Service) (e : Endpoint)
      → Holds Posted (board_data_middleware (endpoint_handler {L = L} svc e))
  board-Posted svc e =
      Holds-board_data Posted _
        (λ r u a b p h ne. Unchanged-trans a _ b ((get_board_data-keeps faults).at a) (h ne))
        (endpoint-Posted svc e)

  admin-Posted :
      (svc : Service)
      → Holds Posted (
          require_admin_middleware (
            admin_audit_middleware
              (board_data_middleware (endpoint_handler {L = L} svc Endpoint.admin))))
  admin-Posted svc = Holds-require_admin Posted Posted-stay _ (
      Holds-audit Posted _
        (Holds-weaken _ (λ r u a b p h clear. h) (board-Posted svc Endpoint.admin)))

  signed-Foreign :
      (next : Handler L) → Holds Refused next → Holds Foreign (auth_middleware out next)
  signed-Foreign next hn =
      Holds-auth Refused Foreign out Foreign-stay
        (λ r u email a p ee cross. inr (email, ee, Unchanged-refl _))
        (λ r u email a v p b ee er eb h cross. inr (email, ee, h cross)) next hn

  auth-Foreign :
      (svc : Service) (dev : Bool) (e : Endpoint) (ex : Exchange) (w : World L)
      → let h = chain_then (auth_chain out dev) (endpoint_handler {L = L} svc e) in
        Foreign ex.request (get_user ex) w.db (h ex w).0 (h ex w).1.db
  unfolding chain_then create_public_chain create_authenticated_chain chain_append
  auth-Foreign svc dev e =
      public-Holds out Foreign Foreign-stay main_slot (λ vs w. refl) (λ r u a b p h. h) dev _
        (signed-Foreign _ (Holds-enrichment Refused _ (csrf-Refused _ (board-Posted svc e))))

  -- A request that the check for other origins refuses changes no table on its way through the chain
  -- of any route, whatever its method, but by what the sign-in of the login name of its address does.
  pub serve_route-Foreign :
      (svc : Service) (dev : Bool) (e : Endpoint) (ex : Exchange) (w : World L)
      → out.is_same_origin ex.request ≡ false
      → OnlySignIn ex.request w.db (serve_route out svc dev e ex w).1.db
  unfolding serve_route chain_then create_public_chain create_authenticated_chain chain_append
  serve_route-Foreign svc dev Endpoint.admin ex w =
      public-Holds out Foreign Foreign-stay admin_slot (λ vs w. refl) (λ r u a b p h. h) dev _
        (signed-Foreign _ (Holds-enrichment Refused _ (csrf-Refused _ (admin-Posted svc)))) ex w
  serve_route-Foreign svc dev e ex w = auth-Foreign svc dev e ex w
