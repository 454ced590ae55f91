-- ===== src/Routes/Whole.antt =====
-- A claim about every handler becomes one about the whole chain of every route.
use tdiscuss.Base.{refl, Bool, Option, some}
use tdiscuss.Text.{Text}
use tdiscuss.Store.Tables.{Db}
use tdiscuss.Store.Members.{get_board_data}
use tdiscuss.Web.{User, Request, Service}
use tdiscuss.Handlers.Routes.{Endpoint}
use tdiscuss.Middleware.Outside.{Outside}
use tdiscuss.Middleware.{
  Exchange, World, Reply, get_user, when, Handler, has_method, chain_then, chain_append,
}
use tdiscuss.Middleware.Auth.{
  create_or_get_user, auth_middleware, user_enrichment_middleware, board_data_middleware,
}
use tdiscuss.Middleware.Security.{csrf_protection_middleware}
use tdiscuss.Middleware.Setup.{
  main_slot, admin_slot, state_changing, create_public_chain, create_authenticated_chain,
}
use tdiscuss.Routes.Claims.{Claim, Holds, Answers, Holds-weaken}
use tdiscuss.Routes.Rules.{Holds-require_admin, Holds-audit, Holds-board_data, Holds-enrichment}
use tdiscuss.Routes.{serve_route, auth_chain, endpoint_handler}
use tdiscuss.Routes.SignIn.{Holds-auth}
use tdiscuss.Routes.Chains.{csrf-Holds, public-Holds}

-- A claim that does not depend on the user, and that the two queries of the chain keep.
module _ {L : Type 0} (out : Outside L) (Q : Claim) (stay : Answers Q)
    (alike : (r : Request) (u v : Option User) (a b : Db) (p : Reply) → Q r v a p b → Q r u a p b)
    (board_read : (r : Request) (u : Option User) (a b : Db) (p : Reply)
      → Q r u (get_board_data a).1 p b
      → Q r u a p b)
    (signed_in : (r : Request) (u : Option User) (email : Text) (a b : Db) (p : Reply)
      → Q r u (create_or_get_user out.lower email a).1 p b
      → Q r u a p b)
    (svc : Service) (handled : (e : Endpoint) → Holds Q (endpoint_handler {L = L} svc e)) where
  board-Holds : (e : Endpoint) → Holds Q (board_data_middleware (endpoint_handler {L = L} svc e))
  board-Holds e = Holds-board_data Q _ board_read (handled e)

  signed-Holds :
      (next : Handler L)
      → Holds Q next
      → Holds Q (
          auth_middleware out (
            user_enrichment_middleware
              (when (has_method state_changing) (csrf_protection_middleware out) next)))
  signed-Holds next hn =
      Holds-auth Q Q out stay (λ r u email a p ee. signed_in r u email a _ _ (stay r u _ p))
        (λ r u email a v p b ee er eb h. signed_in r u email a b p (alike r u (some v) _ b p h)) _
        (Holds-enrichment Q _ (csrf-Holds out Q stay next hn))

  auth-Holds :
      (dev : Bool) (e : Endpoint) (ex : Exchange) (w : World L)
      → let h = chain_then (auth_chain out dev) (endpoint_handler {L = L} svc e) in
        Q ex.request (get_user ex) w.db (h ex w).0 (h ex w).1.db
  unfolding chain_then create_public_chain create_authenticated_chain chain_append
  auth-Holds dev e =
      public-Holds out Q stay main_slot (λ vs w. refl) (λ r u a b p. alike r u _ a b p) dev _
        (signed-Holds _ (board-Holds e))

  pub serve_route-Holds :
      (dev : Bool) (e : Endpoint) (ex : Exchange) (w : World L)
      → Q ex.request
          (get_user ex)
          w.db
          (serve_route out svc dev e ex w).0
          (serve_route out svc dev e ex w).1.db
  unfolding serve_route
  serve_route-Holds dev Endpoint.admin ex w =
      public-Holds out Q stay admin_slot (λ vs w. refl) (λ r u a b p. alike r u _ a b p) dev _
        (signed-Holds _ (
          Holds-require_admin Q stay _ (
            Holds-audit Q _
              (Holds-weaken _ (λ r u a b p h clear. h) (board-Holds Endpoint.admin)))))
        ex w
  serve_route-Holds dev e ex w = auth-Holds dev e ex w
