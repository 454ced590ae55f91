-- ===== src/Routes/Chains.antt =====
-- What the chains keep of a claim that answers meet.
use tdiscuss.Base.{◌≡◌, Bool, Option, none}
use tdiscuss.Store.Tables.{Db}
use tdiscuss.Web.{User, Request}
use tdiscuss.Middleware.Outside.{Outside}
use tdiscuss.Middleware.{
  Exchange, World, Visitors, when, Reply, Handler, get_user, has_method, chain_then,
}
use tdiscuss.Middleware.Security.{default_security_config, csrf_protection_middleware}
use tdiscuss.Middleware.Setup.{Slot, state_changing, create_public_chain}
use tdiscuss.Routes.Claims.{Claim, Holds, Answers}
use tdiscuss.Routes.Rules.{
  Holds-request_context, Holds-logging, Holds-observability, Holds-security_headers, Holds-csrf,
  Holds-when, Holds-size_limit, Holds-rate_limit,
}
use tdiscuss.Routes.{route_setup, route_rate_limits}

module _ {L : Type 0} (out : Outside L) (Q : Claim) (stay : Answers Q) where
  pub csrf-Holds :
      (next : Handler L)
      → Holds Q next
      → Holds Q (when (has_method state_changing) (csrf_protection_middleware out) next)
  csrf-Holds next hn = Holds-when Q stay _ _ next (Holds-csrf Q stay out next hn) hn

  -- The part of the chain before the sign-in, for a claim that does not speak of the user.
  pub public-Holds :
      (slot : Slot L)
      → ((vs : Visitors L) (w : World L) → (slot.write vs w).db ≡ w.db)
      → ((r : Request) (u : Option User) (a b : Db) (p : Reply) → Q r none a p b → Q r u a p b)
      → (dev : Bool) (next : Handler L) → Holds Q next
      → (ex : Exchange) (w : World L)
      → let h = chain_then (create_public_chain out (route_setup dev) slot) next in
        Q ex.request (get_user ex) w.db (h ex w).0 (h ex w).1.db
  unfolding chain_then create_public_chain
  public-Holds slot keeps alike dev next hn ex w =
      Holds-request_context Q _ alike
        (Holds-observability Q _ (
          Holds-logging Q _ (
            Holds-security_headers Q out default_security_config _ (
              Holds-size_limit Q stay out _ _
                (Holds-rate_limit Q stay out slot (route_rate_limits dev) next keeps hn)))))
        ex w
