-- ===== src/Routes/Setups.antt =====
-- Whom the chains of any setup let in to what stands at their end.
use tdiscuss.Base.{
  ◌≡◌, refl, Bool, true, false, ◌||◌, ◌⊎◌, inl, inr, Option, some, leb, Bool-cases, [], ◌∷◌, ◌++◌,
}
use tdiscuss.Text.{Text}
use tdiscuss.Store.Tables.{Db, row}
use tdiscuss.Web.{User, Request, status}
use tdiscuss.Middleware.Outside.{Outside}
use tdiscuss.Middleware.{
  Exchange, World, Visitors, Reply, answered, panicked, Handler, Middleware, Chain, get_user,
  chain_then,
}
use tdiscuss.Middleware.Auth.{
  get_user_email, create_or_get_user, auth_middleware, user_enrichment_middleware,
}
use tdiscuss.Middleware.Observe.{observability_middleware}
use tdiscuss.Middleware.Setup.{MiddlewareSetup, Slot}
use tdiscuss.Middleware.Api.{
  as_json, json_error_middleware, api_logging_middleware, create_api_chain, added_if,
  api_security_config, api_rate_limit_config,
}
use tdiscuss.Routes.Claims.{Claim, Holds, Answers}
use tdiscuss.Routes.Rules.{
  Holds-request_context, Holds-observability, Holds-security_headers, Holds-size_limit,
  Holds-rate_limit, Holds-enrichment,
}
use tdiscuss.Routes.SignIn.{Holds-auth}

module _ {L : Type 0} (Q : Claim) where
  as_json-keeps :
      (r : Request) (u : Option User) (a : Db) (p : Reply × World L)
      → Q r u a p.0 p.1.db
      → Q r u a (as_json p).0 (as_json p).1.db
  as_json-keeps r u a (answered p, w) h = elim (Bool-cases (leb 400 (status p))) [
    | inl failed ↦ rw failed h
    | inr fine ↦ rw fine h
  ]
  as_json-keeps r u a (panicked, w) h = h

  Holds-json_error : (next : Handler L) → Holds Q next → Holds Q (json_error_middleware next)
  unfolding json_error_middleware
  Holds-json_error next hn = record {
    at = λ ex w c. as_json-keeps ex.request (get_user ex) w.db (next ex w) (hn.at ex w c);
  }

  Holds-api_logging : (next : Handler L) → Holds Q next → Holds Q (api_logging_middleware next)
  unfolding api_logging_middleware
  Holds-api_logging next hn = record { at = hn.at }

  -- A middleware that a setup may leave out.
  Holds-added :
      (b : Bool) (m : Middleware L) (rest : Chain L) (h : Handler L)
      → Holds Q (chain_then rest h)
      → (Holds Q (chain_then rest h) → Holds Q (m (chain_then rest h)))
      → Holds Q (chain_then (added_if b (m ∷ []) ++ rest) h)
  unfolding chain_then
  Holds-added true m rest h hr k = k hr
  Holds-added false m rest h hr k = hr

module _ {L : Type 0} (out : Outside L) where
  -- Nothing; or what the sign-in does and no more; or, after the sign-in of a member who is not
  -- blocked, what `P` says.
  abbrev pub Admitted : Claim → Claim
  Admitted P r u a p b =
      (b ≡ a)
      ⊎ ((email : Text) × (get_user_email out r ≡ some email)
          × ((b ≡ (create_or_get_user out.lower email a).1)
              ⊎ ((v : User) × ((create_or_get_user out.lower email a).0 ≡ row v)
                  × (v.is_blocked ≡ false)
                  × P r (some v) (create_or_get_user out.lower email a).1 p b)))

  Admitted-stay : (P : Claim) → Answers (Admitted P)
  Admitted-stay P r u a p = inl refl

  module _ (P : Claim) (h : Handler L) (hh : Holds P h) where
    signed-Admitted :
        Holds
          (Admitted P)
          (auth_middleware out (user_enrichment_middleware (json_error_middleware h)))
    signed-Admitted =
        Holds-auth P (Admitted P) out (Admitted-stay P)
          (λ r u email a p ee. inr (email, ee, inl refl))
          (λ r u email a v p b ee er eb k. inr (email, ee, inr (v, er, eb, k))) _
          (Holds-enrichment P _ (Holds-json_error P h hh))

    auth-Admitted :
        (b : Bool)
        → b ≡ true
        → Holds (Admitted P) (
            chain_then
              (added_if b (auth_middleware out ∷ user_enrichment_middleware ∷ [])
                ++ json_error_middleware ∷ [])
              h)
    unfolding chain_then
    auth-Admitted b e = rw e signed-Admitted

    -- Whatever the setup, if it has authentication and its limiter does not touch the database,
    -- and whatever stands at the end of the chain of the API and makes `P` true: a request leaves
    -- the database as it was; or does what the sign-in of its login name does and no more; or
    -- signs a member in who is not blocked, and then `P` holds of that user, of the database
    -- after the sign-in and of what is left.
    pub create_api_chain-Admitted :
        (ms : MiddlewareSetup) (slot : Slot L)
        → ((vs : Visitors L) (w : World L) → (slot.write vs w).db ≡ w.db)
        → ms.enable_auth ≡ true
        → (ex : Exchange) (w : World L)
        → let run = chain_then (create_api_chain out ms slot) h ex w in
          Admitted P ex.request (get_user ex) w.db run.0 run.1.db
    unfolding chain_then create_api_chain
    create_api_chain-Admitted ms slot keeps auth ex w =
        let Q = Admitted P in
        let stay = Admitted-stay P in
        Holds-request_context Q _ (λ r u a b p k. k)
          (Holds-added Q (ms.enable_metrics || ms.enable_tracing) observability_middleware _ h
            (Holds-api_logging Q _ (
              Holds-security_headers Q out (api_security_config ms) _ (
                Holds-size_limit Q stay out _ _ (
                  Holds-added Q ms.enable_rate_limit _ _ h (auth-Admitted ms.enable_auth auth)
                    (Holds-rate_limit Q stay out slot (api_rate_limit_config ms) _ keeps)))))
            (Holds-observability Q _))
          ex w
