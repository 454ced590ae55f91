-- ===== src/Routes/Rules.antt =====
-- What a chain keeps: one rule for each middleware, for a claim about the request, its user, the
-- database before, the reply and the database after.
use tdiscuss.Base.{
  ◌≡◌, refl, Bool, true, false, inl, inr, Bool-cases, Option, none, some, ℤ, if◌then◌else◌,
}
use mathlib.Core.Path.{subst}
use tdiscuss.Store.Tables.{Db}
use tdiscuss.Store.Members.{get_board_data}
use tdiscuss.Web.{User, Request, Response}
use tdiscuss.Access.{IsAdmin}
use tdiscuss.Middleware.Outside.{Outside, RateLibrary}
use tdiscuss.Middleware.{
  Exchange, RequestContext, World, Visitors, Reply, answered, panicked, Handler, Middleware,
  get_user, is_admin, modify_context, request_context_middleware, when,
}
use tdiscuss.Middleware.Limits.{
  RateLimitConfig, rate_limit_middleware, too_many_requests, visit, pass_or_refuse, limited,
}
use tdiscuss.Middleware.Security.{
  SecurityConfig, security_headers_middleware, csrf_protection_middleware,
  request_size_limit_middleware, has_body,
}
use tdiscuss.Middleware.Auth.{
  log_refusal, require_admin_middleware, user_enrichment_middleware, board_data_middleware,
}
use tdiscuss.Middleware.Observe.{observability_middleware, logging_middleware, observed, logged}
use tdiscuss.Middleware.Setup.{Slot, admin_audit_middleware, audit, audited, completed}
use tdiscuss.Routes.Claims.{
  Claim, Holds, HasContext, Answers, modify-HasContext, modify-user, admin_IsAdmin,
}

module _ {L : Type 0} (Q : Claim) where
  -- A step before the next handler that leaves database and user alone.
  Holds-modify :
      (next : Handler L) (f : RequestContext → RequestContext)
      → ((rc : RequestContext) → (f rc).user ≡ rc.user)
      → Holds Q next
      → (ex : Exchange) (w : World L) → HasContext ex.context
      → Q ex.request
          (get_user ex)
          w.db
          (next (modify_context f ex) w).0
          (next (modify_context f ex) w).1.db
  Holds-modify next f k hn ex w c =
      subst
        (λ o.
          Q ex.request o w.db (next (modify_context f ex) w).0 (next (modify_context f ex) w).1.db)
        (modify-user f k ex.context)
        (hn.at (modify_context f ex) w (modify-HasContext f ex.context c))

  pub Holds-request_context :
      (next : Handler L)
      → ((r : Request) (u : Option User) (a b : Db) (p : Reply) → Q r none a p b → Q r u a p b)
      → Holds Q next
      → (ex : Exchange) (w : World L)
      → Q ex.request
          (get_user ex)
          w.db
          (request_context_middleware next ex w).0
          (request_context_middleware next ex w).1.db
  unfolding request_context_middleware
  Holds-request_context next k hn ex w = k ex.request (get_user ex) w.db _ _ (hn.at _ w tt)

  logged-keeps :
      (r : Request) (u : Option User) (a : Db) (p : Reply × World L)
      → Q r u a p.0 p.1.db
      → Q r u a (logged p).0 (logged p).1.db
  logged-keeps r u a (answered p, w) h = h
  logged-keeps r u a (panicked, w) h = h

  pub Holds-logging : (next : Handler L) → Holds Q next → Holds Q (logging_middleware next)
  unfolding logging_middleware
  Holds-logging next hn = record {
    at = λ ex w c. logged-keeps ex.request (get_user ex) w.db _ (hn.at ex _ c);
  }

  observed-keeps :
      (r : Request) (u : Option User) (a : Db) (p : Reply × World L)
      → Q r u a p.0 p.1.db
      → Q r u a (observed r p).0 (observed r p).1.db
  observed-keeps r u a (answered p, w) h = h
  observed-keeps r u a (panicked, w) h = h

  completed-keeps :
      (r : Request) (v : User) (u : Option User) (a : Db) (p : Reply × World L)
      → Q r u a p.0 p.1.db
      → Q r u a (completed r v p).0 (completed r v p).1.db
  completed-keeps r v u a (answered p, w) h = h
  completed-keeps r v u a (panicked, w) h = h

  pub Holds-observability :
      (next : Handler L) → Holds Q next → Holds Q (observability_middleware next)
  unfolding observability_middleware
  Holds-observability next hn = record {
    at = λ ex w c.
        observed-keeps ex.request (get_user ex) w.db _ (Holds-modify next _ (λ rc. refl) hn ex _ c);
  }

  pub Holds-security_headers :
      (out : Outside L) (config : SecurityConfig) (next : Handler L)
      → Holds Q next
      → Holds Q (security_headers_middleware out config next)
  unfolding security_headers_middleware
  Holds-security_headers out config next hn = record {
    at = λ ex w c. elim (Bool-cases config.generate_nonce) [
      | inl fresh ↦ rw fresh (Holds-modify next _ (λ rc. refl) hn ex _ c)
      | inr fixed ↦ rw fixed (hn.at ex _ c)
    ];
  }

  -- Middlewares that may answer themselves.
  module _ (stay : Answers Q) where
    pub Holds-csrf :
        (out : Outside L) (next : Handler L)
        → Holds Q next
        → Holds Q (csrf_protection_middleware out next)
    unfolding csrf_protection_middleware
    Holds-csrf out next hn = record {
      at = λ ex w c. elim (Bool-cases (out.is_same_origin ex.request)) [
        | inl same ↦ rw same (hn.at ex w c)
        | inr cross ↦ rw cross (stay ex.request (get_user ex) w.db _)
      ];
    }

    pub Holds-when :
        (condition : Exchange → Bool) (m : Middleware L) (next : Handler L)
        → Holds Q (m next)
        → Holds Q next
        → Holds Q (when condition m next)
    unfolding when
    Holds-when condition m next hm hn = record {
      at = λ ex w c. elim (Bool-cases (condition ex)) [
        | inl met ↦ rw met (hm.at ex w c)
        | inr unmet ↦ rw unmet (hn.at ex w c)
      ];
    }

    limited_size :
        (next : Handler L) (hn : Holds Q next) (ex : Exchange) (w : World L)
        → HasContext ex.context
        → (small : Bool) (p : Response)
        → Q ex.request
            (get_user ex)
            w.db
            (if small then (answered p, w) else next ex w).0
            (if small then (answered p, w) else next ex w).1.db
    limited_size next hn ex w c true p = stay ex.request (get_user ex) w.db p
    limited_size next hn ex w c false p = hn.at ex w c

    pub Holds-size_limit :
        (out : Outside L) (max_size : ℤ) (next : Handler L)
        → Holds Q next
        → Holds Q (request_size_limit_middleware out max_size next)
    unfolding request_size_limit_middleware
    Holds-size_limit out max_size next hn = record {
      at = λ ex w c. elim (Bool-cases (has_body ex.request.method)) [
        | inl with_body ↦ rw with_body (limited_size next hn ex w c _ _)
        | inr bare ↦ rw bare (hn.at ex w c)
      ];
    }

    pass-keeps :
        (lib : RateLibrary L) (config : RateLimitConfig) (next : Handler L) (ex : Exchange)
        → Holds Q next
        → HasContext ex.context
        → (allowed : Bool) (l : L) (a : Db) (w : World L) → w.db ≡ a
        → Q ex.request
            (get_user ex)
            a
            (pass_or_refuse lib config next ex allowed l w).0
            (pass_or_refuse lib config next ex allowed l w).1.db
    pass-keeps lib config next ex hn c true l a w e =
        subst
          (λ d.
            Q ex.request (get_user ex) d (next ex (limited lib config l w)).0
              (next ex (limited lib config l w)).1.db)
          e (hn.at ex (limited lib config l w) c)
    pass-keeps lib config next ex hn c false l a w e =
        subst (λ d. Q ex.request (get_user ex) d (answered too_many_requests) w.db) e
          (stay ex.request (get_user ex) w.db too_many_requests)

    pub Holds-rate_limit :
        (out : Outside L) (slot : Slot L) (config : RateLimitConfig) (next : Handler L)
        → ((vs : Visitors L) (w : World L) → (slot.write vs w).db ≡ w.db)
        → Holds Q next
        → Holds Q (rate_limit_middleware out.rate slot.read slot.write config next)
    unfolding rate_limit_middleware
    Holds-rate_limit out slot config next keeps hn = record {
      at = λ ex w c.
          let (allowed, v, vs) = visit out.rate config ex w.db.now (slot.read w) in
          pass-keeps out.rate config next ex hn c allowed v.limiter w.db (slot.write vs w)
            (keeps vs w);
    }

    refused-keeps :
        (r : Request) (u : Option User) (w : World L) (p : Response)
        → Q r u w.db (answered p) (log_refusal u w).db
    refused-keeps r none w p = stay r none w.db p
    refused-keeps r (some u) w p = stay r (some u) w.db p

    pub Holds-require_admin :
        (next : Handler L)
        → Holds (λ r u a p b. IsAdmin u → Q r u a p b) next
        → Holds Q (require_admin_middleware next)
    unfolding require_admin_middleware
    Holds-require_admin next hn = record {
      at = λ ex w c. elim (Bool-cases (is_admin ex)) [
        | inl admin ↦ rw admin (hn.at ex w c (admin_IsAdmin (get_user ex) admin))
        | inr other ↦ rw other (refused-keeps ex.request (get_user ex) w _)
      ];
    }

  audit-keeps :
      (next : Handler L) (hn : Holds (λ r u a p b. IsAdmin u → Q r u a p b) next) (ex : Exchange)
      (w : World L)
      → HasContext ex.context
      → (o : Option User) → get_user ex ≡ o
      → IsAdmin o
      → Q ex.request o w.db (audit next ex o w).0 (audit next ex o w).1.db
  audit-keeps next hn ex w c none e h = elim h [ ]
  audit-keeps next hn ex w c (some u) e h =
      let w' = audited ex.request u w in
      let (p, w'') = next ex w' in
      completed-keeps ex.request u (some u) w.db (p, w'')
        (subst (λ o. IsAdmin o → Q ex.request o w.db p w''.db) e (hn.at ex w' c) h)

  pub Holds-audit :
      (next : Handler L)
      → Holds (λ r u a p b. IsAdmin u → Q r u a p b) next
      → Holds (λ r u a p b. IsAdmin u → Q r u a p b) (admin_audit_middleware next)
  unfolding admin_audit_middleware
  Holds-audit next hn = record { at = λ ex w c. audit-keeps next hn ex w c (get_user ex) refl }

  pub Holds-board_data :
      (next : Handler L)
      → ((r : Request) (u : Option User) (a b : Db) (p : Reply)
          → Q r u (get_board_data a).1 p b
          → Q r u a p b)
      → Holds Q next
      → Holds Q (board_data_middleware next)
  unfolding board_data_middleware
  Holds-board_data next k hn = record {
    at = λ ex w c. k ex.request (get_user ex) w.db _ _ (hn.at _ _ c);
  }

  pub Holds-enrichment :
      (next : Handler L) → Holds Q next → Holds Q (user_enrichment_middleware next)
  unfolding user_enrichment_middleware
  Holds-enrichment next hn = record { at = hn.at }
