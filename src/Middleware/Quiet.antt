-- ===== src/Middleware/Quiet.antt =====
-- Which headers a middleware leaves as they are.
use tdiscuss.Base.{
  ◌≡◌, refl, ap, ◌∙◌, String, Bool, true, false, [], ◌∷◌, if◌then◌else◌, Option, none, some, ℤ,
  Bool-cases, inl, inr, arith, ℕ,
}
use tdiscuss.Text.{Text}
use tdiscuss.Store.Tables.{Answer, row, no_rows, db_error}
use tdiscuss.Web.{User, Request, Response, value_of}
use tdiscuss.Middleware.Outside.{Outside, RateLibrary}
use tdiscuss.Middleware.{
  Exchange, World, Visitors, Reply, answered, panicked, Headers, Handler, Middleware, put_header,
  get_user, is_admin, when,
}
use tdiscuss.Middleware.Limits.{
  RateLimitConfig, rate_limit_middleware, visit, pass_or_refuse, limited, add_rate_limit_headers,
  handle_rate_limit_exceeded, retry_header,
}
use tdiscuss.Middleware.Security.{
  csrf_protection_middleware, request_size_limit_middleware, has_body,
}
use tdiscuss.Middleware.Auth.{
  get_user_email, create_or_get_user, sign_in, look_up, admit_unless, auth_middleware, log_refusal,
  require_admin_middleware, user_enrichment_middleware, board_data_middleware,
}
use tdiscuss.Middleware.Setup.{Slot, admin_audit_middleware, audit, audited, completed}
use text.Mathlib.Text.{◌==◌ as str_eq}
use text.Mathlib.TextEquality.{eq_iff}

-- A header is what was put last.
pub value_of-put :
    (k j : String) (v : Text) (hs : Headers)
    → value_of k (put_header j v hs) ≡ (if str_eq j k then v else value_of k hs)
unfolding value_of put_header
value_of-put k j v [] = refl
value_of-put k j v ((i, w) ∷ hs) =
    ground (arith, eq_iff j k, eq_iff i j, eq_iff i k, value_of-put k j v hs)

pub value_of-put_self : (k : String) (v : Text) (hs : Headers) → value_of k (put_header k v hs) ≡ v
value_of-put_self k v hs = value_of-put k k v hs ∙ rw ((eq_iff k k).1 refl) refl

pub value_of-put_ne :
    (k j : String) (v : Text) (hs : Headers)
    → str_eq j k ≡ false
    → value_of k (put_header j v hs) ≡ value_of k hs
value_of-put_ne k j v hs ne = value_of-put k j v hs ∙ rw ne refl

-- The header is none of those that the limiters set.
pub record Apart (k : String) : Type 0 where
  pub limit : str_eq "X-RateLimit-Limit" k ≡ false
  pub remaining : str_eq "X-RateLimit-Remaining" k ≡ false
  pub reset : str_eq "X-RateLimit-Reset" k ≡ false
  pub policy : str_eq "X-RateLimit-Policy" k ≡ false
  pub retry : str_eq "Retry-After" k ≡ false

module _ {L : Type 0} (k : String) where
  -- The handler leaves the header as it finds it.
  pub record Quiet (h : Handler L) : Type 0 where
    pub at : (ex : Exchange) (w : World L) → value_of k (h ex w).1.headers ≡ value_of k w.headers

  pub Quiet-board_data : (next : Handler L) → Quiet next → Quiet (board_data_middleware next)
  unfolding board_data_middleware
  Quiet-board_data next q = record { at = λ ex w. q.at _ _ }

  pub Quiet-enrichment : (next : Handler L) → Quiet next → Quiet (user_enrichment_middleware next)
  unfolding user_enrichment_middleware
  Quiet-enrichment next q = record { at = q.at }

  pub Quiet-when :
      (condition : Exchange → Bool) (m : Middleware L) (next : Handler L)
      → Quiet (m next)
      → Quiet next
      → Quiet (when condition m next)
  unfolding when
  Quiet-when condition m next qm q = record {
    at = λ ex w. elim (Bool-cases (condition ex)) [
      | inl met ↦ rw met (qm.at ex w)
      | inr unmet ↦ rw unmet (q.at ex w)
    ];
  }

  pub Quiet-csrf :
      (out : Outside L) (next : Handler L)
      → Quiet next
      → Quiet (csrf_protection_middleware out next)
  unfolding csrf_protection_middleware
  Quiet-csrf out next q = record {
    at = λ ex w. elim (Bool-cases (out.is_same_origin ex.request)) [
      | inl same ↦ rw same (q.at ex w)
      | inr cross ↦ rw cross refl
    ];
  }

  refused-quiet :
      (u : Option User) (w : World L) → value_of k (log_refusal u w).headers ≡ value_of k w.headers
  refused-quiet none w = refl
  refused-quiet (some u) w = refl

  pub Quiet-require_admin : (next : Handler L) → Quiet next → Quiet (require_admin_middleware next)
  unfolding require_admin_middleware
  Quiet-require_admin next q = record {
    at = λ ex w. elim (Bool-cases (is_admin ex)) [
      | inl admin ↦ rw admin (q.at ex w)
      | inr other ↦ rw other (refused-quiet (get_user ex) w)
    ];
  }

  completed-quiet :
      (r : Request) (u : User) (p : Reply × World L)
      → value_of k (completed r u p).1.headers ≡ value_of k p.1.headers
  completed-quiet r u (answered p, w) = refl
  completed-quiet r u (panicked, w) = refl

  audit-Quiet :
      (next : Handler L)
      → Quiet next
      → (ex : Exchange) (o : Option User) (w : World L)
      → value_of k (audit next ex o w).1.headers ≡ value_of k w.headers
  audit-Quiet next q ex none w = refl
  audit-Quiet next q ex (some u) w =
      completed-quiet ex.request u (next ex (audited ex.request u w))
      ∙ q.at ex (audited ex.request u w)

  pub Quiet-audit : (next : Handler L) → Quiet next → Quiet (admin_audit_middleware next)
  unfolding admin_audit_middleware
  Quiet-audit next q = record { at = λ ex w. audit-Quiet next q ex (get_user ex) w }

  admit-Quiet :
      (out : Outside L) (next : Handler L)
      → Quiet next
      → (blocked : Bool) (ex : Exchange) (u : User) (w : World L)
      → value_of k (admit_unless out blocked next ex u w).1.headers ≡ value_of k w.headers
  admit-Quiet out next q true ex u w = refl
  admit-Quiet out next q false ex u w = q.at _ w

  look_up-Quiet :
      (out : Outside L) (next : Handler L)
      → Quiet next
      → (ex : Exchange) (a : Answer User) (w : World L)
      → value_of k (look_up out next ex a w).1.headers ≡ value_of k w.headers
  look_up-Quiet out next q ex (row u) w = admit-Quiet out next q u.is_blocked ex u w
  look_up-Quiet out next q ex no_rows w = refl
  look_up-Quiet out next q ex db_error w = refl

  sign_in-Quiet :
      (out : Outside L) (next : Handler L)
      → Quiet next
      → (ex : Exchange) (o : Option Text) (w : World L)
      → value_of k (sign_in out next ex o w).1.headers ≡ value_of k w.headers
  sign_in-Quiet out next q ex none w = refl
  sign_in-Quiet out next q ex (some email) w =
      let (a, db) = create_or_get_user out.lower email w.db in
      look_up-Quiet out next q ex a (record w { db = db })

  pub Quiet-auth :
      (out : Outside L) (next : Handler L) → Quiet next → Quiet (auth_middleware out next)
  unfolding auth_middleware
  Quiet-auth out next q = record {
    at = λ ex w. sign_in-Quiet out next q ex (get_user_email out ex.request) w;
  }

  limited-size-Quiet :
      (next : Handler L) (p : Response)
      → Quiet next
      → (b : Bool) (ex : Exchange) (w : World L)
      → value_of k (if b then (answered p, w) else next ex w).1.headers ≡ value_of k w.headers
  limited-size-Quiet next p q true ex w = refl
  limited-size-Quiet next p q false ex w = q.at ex w

  pub Quiet-size_limit :
      (out : Outside L) (max_size : ℤ) (next : Handler L)
      → Quiet next
      → Quiet (request_size_limit_middleware out max_size next)
  unfolding request_size_limit_middleware
  Quiet-size_limit out max_size next q = record {
    at = λ ex w. elim (Bool-cases (has_body ex.request.method)) [
      | inl body ↦ rw body (limited-size-Quiet next _ q _ ex w)
      | inr bare ↦ rw bare (q.at ex w)
    ];
  }

  module _ (apart : Apart k) (lib : RateLibrary L) (config : RateLimitConfig) where
    added-quiet :
        (now : ℕ) (l : L) (hs : Headers)
        → value_of k (add_rate_limit_headers lib now l hs) ≡ value_of k hs
    added-quiet now l hs =
        value_of-put_ne k "X-RateLimit-Policy" _ _ apart.policy
        ∙ value_of-put_ne k "X-RateLimit-Reset" _ _ apart.reset
        ∙ value_of-put_ne k "X-RateLimit-Remaining" _ _ apart.remaining
        ∙ value_of-put_ne k "X-RateLimit-Limit" _ hs apart.limit

    retry-quiet : (o : Option ℕ) (hs : Headers) → value_of k (retry_header lib o hs) ≡ value_of k hs
    retry-quiet none hs = refl
    retry-quiet (some delay) hs = value_of-put_ne k "Retry-After" _ hs apart.retry

    limited-quiet :
        (l : L) (w : World L) → value_of k (limited lib config l w).headers ≡ value_of k w.headers
    limited-quiet l w = elim (Bool-cases config.include_headers) [
      | inl shown ↦ rw shown (added-quiet w.db.now l w.headers)
      | inr hidden ↦ rw hidden refl
    ]

    exceeded-quiet :
        (ex : Exchange) (l : L) (w : World L)
        → value_of k (handle_rate_limit_exceeded lib config ex l w).1.headers ≡ value_of k w.headers
    exceeded-quiet ex l w = elim (Bool-cases config.include_headers) [
      | inl shown ↦
          rw shown (retry-quiet (lib.retry_after w.db.now l) _ ∙ added-quiet w.db.now l w.headers)
      | inr hidden ↦ rw hidden refl
    ]

    pass-Quiet :
        (next : Handler L)
        → Quiet next
        → (allowed : Bool) (ex : Exchange) (l : L) (w : World L)
        → value_of k (pass_or_refuse lib config next ex allowed l w).1.headers
          ≡ value_of k w.headers
    pass-Quiet next q true ex l w = q.at ex (limited lib config l w) ∙ limited-quiet l w
    pass-Quiet next q false ex l w = exceeded-quiet ex l w

    pub Quiet-rate_limit :
        (slot : Slot L) (next : Handler L)
        → ((vs : Visitors L) (w : World L) → (slot.write vs w).headers ≡ w.headers)
        → Quiet next
        → Quiet (rate_limit_middleware lib slot.read slot.write config next)
    unfolding rate_limit_middleware
    Quiet-rate_limit slot next keeps q = record {
      at = λ ex w.
          let (allowed, v, vs) = visit lib config ex w.db.now (slot.read w) in
          pass-Quiet next q allowed ex v.limiter (slot.write vs w) ∙ ap (value_of k) (keeps vs w);
    }
