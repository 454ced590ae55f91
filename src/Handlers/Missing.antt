-- ===== src/Handlers/Missing.antt =====
-- The answer 404 where the service is given the traced queries.
use tdiscuss.Base.{
  ℕ, ◌≡◌, ◌≢◌, Bool, true, false, List, [], ◌∷◌, Option, none, some, arith, Bool-cases, inl, inr,
}
use mathlib.Core.Path.{subst, sym}
use tdiscuss.Text.{Text}
use tdiscuss.Validation.{ValidationError}
use tdiscuss.Store.Tables.{Db, Answer, row, no_rows, db_error, Query}
use tdiscuss.Web.{
  Request, Response, Service, Page, Method, Queries, traced_queries, status, redirect,
}
use tdiscuss.Web.Action.{
  Action, Outcome, done, stop, follow, pure, fail, ◌>>=◌, require, or_error, choose, reject,
  answered, seen, ask, ask_or_404, ask_or, get_user, render, serve, response,
}
use tdiscuss.Handlers.Edit
use tdiscuss.Handlers.Edit.{
  when_changed, save_thread, edit_thread_post_method, edit_thread_get, edit_thread_handler,
  edit_post_post, edit_post_get, edit_thread_post_handler,
}
use tdiscuss.Handlers.Show.{list_thread_posts_handler, list_member}

-- The run is not stopped by a 404.
abbrev Fine : {A : Type 0} → Outcome A → Type 0
Fine (done a) = Unit
Fine (stop r) = status r ≢ 404

record Avoids {A : Type 0} (m : Action A) : Type 0 where
  at : (db : Db) → Fine (m db).0

-- The whole run does not end in a 404.
record Never (m : Action Response) : Type 0 where
  at : (db : Db) → status (response (m db).0) ≢ 404

Avoids-require : (b : Bool) (code : ℕ) → code ≢ 404 → Avoids (require b code)
unfolding require status
Avoids-require true code h = record { at = λ db. tt }
Avoids-require false code h = record { at = λ db. h }

Avoids-reject : (es : List ValidationError) → Avoids (reject es)
unfolding reject status
Avoids-reject [] = record { at = λ db. tt }
Avoids-reject (e ∷ es) = record { at = λ db. omega arith }

module _ {A : Type 0} where
  Avoids-or_error : (o : Option A) (code : ℕ) → code ≢ 404 → Avoids (or_error o code)
  unfolding or_error status
  Avoids-or_error none code h = record { at = λ db. h }
  Avoids-or_error (some a) code h = record { at = λ db. tt }

  answered-Fine : (a : Answer A) → Fine (answered 500 a)
  unfolding status
  answered-Fine (row a) = tt
  answered-Fine no_rows = omega arith
  answered-Fine db_error = omega arith

  seen-Fine : (a : Answer A) → Fine (answered 404 (seen traced_queries a))
  unfolding status
  seen-Fine (row a) = tt
  seen-Fine no_rows = omega arith
  seen-Fine db_error = omega arith

  Avoids-ask : (q : Query A) → Avoids (ask q)
  unfolding ask
  Avoids-ask q = record { at = λ db. answered-Fine (q db).0 }

  Avoids-ask_or_404 : (s : Queries) (q : Query A) → s ≡ traced_queries → Avoids (ask_or_404 s q)
  unfolding ask_or_404
  Avoids-ask_or_404 s q e = record {
    at = λ db. subst (λ t. Fine (answered 404 (seen t (q db).0))) (sym e) (seen-Fine (q db).0);
  }

  Avoids-ask_or : (a : A) (q : Query A) → Avoids (ask_or a q)
  unfolding ask_or
  Avoids-ask_or a q = record { at = λ db. tt }

Avoids-get_user : (r : Request) → Avoids (get_user r)
unfolding get_user
Avoids-get_user r = Avoids-or_error r.user 500 (omega arith)

Avoids-choose :
    {A : Type 0} (b : Bool) (m n : Action A) → Avoids m → Avoids n → Avoids (choose b m n)
unfolding choose
Avoids-choose true m n km kn = km
Avoids-choose false m n km kn = kn

follow-Fine :
    {A B : Type 0} (o : Outcome A) (f : A → Action B) (db : Db)
    → Fine o
    → ((a : A) → Avoids (f a))
    → Fine (follow o f db).0
follow-Fine (done a) f db h k = (k a).at db
follow-Fine (stop r) f db h k = h

Avoids-bind :
    {A B : Type 0} (m : Action A) (f : A → Action B)
    → Avoids m
    → ((a : A) → Avoids (f a))
    → Avoids (m >>= f)
unfolding ◌>>=◌
Avoids-bind m f km kf = record {
  at = λ db. let (o, db') = m db in follow-Fine o f db' (km.at db) kf;
}

follow-Never :
    {A : Type 0} (o : Outcome A) (f : A → Action Response) (db : Db)
    → Fine o
    → ((a : A) → Never (f a))
    → status (response (follow o f db).0) ≢ 404
follow-Never (done a) f db h k = (k a).at db
follow-Never (stop r) f db h k = h

Never-bind :
    {A : Type 0} (m : Action A) (f : A → Action Response)
    → Avoids m
    → ((a : A) → Never (f a))
    → Never (m >>= f)
unfolding ◌>>=◌
Never-bind m f km kf = record {
  at = λ db. let (o, db') = m db in follow-Never o f db' (km.at db) kf;
}

Never-render : (svc : Service) (p : Page) → Never (render svc p)
unfolding render status
Never-render svc p = record {
  at = λ db. elim (Bool-cases (svc.renders p)) [
    | inl good ↦ rw good (omega arith)
    | inr bad ↦ rw bad (omega arith)
  ];
}

Never-redirect : (to : Text) → Never (pure (redirect to))
unfolding pure status
Never-redirect to = record { at = λ db. omega arith }

by_method-Never :
    (m : Method) (a b : Action Response) → Never a → Never b → Never (Edit.by_method m a b)
unfolding fail status
by_method-Never Method.get a b ka kb = ka
by_method-Never Method.post a b ka kb = kb
by_method-Never _ a b ka kb = record { at = λ db. omega arith }

module _ (svc : Service) (r : Request) (traced : svc.queries ≡ traced_queries) where
  thread-Never : Never (list_thread_posts_handler svc r)
  unfolding list_thread_posts_handler
  thread-Never = Never-bind _ _ (Avoids-require _ 405 (omega arith)) λ _.
      Never-bind _ _ (Avoids-or_error _ 400 (omega arith)) λ id.
        Never-bind _ _ (Avoids-get_user r) λ user.
          Never-bind _ _ (Avoids-ask_or_404 _ _ traced)
            λ subject. Never-bind _ _ (Avoids-ask _) λ posts. Never-render svc _

  member-Never : Never (list_member svc r)
  unfolding list_member
  member-Never = Never-bind _ _ (Avoids-require _ 405 (omega arith)) λ _.
      Never-bind _ _ (Avoids-or_error _ 400 (omega arith)) λ id.
        Never-bind _ _ (Avoids-get_user r) λ user.
          Never-bind _ _ (Avoids-ask_or_404 _ _ traced)
            λ m. Never-bind _ _ (Avoids-ask_or _ _) λ threads. Never-render svc _

  when-Avoids : (b : Bool) (q : Query Unit) → Avoids (when_changed b (ask q))
  unfolding when_changed pure
  when-Avoids b q = Avoids-choose b _ _ (Avoids-ask q) (record { at = λ db. tt })

  thread_form-Never : Never (edit_thread_handler svc r)
  unfolding edit_thread_handler edit_thread_get edit_thread_post_method save_thread
  thread_form-Never =
      by_method-Never r.method _ _
        (Never-bind _ _ (Avoids-get_user r) λ user.
          Never-bind _ _ (Avoids-or_error _ 400 (omega arith))
            λ id. Never-bind _ _ (Avoids-ask_or_404 _ _ traced) λ t. Never-render svc _)
        (Never-bind _ _ (Avoids-require _ 400 (omega arith)) λ _.
          Never-bind _ _ (Avoids-require _ 400 (omega arith)) λ _.
            Never-bind _ _ (Avoids-get_user r) λ user. Never-bind _ _ (Avoids-reject _) λ _.
              Never-bind _ _ (Avoids-or_error _ 400 (omega arith)) λ id.
                Never-bind _ _ (Avoids-ask_or_404 _ _ traced) λ t.
                  Never-bind _ _ (Avoids-bind _ _ (when-Avoids _ _) λ _. when-Avoids _ _)
                    λ _. Never-redirect _)

  post_form-Never : Never (edit_thread_post_handler svc r)
  unfolding edit_thread_post_handler edit_post_get edit_post_post
  post_form-Never =
      by_method-Never r.method _ _
        (Never-bind _ _ (Avoids-get_user r) λ user.
          Never-bind _ _ (Avoids-or_error _ 400 (omega arith)) λ tid.
            Never-bind _ _ (Avoids-or_error _ 400 (omega arith))
              λ id. Never-bind _ _ (Avoids-ask_or_404 _ _ traced) λ t. Never-render svc _)
        (Never-bind _ _ (Avoids-get_user r) λ user.
          Never-bind _ _ (Avoids-require _ 400 (omega arith)) λ _.
            Never-bind _ _ (Avoids-reject _) λ _.
              Never-bind _ _ (Avoids-or_error _ 400 (omega arith)) λ id.
                Never-bind _ _ (Avoids-ask_or_404 _ _ traced)
                  λ tp. Never-bind _ _ (when-Avoids _ _) λ _. Never-redirect _)

-- With the traced queries, which main.go gives the service, no page of a thread, of a member, for
-- editing a thread or for editing a post answers 404, whatever the request and the tables, and so
-- not for a number that is not there either.
pub traced_never_404 :
    (svc : Service) (r : Request) (db : Db)
    → svc.queries ≡ traced_queries
    → (status (serve (list_thread_posts_handler svc r) db).0 ≢ 404)
      × (status (serve (list_member svc r) db).0 ≢ 404)
      × (status (serve (edit_thread_handler svc r) db).0 ≢ 404)
      × (status (serve (edit_thread_post_handler svc r) db).0 ≢ 404)
unfolding serve
traced_never_404 svc r db traced = (
  (thread-Never svc r traced).at db,
  (member-Never svc r traced).at db,
  (thread_form-Never svc r traced).at db,
  (post_form-Never svc r traced).at db,
)
