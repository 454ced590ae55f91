-- ===== src/Access/Atomic.antt =====
-- The creation of a thread with its first post is one step.
use tdiscuss.Base.{◌≡◌, refl, ◌⊎◌, inl, inr, Bool-cases}
use tdiscuss.Store.Tables.{Db, next_fault, spent}
use tdiscuss.Text.{Text}
use tdiscuss.Handlers.{thread_path}
use tdiscuss.Web.{Request, Response, Service, status, redirect}
use tdiscuss.Web.Action.{
  Action, pure, ◌>>=◌, serve, Outcome, done, stop, follow, response, transaction, finish,
}
use tdiscuss.Web.Keeps.{Keeps, Keeps-require, Keeps-reject, Keeps-get_user}
use tdiscuss.Handlers.Create.{create_thread_handler}
use tdiscuss.Access.Safe.{
  Unchanged, Unchanged-rolled_back, Unchanged-refl, Unchanged-trans, order, faults,
}

abbrev Still : {A : Type 0} → Action A → Type 0
Still m = Keeps Unchanged m

-- A run that ends in a redirect or leaves the tables alone.
abbrev Settled : Db → Outcome Response × Db → Type 0
Settled db p = Unchanged db p.1 ⊎ (status (response p.0) ≡ 303)

record Atomic (m : Action Response) : Type 0 where
  at : (db : Db) → Settled db (m db)

Settled-after : (a b : Db) (p : Outcome Response × Db) → Unchanged a b → Settled b p → Settled a p
Settled-after a b p h (inl k) = inl (Unchanged-trans a b p.1 h k)
Settled-after a b p h (inr k) = inr k

follow-Atomic :
    {A : Type 0} (o : Outcome A) (f : A → Action Response)
    → ((a : A) → Atomic (f a))
    → Atomic (follow o f)
follow-Atomic (done a) f k = k a
follow-Atomic (stop r) f k = record { at = λ db. inl (Unchanged-refl db) }

bind-Atomic :
    {A : Type 0} (m : Action A) (f : A → Action Response)
    → Still m
    → ((a : A) → Atomic (f a))
    → Atomic (m >>= f)
unfolding ◌>>=◌
bind-Atomic m f km kf = record {
  at = λ db.
      let (o, db') = m db in
      Settled-after db db' (follow o f db') (km.at db) ((follow-Atomic o f kf).at db');
}

-- A transaction whose success is answered by a redirect.
module _ {A : Type 0} (to : A → Text) where
  abbrev redirected : Db → Outcome A → Db → Outcome Response × Db
  redirected before o db =
      let (o', db') = finish before o db in follow o' (λ a. pure (redirect (to a))) db'

  finish-Settled : (before : Db) (o : Outcome A) (db : Db) → Settled before (redirected before o db)
  unfolding pure status
  finish-Settled before (stop r) db = inl (Unchanged-rolled_back before db)
  finish-Settled before (done a) db = elim (Bool-cases (next_fault db.faults)) [
    | inl broken ↦ rw broken (inl (Unchanged-rolled_back before (spent db)))
    | inr fine ↦ rw fine (inr refl)
  ]

  transaction-Atomic : (m : Action A) → Atomic (transaction m >>= λ a. pure (redirect (to a)))
  unfolding ◌>>=◌ transaction
  transaction-Atomic m = record {
    at = λ db. elim (Bool-cases (next_fault db.faults)) [
      | inl broken ↦ rw broken (inl (faults.passed db))
      | inr fine ↦ rw fine (
          let (o, db') = m (spent db) in
          Settled-after db (spent db) (redirected (spent db) o db') (faults.passed db)
            (finish-Settled (spent db) o db'))
    ];
  }

creation-Atomic : (svc : Service) (r : Request) → Atomic (create_thread_handler svc r)
unfolding create_thread_handler
creation-Atomic svc r = bind-Atomic _ _ (Keeps-require order _ _) λ _.
    bind-Atomic _ _ (Keeps-require order _ _) λ _. bind-Atomic _ _ (Keeps-get_user order r) λ user.
      bind-Atomic _ _ (Keeps-require order _ _)
        λ _. bind-Atomic _ _ (Keeps-reject order _) λ _. transaction-Atomic thread_path _

-- The creation of a thread with its first post is all or nothing: whatever the request, the state
-- and the failing calls, either the answer is a redirect or all five tables are as they were.
pub create_thread_handler-atomic :
    (svc : Service) (r : Request) (db : Db)
    → Unchanged db (serve (create_thread_handler svc r) db).1
      ⊎ (status (serve (create_thread_handler svc r) db).0 ≡ 303)
unfolding serve
create_thread_handler-atomic svc r db = (creation-Atomic svc r).at db
