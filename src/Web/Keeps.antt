-- ===== src/Web/Keeps.antt =====
-- Relations between the database before and after a run, one rule for each way to build one.
use tdiscuss.Base.{
  ℕ, ◌≡◌, refl, inl, inr, Bool-cases, Bool, true, false, List, [], ◌∷◌, Option, none, some,
}
use tdiscuss.Validation.{ValidationError}
use tdiscuss.Store.Tables.{Db, Query, spent, next_fault, call, one, many, exec}
use tdiscuss.Web.{Queries, User, Request, Response, Service, Page}
use tdiscuss.Web.Action.{
  choose, Action, Outcome, done, stop, pure, fail, ◌>>=◌, follow, require, or_error, reject, ask,
  ask_or_404, ask_or, rolled_back, finish, transaction, get_user, render, serve,
}

-- `R` holds of the database before and after, whatever the outcome.
pub record Keeps {A : Type 0} (R : Db → Db → Type 0) (m : Action A) : Type 0 where
  pub at : (db : Db) → R db (m db).1

pub record KeepsQuery {A : Type 0} (R : Db → Db → Type 0) (q : Query A) : Type 0 where
  pub at : (db : Db) → R db (q db).1

-- Relations that hold of doing nothing, and of one run after another.
pub record IsPreorder (R : Db → Db → Type 0) : Type 0 where
  pub same : (db : Db) → R db db
  pub after : (a b c : Db) → R a b → R b c → R a c

module _ {R : Db → Db → Type 0} (order : IsPreorder R) where
  pub Keeps-pure : {A : Type 0} (a : A) → Keeps R (pure a)
  unfolding pure
  Keeps-pure a = record { at = order.same }

  pub Keeps-fail : {A : Type 0} (r : Response) → Keeps R (fail {A = A} r)
  unfolding fail
  Keeps-fail r = record { at = order.same }

  pub Keeps-require : (b : Bool) (code : ℕ) → Keeps R (require b code)
  unfolding require
  Keeps-require true code = record { at = order.same }
  Keeps-require false code = record { at = order.same }

  pub Keeps-or_error : {A : Type 0} (o : Option A) (code : ℕ) → Keeps R (or_error o code)
  unfolding or_error
  Keeps-or_error none code = record { at = order.same }
  Keeps-or_error (some a) code = record { at = order.same }

  pub Keeps-reject : (es : List ValidationError) → Keeps R (reject es)
  unfolding reject
  Keeps-reject [] = record { at = order.same }
  Keeps-reject (e ∷ es) = record { at = order.same }

  pub Keeps-get_user : (r : Request) → Keeps R (get_user r)
  unfolding get_user
  Keeps-get_user r = Keeps-or_error r.user 500

  pub Keeps-render : (svc : Service) (p : Page) → Keeps R (render svc p)
  unfolding render
  Keeps-render svc p = record { at = order.same }

  pub Keeps-follow :
      {A B : Type 0} (o : Outcome A) (f : A → Action B)
      → ((a : A) → Keeps R (f a))
      → Keeps R (follow o f)
  Keeps-follow (done a) f k = k a
  Keeps-follow (stop r) f k = record { at = order.same }

  pub Keeps-bind :
      {A B : Type 0} (m : Action A) (f : A → Action B)
      → Keeps R m
      → ((a : A) → Keeps R (f a))
      → Keeps R (m >>= f)
  unfolding ◌>>=◌
  Keeps-bind m f km kf = record {
    at = λ db.
        let (o, db') = m db in
        order.after db db' (follow o f db').1 (km.at db) ((Keeps-follow o f kf).at db');
  }

  -- The rest of the block may use that the user was found.
  pub Keeps-bind-get_user :
      {B : Type 0} (r : Request) (f : User → Action B)
      → ((u : User) → r.user ≡ some u → Keeps R (f u))
      → Keeps R (get_user r >>= f)
  unfolding ◌>>=◌ get_user or_error
  Keeps-bind-get_user r f k = found r.user refl
    where
      found : (o : Option User) → r.user ≡ o → Keeps R (or_error o 500 >>= f)
      found none e = record { at = order.same }
      found (some u) e = k u e

  pub Keeps-bind-require :
      {B : Type 0} (b : Bool) (code : ℕ) (f : Unit → Action B)
      → (b ≡ true → Keeps R (f tt))
      → Keeps R (require b code >>= f)
  unfolding ◌>>=◌ require
  Keeps-bind-require true code f k = k refl
  Keeps-bind-require false code f k = record { at = order.same }

module _ {R : Db → Db → Type 0} where
  pub Keeps-choose :
      {A : Type 0} (b : Bool) (m n : Action A) → Keeps R m → Keeps R n → Keeps R (choose b m n)
  unfolding choose
  Keeps-choose true m n km kn = km
  Keeps-choose false m n km kn = kn

  module _ {A : Type 0} where
    pub Keeps-ask : (q : Query A) → KeepsQuery R q → Keeps R (ask q)
    unfolding ask
    Keeps-ask q k = record { at = k.at }

    pub Keeps-ask_or_404 :
        (queries : Queries) (q : Query A) → KeepsQuery R q → Keeps R (ask_or_404 queries q)
    unfolding ask_or_404
    Keeps-ask_or_404 queries q k = record { at = k.at }

    pub Keeps-ask_or : (a : A) (q : Query A) → KeepsQuery R q → Keeps R (ask_or a q)
    unfolding ask_or
    Keeps-ask_or a q k = record { at = k.at }

  pub Keeps-serve : (m : Action Response) → Keeps R m → (db : Db) → R db (serve m db).1
  unfolding serve
  Keeps-serve m k = k.at

-- Relations that a failed call keeps, and the rollback of a run that keeps them.
pub record AllowsFaults (R : Db → Db → Type 0) : Type 0 where
  pub order : IsPreorder R
  pub passed : (db : Db) → R db (spent db)
  pub undone : (before db : Db) → R before db → R before (rolled_back before db)

module _ {R : Db → Db → Type 0} (faults : AllowsFaults R) where
  open faults use {order, passed, undone}

  finish-keeps :
      {A : Type 0} (before : Db) (o : Outcome A) (db : Db)
      → R before db
      → R before (finish before o db).1
  finish-keeps before (stop r) db h = undone before db h
  finish-keeps before (done a) db h = elim (Bool-cases (next_fault db.faults)) [
    | inl broken ↦
        rw broken (undone before (spent db) (order.after before db (spent db) h (passed db)))
    | inr fine ↦ rw fine (order.after before db (spent db) h (passed db))
  ]

  pub Keeps-transaction : {A : Type 0} (m : Action A) → Keeps R m → Keeps R (transaction m)
  unfolding transaction
  Keeps-transaction m k = record {
    at = λ db. elim (Bool-cases (next_fault db.faults)) [
      | inl broken ↦ rw broken (passed db)
      | inr fine ↦ rw fine (
          let (o, db') = m (spent db) in
          order.after db (spent db) (finish (spent db) o db').1 (passed db)
            (finish-keeps (spent db) o db' (k.at (spent db))))
    ];
  }

  pub Keeps-call : {A : Type 0} (q : Query A) → ((db : Db) → R db (q db).1) → KeepsQuery R (call q)
  unfolding call
  Keeps-call q k = record {
    at = λ db. elim (Bool-cases (next_fault db.faults)) [
      | inl broken ↦ rw broken (passed db)
      | inr fine ↦ rw fine (order.after db (spent db) (q (spent db)).1 (passed db) (k (spent db)))
    ];
  }

  pub Keeps-one : {A : Type 0} (f : Db → Option A) → KeepsQuery R (call (one f))
  Keeps-one f = Keeps-call (one f) order.same

  pub Keeps-many : {A : Type 0} (f : Db → A) → KeepsQuery R (call (many f))
  Keeps-many f = Keeps-call (many f) order.same

  pub Keeps-exec :
      (allowed : Db → Bool) (change : Db → Db)
      → ((db : Db) → allowed db ≡ true → R db (change db))
      → KeepsQuery R (call (exec allowed change))
  Keeps-exec allowed change k = Keeps-call (exec allowed change) λ db.
      elim (Bool-cases (allowed db)) [
        | inl good ↦ rw good (k db good)
        | inr bad ↦ rw bad (order.same db)
      ]
