-- ===== src/Web/Runs.antt =====
-- A run step by step: one rule for each step that goes on.
use tdiscuss.Base.{ℕ, ◌≡◌, refl, Bool, true, false, List, [], ◌∷◌, Option, none, some, All}
use tdiscuss.Validation.{ValidationError}
use tdiscuss.Store.Tables.{Db, row, Query, spent, next_fault, later, call}
use tdiscuss.Web.{
  User, Request, Response, Service, Page, Queries, plain_queries, traced_queries, page, error,
}
use tdiscuss.Web.Action.{
  Action, done, stop, pure, fail, ◌>>=◌, require, or_error, reject, choose, ask, ask_or_404,
  transaction, get_user, render, serve,
}

-- None of the coming calls fails.
abbrev pub NoFaults : List Bool → Type 0
NoFaults = All (λ b. b ≡ false)

pub next_fault_fine : (fs : List Bool) → NoFaults fs → next_fault fs ≡ false
next_fault_fine [] h = refl
next_fault_fine (f ∷ fs) h = h.0

pub later-NoFaults : (fs : List Bool) → NoFaults fs → NoFaults (later fs)
later-NoFaults [] h = tt
later-NoFaults (f ∷ fs) h = h.1

-- A call that does not fail is its query.
pub call_fine :
    {A : Type 0} (q : Query A) (db : Db) → next_fault db.faults ≡ false → call q db ≡ q (spent db)
unfolding call
call_fine q db fine = rw fine refl

-- The run `m` of `db` ends with `a`, and leaves `db'`.
abbrev pub Gives : {A : Type 0} → Action A → Db → A → Db → Type 0
Gives m db a db' = m db ≡ (done a, db')

module _ {A : Type 0} where
  pub Gives-pure : (a : A) (db : Db) → Gives (pure a) db a db
  unfolding pure
  Gives-pure a db = refl

  pub Gives-bind :
      {B : Type 0} (m : Action A) (f : A → Action B) (db : Db) {db' db'' : Db} {a : A} {b : B}
      → Gives m db a db'
      → Gives (f a) db' b db''
      → Gives (m >>= f) db b db''
  unfolding ◌>>=◌
  Gives-bind m f db h k = rw h k

  pub Gives-or_error :
      (o : Option A) (code : ℕ) (db : Db) {a : A} → o ≡ some a → Gives (or_error o code) db a db
  unfolding or_error
  Gives-or_error o code db e = rw e refl

  pub Gives-ask :
      (q : Query A) (db : Db) {db' : Db} {a : A} → q db ≡ (row a, db') → Gives (ask q) db a db'
  unfolding ask
  Gives-ask q db e = rw e refl

  pub Gives-ask_or_404 :
      (queries : Queries) (q : Query A) (db : Db) {db' : Db} {a : A}
      → q db ≡ (row a, db')
      → Gives (ask_or_404 queries q) db a db'
  unfolding ask_or_404
  Gives-ask_or_404 plain_queries q db e = rw e refl
  Gives-ask_or_404 traced_queries q db e = rw e refl

  pub Gives-choose :
      (b : Bool) (m n : Action A) (db : Db) {db' : Db} {a : A}
      → b ≡ true
      → Gives m db a db'
      → Gives (choose b m n) db a db'
  unfolding choose
  Gives-choose b m n db e h = rw e h

  -- `Begin` and `Commit` each use up an entry of the schedule.
  pub Gives-transaction :
      (m : Action A) (db : Db) {db' : Db} {a : A}
      → next_fault db.faults ≡ false
      → Gives m (spent db) a db'
      → next_fault db'.faults ≡ false
      → Gives (transaction m) db a (spent db')
  unfolding transaction
  Gives-transaction m db begun h committed = rw begun (rw h (rw committed refl))

pub Gives-require : (b : Bool) (code : ℕ) (db : Db) → b ≡ true → Gives (require b code) db tt db
unfolding require
Gives-require b code db e = rw e refl

pub Gives-reject : (es : List ValidationError) (db : Db) → es ≡ [] → Gives (reject es) db tt db
unfolding reject
Gives-reject es db e = rw e refl

pub Gives-get_user :
    (r : Request) (db : Db) {u : User} → r.user ≡ some u → Gives (get_user r) db u db
unfolding get_user
Gives-get_user r db e = Gives-or_error r.user 500 db e

pub Gives-render :
    (svc : Service) (p : Page) (db : Db)
    → svc.renders p ≡ true
    → Gives (render svc p) db (page p) db
unfolding render pure
Gives-render svc p db e = rw e refl

pub Gives-serve :
    (m : Action Response) (db : Db) {db' : Db} {a : Response}
    → Gives m db a db'
    → serve m db ≡ (a, db')
unfolding serve
Gives-serve m db e = rw e refl

-- The run ends early, with a response.
abbrev pub Stops : {A : Type 0} → Action A → Db → Response → Db → Type 0
Stops m db r db' = m db ≡ (stop r, db')

module _ {A B : Type 0} where
  pub Stops-bind :
      (m : Action A) (f : A → Action B) (db : Db) {db' : Db} {r : Response}
      → Stops m db r db'
      → Stops (m >>= f) db r db'
  unfolding ◌>>=◌
  Stops-bind m f db h = rw h refl

  pub Stops-after :
      (m : Action A) (f : A → Action B) (db : Db) {db' db'' : Db} {a : A} {r : Response}
      → Gives m db a db'
      → Stops (f a) db' r db''
      → Stops (m >>= f) db r db''
  unfolding ◌>>=◌
  Stops-after m f db h k = rw h k

pub Stops-or_error :
    {A : Type 0} (o : Option A) (code : ℕ) (db : Db)
    → o ≡ none
    → Stops (or_error o code) db (error code) db
unfolding or_error fail
Stops-or_error o code db e = rw e refl

module _ {A : Type 0} where
  pub Stops-second :
      (b : Bool) (m n : Action A) (db : Db) {db' : Db} {r : Response}
      → b ≡ false
      → Stops n db r db'
      → Stops (choose b m n) db r db'
  unfolding choose
  Stops-second b m n db e h = rw e h

  pub Stops-first :
      (b : Bool) (m n : Action A) (db : Db) {db' : Db} {r : Response}
      → b ≡ true
      → Stops m db r db'
      → Stops (choose b m n) db r db'
  unfolding choose
  Stops-first b m n db e h = rw e h

  pub Gives-second :
      (b : Bool) (m n : Action A) (db : Db) {db' : Db} {a : A}
      → b ≡ false
      → Gives n db a db'
      → Gives (choose b m n) db a db'
  unfolding choose
  Gives-second b m n db e h = rw e h

pub Stops-serve :
    (m : Action Response) (db : Db) {db' : Db} {r : Response}
    → Stops m db r db'
    → serve m db ≡ (r, db')
unfolding serve
Stops-serve m db e = rw e refl
