-- ===== src/Web/Action.antt =====
-- A handler's run over the database. It may stop early with a response; what was written before
-- stays written.
use tdiscuss.Base.{ℕ, Bool, true, false, if◌then◌else◌, List, [], ◌∷◌, Option, none, some}
use tdiscuss.Text.{codes}
use tdiscuss.Validation.{ValidationError, errors_text}
use tdiscuss.Store.Tables.{Db, Answer, row, no_rows, db_error, Query, next_fault, spent}
use tdiscuss.Store.Traced.{wrapped}
use tdiscuss.Web.{
  User, Request, Response, error, message, Service, Page, page, Queries, plain_queries,
  traced_queries,
}

pub data Outcome (A : Type 0) : Type 0 where
  done : A → Outcome A
  stop : Response → Outcome A

abbrev pub Action : Type 0 → Type 0
Action A = Db → Outcome A × Db

module _ {A : Type 0} where
  unfoldable pub pure : A → Action A
  pure a db = (done a, db)

  unfoldable pub fail : Response → Action A
  fail r db = (stop r, db)

module _ {A B : Type 0} where
  abbrev pub follow : Outcome A → (A → Action B) → Action B
  follow (done a) f db = f a db
  follow (stop r) f db = (stop r, db)

  infixl 5 ◌>>=◌ ◌>>◌
  unfoldable pub ◌>>=◌ : Action A → (A → Action B) → Action B
  unfolding pure fail
  ◌>>=◌ m f db = let (o, db') = m db in follow o f db'

  abbrev pub ◌>>◌ : Action A → Action B → Action B
  m >> n = m >>= λ _. n

-- `if !ok { renderError(code); return }`
unfoldable pub require : Bool → ℕ → Action Unit
unfolding pure fail
require true code = pure tt
require false code = fail (error code)

unfoldable pub or_error : {A : Type 0} → Option A → ℕ → Action A
unfolding pure fail
or_error none code = fail (error code)
or_error (some a) code = pure a

-- An `if` over two ways to go on.
unfoldable pub choose : {A : Type 0} → Bool → Action A → Action A → Action A
choose true m n = m
choose false m n = n

-- `if errors := …; len(errors) > 0 { http.Error(w, errors.Error(), 400); return }`
unfoldable pub reject : List ValidationError → Action Unit
unfolding pure fail
reject [] = pure tt
reject (e ∷ es) = fail (message 400 (errors_text (e ∷ es)))

abbrev pub answered : {A : Type 0} → ℕ → Answer A → Outcome A
answered missing (row a) = done a
answered missing no_rows = stop (error missing)
answered missing db_error = stop (error 500)

-- A call of the database whose errors are all a 500.
unfoldable pub ask : {A : Type 0} → Query A → Action A
ask q db = let (a, db') = q db in (answered 500 a, db')

-- The error that a caller sees.
abbrev pub seen : {A : Type 0} → Queries → Answer A → Answer A
seen plain_queries a = a
seen traced_queries a = wrapped a

-- The same, where an error that is equal to `pgx.ErrNoRows` is a 404. (To `ask` and `ask_or` all
-- errors are alike.)
unfoldable pub ask_or_404 : {A : Type 0} → Queries → Query A → Action A
ask_or_404 queries q db = let (a, db') = q db in (answered 404 (seen queries a), db')

-- An error of the call is passed over.
abbrev defaulted : {A : Type 0} → A → Answer A → A
defaulted a (row b) = b
defaulted a _ = a

unfoldable pub ask_or : {A : Type 0} → A → Query A → Action A
ask_or a q db = let (b, db') = q db in (done (defaulted a b), db')

-- What a rollback leaves: the tables as they were; the sequences and the schedule went on.
abbrev pub rolled_back : Db → Db → Db
rolled_back before after = record before {
  next_member = after.next_member;
  next_thread = after.next_thread;
  next_post = after.next_post;
  last_thread = after.last_thread;
  faults = after.faults;
}

abbrev pub finish : {A : Type 0} → Db → Outcome A → Db → Outcome A × Db
finish before (stop r) db = (stop r, rolled_back before db)
finish before (done a) db =
    if next_fault db.faults
    then (stop (error 500), rolled_back before (spent db))
    else (done a, spent db)

-- `Begin`, the calls of `m` in the transaction, `Commit`; `defer tx.Rollback` on every early
-- return. A commit that fails has committed nothing.
unfoldable pub transaction : {A : Type 0} → Action A → Action A
transaction m db =
    if next_fault db.faults
    then (stop (error 500), spent db)
    else (let (o, db') = m (spent db) in finish (spent db) o db')

-- middleware_adapters.go: `GetUser`, with the 500 that every handler answers to its error.
unfoldable pub get_user : Request → Action User
unfolding or_error
get_user r = or_error r.user 500

unfoldable pub render : Service → Page → Action Response
unfolding pure
render svc p =
    pure (if svc.renders p then page p else message 500 (codes "Failed to render template"))

abbrev pub response : Outcome Response → Response
response (done r) = r
response (stop r) = r

-- What the client gets, and the database after it.
unfoldable pub serve : Action Response → Db → Response × Db
serve m db = let (o, db') = m db in (response o, db')
