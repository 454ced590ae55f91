-- ===== src/Middleware/Auth.antt =====
-- middleware/middleware_auth.go, and the adapters of middleware_adapters.go that it calls.
use tdiscuss.Base.{Bool, true, false, not, Option, none, some, if◌then◌else◌}
use tdiscuss.Text.{Text, codes, is_empty}
use tdiscuss.Store.Tables.{Board, Answer, row, no_rows, db_error, Query}
use tdiscuss.Store.Members.{CreateOrReturnIdRow, create_or_return_id, get_board_data}
use tdiscuss.Web.{User, Request, message}
use tdiscuss.Handlers.Show.{not_found}
use tdiscuss.Middleware.Outside.{Outside}
use tdiscuss.Middleware.{
  Exchange, RequestContext, World, Reply, Handler, Middleware, answer, write_log, get_user,
  modify_context, is_authenticated, is_admin, authentication_failed, user_lookup_failed,
  blocked_user, not_an_admin,
}

-- A login name that is not empty.
abbrev login_of : Option (Option Text) → Option Text
login_of none = none
login_of (some none) = none
login_of (some (some name)) = if is_empty name then none else some name

-- `GetUserEmail`: `none` is an error.
unfoldable pub get_user_email : {L : Type 0} → Outside L → Request → Option Text
get_user_email out r = login_of (out.who_is r.remote_addr)

abbrev pub context_user : Text → CreateOrReturnIdRow → User
context_user email m = record {
  id = m.id;
  email = email;
  is_admin = m.is_admin;
  is_blocked = m.is_blocked;
}

abbrev map_answer : {A B : Type 0} → (A → B) → Answer A → Answer B
map_answer f (row a) = row (f a)
map_answer f no_rows = no_rows
map_answer f db_error = db_error

-- `CreateOrGetUser`
unfoldable pub create_or_get_user : (Text → Text) → Text → Query User
create_or_get_user lower email db =
    let (a, db') = create_or_return_id lower email db in (map_answer (context_user email) a, db')

abbrev pub set_user : User → RequestContext → RequestContext
set_user user rc = record rc { user = some user }

module _ {L : Type 0} (out : Outside L) where
  -- The test of `user.IsBlocked`.
  abbrev pub admit_unless : Bool → Handler L → Exchange → User → World L → Reply × World L
  admit_unless true next ex user w = answer not_found (write_log (blocked_user user.id) w)
  admit_unless false next ex user w = next (modify_context (set_user user) ex) w

  abbrev pub admit_user : Handler L → Exchange → User → World L → Reply × World L
  admit_user next ex user w = admit_unless user.is_blocked next ex user w

  abbrev pub look_up : Handler L → Exchange → Answer User → World L → Reply × World L
  look_up next ex (row user) w = admit_user next ex user w
  look_up next ex no_rows w =
      answer (message 500 (codes "Internal error")) (write_log user_lookup_failed w)
  look_up next ex db_error w =
      answer (message 500 (codes "Internal error")) (write_log user_lookup_failed w)

  abbrev pub sign_in : Handler L → Exchange → Option Text → World L → Reply × World L
  sign_in next ex none w =
      answer (message 401 (codes "Authentication required")) (write_log authentication_failed w)
  sign_in next ex (some email) w =
      let (a, db) = create_or_get_user out.lower email w.db in
      look_up next ex a (record w { db = db })

  unfoldable pub auth_middleware : Middleware L
  unfolding get_user_email
  auth_middleware next ex w = sign_in next ex (get_user_email out ex.request) w

abbrev board_or_none : Answer Board → Option Board
board_or_none (row b) = some b
board_or_none no_rows = none
board_or_none db_error = none

module _ {L : Type 0} where
  unfoldable pub require_auth_middleware : Middleware L
  require_auth_middleware next ex w =
      if not (is_authenticated ex)
      then answer (message 401 (codes "Authentication required")) w
      else next ex w

  abbrev pub log_refusal : Option User → World L → World L
  log_refusal none w = w
  log_refusal (some u) w = write_log (not_an_admin u.id) w

  unfoldable pub require_admin_middleware : Middleware L
  require_admin_middleware next ex w =
      if not (is_admin ex)
      then answer (message 403 (codes "Admin access required")) (log_refusal (get_user ex) w)
      else next ex w

  -- `isDebugMode` is false, so that only the logger in the context changes.
  unfoldable pub user_enrichment_middleware : Middleware L
  user_enrichment_middleware next ex w = next ex w

  -- middleware/board_data.go: a board that cannot be read is left out.
  unfoldable pub board_data_middleware : Middleware L
  board_data_middleware next ex w =
      let (a, db) = get_board_data w.db in
      next (record ex { board = board_or_none a }) (record w { db = db })
