-- ===== src/Access/Endpoints.antt =====
-- Each handler changes only what its user may change.
use tdiscuss.Base.{Option}
use tdiscuss.Store.Tables.{Db}
use tdiscuss.Web.{User, Request, Service}
use tdiscuss.Web.Action.{serve}
use tdiscuss.Web.Keeps.{Keeps-serve}
use tdiscuss.Access.{Allowed}
use tdiscuss.Access.Order.{Allowed-faults}
use tdiscuss.Access.Statements.{
  block_member-Allowed, update_member_profile-Allowed, update_board_title-Allowed,
  update_board_edit_window-Allowed, update_thread-Allowed, update_thread_post-Allowed,
  create_thread-Allowed, create_thread_post-Allowed,
}
use tdiscuss.Handlers.Routes.{Endpoint, handle}
use tdiscuss.Access.Permits.{Permits}
use tdiscuss.Access.Handled.{handle-Good}

abbrev Allowed-Permits : (user : Option User) → Permits (Allowed user) user
Allowed-Permits user = record {
  faults = Allowed-faults user;
  makes_thread = create_thread-Allowed user;
  makes_post = create_thread_post-Allowed user;
  edits_thread = update_thread-Allowed user;
  edits_post = update_thread_post-Allowed user;
  edits_profile = update_member_profile-Allowed user;
  blocks = block_member-Allowed user;
  sets_title = update_board_title-Allowed user;
  sets_window = update_board_edit_window-Allowed user;
}

-- Whatever the endpoint, the request, the state and the failing calls, a request changes only what
-- its user may change: posts and subjects of the user's own, within fifteen minutes of their date;
-- new threads and posts in the user's name; the user's own profile; and blocks, the title and the
-- edit window of the board only if the user is an administrator. A request with no user changes
-- none of these.
pub handle-Allowed :
    (svc : Service) (e : Endpoint) (r : Request) (db : Db)
    → Allowed r.user db (serve (handle svc e r) db).1
handle-Allowed svc e r db =
    Keeps-serve (handle svc e r) (handle-Good r (Allowed-Permits r.user) svc e) db
