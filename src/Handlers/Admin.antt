-- ===== src/Handlers/Admin.antt =====
-- handlers.go: `Admin`, `AdminGET`, `AdminPOST`.
use tdiscuss.Base.{not, List, [], ◌∷◌, some, ℤ, pos, leb_ℤ}
use tdiscuss.Text.{Text, codes, text_eq, is_empty}
use tdiscuss.Text.Decimal.{parse_int}
use tdiscuss.Store.Members.{
  get_board_data, block_member, update_board_title, update_board_edit_window,
}
use tdiscuss.Web.{
  Request, Response, Service, Method, error, redirect, admin, MemberThreadPostTemplateData,
  value_of,
}
use tdiscuss.Web.Action.{
  choose, Action, pure, fail, ◌>>=◌, ◌>>◌, require, or_error, ask, get_user, render,
}
use tdiscuss.Handlers.{frame}

-- The stub that the page shows.
abbrev member_thread_posts : List MemberThreadPostTemplateData
member_thread_posts =
    record { member_id = pos 1; member_email = codes "admin@example.com"; post_count = 10 }
    ∷ record { member_id = pos 2; member_email = codes "user@example.com"; post_count = 5 }
    ∷ []

unfoldable pub admin_get : Service → Request → Action Response
admin_get svc r = do
  user ← get_user r
  require user.is_admin 403
  board ← ask get_board_data
  render svc (admin (frame svc r user) board member_thread_posts)

-- An ID of the form: 0 if it is not given, a 400 if it is no number.
unfoldable pub form_id : Text → Action ℤ
form_id text = choose (is_empty text) (pure (pos 0)) (or_error (parse_int 64 text) 400)

unfoldable pub delete_member : ℤ → Action Unit
delete_member id = do require (not (leb_ℤ id (pos 0))) 400; ask (block_member id)

-- A value that is not given is left alone.
unfoldable pub change_title : Text → Action Unit
change_title title = choose (is_empty title) (pure tt) (ask (update_board_title title))

unfoldable pub change_window : Text → Action Unit
change_window window =
    choose (is_empty window) (pure tt)
      (or_error (parse_int 32 window) 400 >>= λ w. ask (update_board_edit_window (some w)))

unfoldable pub update_config : Request → Action Unit
update_config r = do
  change_title (value_of "board_title" r.form)
  change_window (value_of "edit_window" r.form)

-- The `switch` on the action; `delete_thread` only logs.
unfoldable pub admin_action : Request → Text → ℤ → Action Unit
admin_action r action member_id =
    choose (text_eq action (codes "delete_member")) (delete_member member_id) (
      choose (text_eq action (codes "delete_thread")) (pure tt)
        (choose (text_eq action (codes "update_config")) (update_config r) (fail (error 400))))

unfoldable pub admin_post : Request → Action Response
admin_post r = do
  user ← get_user r
  require user.is_admin 403
  require r.form_ok 400
  member_id ← form_id (value_of "member_id" r.form)
  thread_id ← form_id (value_of "thread_id" r.form)
  admin_action r (value_of "action" r.form) member_id
  pure (redirect (codes "/"))

abbrev pub by_method :
    Method → Action Response → Action Response → Action Response → Action Response
by_method Method.get on_get on_post otherwise = on_get
by_method Method.post on_get on_post otherwise = on_post
by_method _ on_get on_post otherwise = otherwise

unfoldable pub admin_handler : Service → Request → Action Response
admin_handler svc r = by_method r.method (admin_get svc r) (admin_post r) (fail (error 400))
