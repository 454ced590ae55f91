-- ===== src/Handlers/Edit.antt =====
-- handlers.go: `EditThread` and `EditThreadPost`, with what they do on GET and POST.
use tdiscuss.Base.{
  Bool, true, false, not, ◌&&◌, [], ◌∷◌, ◌++◌, Option, none, some, ℤ, pos, if◌then◌else◌,
}
use tdiscuss.Text.{Text, codes, text_eq, cut_prefix}
use tdiscuss.Text.Decimal.{is_digit}
use tdiscuss.Validation.{validate_thread_form, validate_thread_post_form}
use tdiscuss.Store.Threads.{update_thread, update_thread_post}
use tdiscuss.Store.Reads.{get_thread_for_edit, get_thread_post_for_edit, ThreadForEditRow}
use tdiscuss.Web.{
  User, Request, Response, Service, Method, error, redirect, edit_thread, edit_thread_post,
  value_of,
}
use tdiscuss.Web.Action.{
  choose, Action, pure, fail, ◌>>=◌, ◌>>◌, require, or_error, reject, ask, ask_or_404, get_user,
  render,
}
use tdiscuss.Handlers.{frame, input, path_id, thread_path, parse_html_strict, body_html, string_of}

-- `\d+/edit$`, with at least one digit read if `some_read`.
digits_then_edit : Bool → Text → Bool
digits_then_edit some_read [] = false
digits_then_edit some_read (c ∷ s) =
    let more = digits_then_edit true s in
    if is_digit c then more else some_read && text_eq (c ∷ s) (codes "/edit")

abbrev after_prefix : Option Text → Bool
after_prefix none = false
after_prefix (some s) = digits_then_edit false s

-- A match of `^/thread/\d+/edit$`.
unfoldable pub is_edit_path : Text → Bool
unfolding digits_then_edit
is_edit_path path = after_prefix (cut_prefix (codes "/thread/") path)

abbrev pub id_or_zero : Option ℤ → ℤ
id_or_zero none = pos 0
id_or_zero (some z) = z

-- A query that is made only if the text has changed.
unfoldable pub when_changed : Bool → Action Unit → Action Unit
when_changed changed m = choose changed m (pure tt)

-- The two updates of `editThreadPOST`.
unfoldable pub save_thread : User → ThreadForEditRow → Text → Text → Action Unit
save_thread user t subject body = do
  when_changed (not (text_eq t.subject subject))
      (ask (update_thread (record { subject = subject; id = t.thread_id; member_id = user.id })))
  when_changed (not (text_eq (string_of t.body) body)) (
      ask (
        update_thread_post
          (record { body = some body; id = id_or_zero t.thread_post_id; member_id = user.id })))

unfoldable pub edit_thread_post_method : Service → Request → Action Response
edit_thread_post_method svc r = do
  require r.form_ok 400
  require (is_edit_path r.path) 400
  user ← get_user r
  let body_input = input r "thread_body"
  let subject_input = input r "subject"
  reject (validate_thread_form subject_input body_input)
  thread_id ← or_error (path_id r "tid") 400
  t ← ask_or_404 svc.queries (get_thread_for_edit svc.row_order thread_id user.id)
  save_thread user t (parse_html_strict svc subject_input) (body_html svc body_input)
  pure (redirect (thread_path t.thread_id))

unfoldable pub edit_thread_get : Service → Request → Action Response
edit_thread_get svc r = do
  user ← get_user r
  thread_id ← or_error (path_id r "tid") 400
  t ← ask_or_404 svc.queries (get_thread_for_edit svc.row_order thread_id user.id)
  render svc (edit_thread (frame svc r user) t)

abbrev pub by_method : Method → Action Response → Action Response → Action Response
by_method Method.get on_get on_post = on_get
by_method Method.post on_get on_post = on_post
by_method _ on_get on_post = fail (error 405)

unfoldable pub edit_thread_handler : Service → Request → Action Response
edit_thread_handler svc r =
    by_method r.method (edit_thread_get svc r) (edit_thread_post_method svc r)

-- The thread's ID is put back into the address as it came.
unfoldable pub back_to_thread : Request → Text
back_to_thread r = codes "/thread/" ++ value_of "tid" r.path_values

-- `editThreadPostPOST`: an unchanged body is not written.
unfoldable pub edit_post_post : Service → Request → Action Response
edit_post_post svc r = do
  user ← get_user r
  require r.form_ok 400
  let body_input = input r "thread_post_body"
  reject (validate_thread_post_form body_input)
  let body = body_html svc body_input
  post_id ← or_error (path_id r "pid") 400
  tp ← ask_or_404 svc.queries (get_thread_post_for_edit post_id user.id)
  when_changed (not (text_eq (string_of tp.body) body))
      (ask (update_thread_post (record { body = some body; id = tp.id; member_id = user.id })))
  pure (redirect (back_to_thread r))

unfoldable pub edit_post_get : Service → Request → Action Response
edit_post_get svc r = do
  user ← get_user r
  thread_id ← or_error (path_id r "tid") 400
  post_id ← or_error (path_id r "pid") 400
  t ← ask_or_404 svc.queries (get_thread_post_for_edit post_id user.id)
  render svc (edit_thread_post (frame svc r user) t thread_id)

unfoldable pub edit_thread_post_handler : Service → Request → Action Response
edit_thread_post_handler svc r = by_method r.method (edit_post_get svc r) (edit_post_post svc r)
