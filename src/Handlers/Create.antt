-- ===== src/Handlers/Create.antt =====
-- handlers.go: `CreateThread` and `CreateThreadPost`.
use tdiscuss.Base.{Bool, true, false, some, ℤ}
use tdiscuss.Text.{Text, codes, text_eq}
use tdiscuss.Validation.{validate_thread_form, validate_thread_post_form}
use tdiscuss.Store.Threads.{create_thread, get_thread_sequence_id, create_thread_post}
use tdiscuss.Web.{User, Request, Response, Service, Method, redirect}
use tdiscuss.Web.Action.{
  Action, pure, ◌>>=◌, ◌>>◌, require, or_error, reject, ask, transaction, get_user,
}
use tdiscuss.Handlers.{input, path_id, thread_path, parse_html_strict, body_html}

abbrev pub is_post : Method → Bool
is_post Method.post = true
is_post _ = false

-- The calls between `Begin` and `Commit`.
unfoldable pub insert_thread_and_post : User → Text → Text → Action ℤ
insert_thread_and_post user subject body = do
  ask (create_thread (record { subject = subject; member_id = user.id; last_member_id = user.id }))
  thread_id ← ask get_thread_sequence_id
  ask (create_thread_post (record { thread_id = thread_id; body = some body; member_id = user.id }))
  pure thread_id

-- Both `Queries` of a service are an `ExtendedQuerier`, so the assertion of that type holds.
unfoldable pub create_thread_handler : Service → Request → Action Response
create_thread_handler svc r = do
  require (text_eq r.path (codes "/thread/new")) 404
  require (is_post r.method) 405
  user ← get_user r
  require r.form_ok 400
  let subject = input r "subject"
  let body = input r "thread_body"
  reject (validate_thread_form subject body)
  thread_id ←
      transaction (insert_thread_and_post user (parse_html_strict svc subject) (body_html svc body))
  pure (redirect (thread_path thread_id))

-- A thread ID that is no number is answered by a 500. `FormValue` has parsed the form before
-- `ParseForm` does, which then returns no error: the fields are those that could be parsed.
unfoldable pub create_thread_post_handler : Service → Request → Action Response
create_thread_post_handler svc r = do
  user ← get_user r
  require (is_post r.method) 405
  thread_id ← or_error (path_id r "tid") 500
  let body = input r "thread_body"
  reject (validate_thread_post_form body)
  ask (
      create_thread_post
        (record { thread_id = thread_id; body = some (body_html svc body); member_id = user.id }))
  pure (redirect (thread_path thread_id))
