-- ===== src/Handlers/Show.antt =====
-- handlers.go: the handlers that only show.
use tdiscuss.Base.{Bool, true, false, ◌&&◌, ◌||◌, [], map, eq_ℤ, length}
use tdiscuss.Text.{codes, text_eq}
use tdiscuss.Store.Members.{get_member}
use tdiscuss.Store.Reads.{
  list_threads, list_thread_posts, list_member_threads, get_thread_subject_by_id, ThreadsRow,
  ThreadPostsRow,
}
use tdiscuss.Web.{
  Request, Response, Service, Method, ThreadTemplateData, ThreadPostTemplateData, index, thread,
  member, new_thread, formatting, plain, message,
}
use tdiscuss.Web.Action.{
  choose, Action, pure, fail, ◌>>=◌, ◌>>◌, require, or_error, ask, ask_or_404, ask_or, get_user,
  render,
}
use tdiscuss.Handlers.{frame, path_id, parse_html_strict, body_html, string_of}

abbrev pub is_get : Method → Bool
is_get Method.get = true
is_get _ = false

abbrev pub thread_item : ThreadsRow → ThreadTemplateData
thread_item t = record {
  thread_id = t.thread_id;
  subject = t.subject;
  email = t.email;
  last_id = t.last_id;
  last_name = t.last_name;
  posts = t.posts;
  views = t.views;
  date_last_posted = t.date_last_posted;
  can_edit = t.can_edit;
  sticky = t.sticky;
  locked = t.locked;
}

unfoldable pub list_threads_handler : Service → Request → Action Response
list_threads_handler svc r = do
  require (text_eq r.path (codes "/")) 404
  require (is_get r.method) 405
  user ← get_user r
  threads ← ask (list_threads user.email)
  render svc (index (frame svc r user) (map thread_item threads))

abbrev pub post_item : ThreadPostsRow → ThreadPostTemplateData
post_item p = record {
  id = p.id;
  body = string_of p.body;
  thread_id = p.thread_id;
  member_id = p.member_id;
  email = p.email;
  date_posted = p.date_posted;
  can_edit = p.can_edit;
}

unfoldable pub list_thread_posts_handler : Service → Request → Action Response
list_thread_posts_handler svc r = do
  require (is_get r.method) 405
  thread_id ← or_error (path_id r "tid") 400
  user ← get_user r
  subject ← ask_or_404 svc.queries (get_thread_subject_by_id thread_id)
  posts ← ask (list_thread_posts user.email thread_id)
  render svc (thread (frame svc r user) (map post_item posts) subject thread_id)

-- Without the threads the page is shown all the same.
unfoldable pub list_member : Service → Request → Action Response
list_member svc r = do
  require (is_get r.method) 405
  member_id ← or_error (path_id r "mid") 400
  user ← get_user r
  m ← ask_or_404 svc.queries (get_member member_id)
  threads ← ask_or [] (list_member_threads member_id)
  let can_edit = eq_ℤ user.id member_id || user.is_admin
  render svc (member (frame svc r user) m threads can_edit (length threads))

-- `http.NotFound`
abbrev pub not_found : Response
not_found = message 404 (codes "404 page not found")

unfoldable pub new_thread_handler : Service → Request → Action Response
new_thread_handler svc r =
    choose (text_eq r.path (codes "/thread/new") && is_get r.method)
      (get_user r >>= λ user. render svc (new_thread (frame svc r user))) (fail not_found)

-- The title of the page is its own.
unfoldable pub formatting_guide : Service → Request → Action Response
formatting_guide svc r = do
  user ← get_user r
  render svc (
      formatting
        (record {
          title = codes "Formatting Guide";
          user = user;
          version = svc.version;
          git_sha = svc.git_sha;
        })
        (parse_html_strict svc
          (codes "Check out this **cool** <script>alert('xss')</script> thing!"))
        (body_html svc (codes ":heart:")) (body_html svc (codes ":+1:"))
        (body_html svc (codes ":smile:")))

unfoldable pub health_check : Action Response
health_check = pure (plain (codes "OK"))
