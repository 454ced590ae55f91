-- ===== src/Handlers/Listed.antt =====
-- What the list of threads and the page of a thread show, where nothing fails.
use tdiscuss.Base.{◌≡◌, refl, ◌∙◌, Bool, true, false, not, List, some, ℤ, map, take, arith}
use mathlib.Core.List.{Perm}
use tdiscuss.Text.{Text, codes, text_eq}
use tdiscuss.Store.Tables.{member_by_id, thread_by_id, Db, row, one, many, spent, next_fault, later}
use tdiscuss.Store.Reads.{
  ThreadsRow, ThreadPostsRow, keep, order_by, newer, older, posts_of, threads_row, thread_posts_row,
  threads_in, thread_posts_in, subject_in, get_thread_subject_by_id, list_threads,
  list_thread_posts,
}
use tdiscuss.Store.Ordered.{IsSorted, order_by-Perm, order_by-IsSorted}
use tdiscuss.Web.{User, Request, Service, Page, Method, page, index, thread}
use tdiscuss.Web.Action.{serve}
use tdiscuss.Web.Runs.{
  NoFaults, next_fault_fine, later-NoFaults, call_fine, Gives, Gives-bind, Gives-or_error,
  Gives-ask, Gives-ask_or_404, Gives-require, Gives-get_user, Gives-render, Gives-serve,
}
use tdiscuss.Handlers.{frame, path_id}
use tdiscuss.Handlers.Show.{
  is_get, thread_item, post_item, list_threads_handler, list_thread_posts_handler,
}

newer_total : (r s : ThreadsRow) → newer r s ≡ false → newer s r ≡ true
newer_total r s e = ground arith

newer_trans : (r s t : ThreadsRow) → newer r s ≡ true → newer s t ≡ true → newer r t ≡ true
newer_trans r s t e f = ground arith

older_total : (r s : ThreadPostsRow) → older r s ≡ false → older s r ≡ true
older_total r s e = ground arith

older_trans : (r s t : ThreadPostsRow) → older r s ≡ true → older s t ≡ true → older r t ≡ true
older_trans r s t e f = ground arith

-- `rows` in the order that `before` allows.
abbrev pub Ordering : {A : Type 0} → (A → A → Bool) → List A → List A → Type 0
Ordering before rows sorted = Perm sorted rows × IsSorted before sorted

abbrev pub listed_rows : User → Db → List ThreadsRow
listed_rows u db = map (threads_row u.email db) (keep (λ t. not t.sticky) db.threads)

abbrev pub thread_rows : User → ℤ → Db → List ThreadPostsRow
thread_rows u id db = map (thread_posts_row u.email db) (posts_of id db.posts)

by_get : (m : Method) → m ≡ Method.get → is_get m ≡ true
by_get m e = rw e refl

posts_fine :
    (u : User) (id : ℤ) (db : Db)
    → next_fault db.faults ≡ false
    → list_thread_posts u.email id db ≡ (row (thread_posts_in u.email id (spent db)), spent db)
unfolding list_thread_posts
posts_fine u id db fine = call_fine (many (thread_posts_in u.email id)) db fine

module _ (svc : Service) (r : Request) (u : User) (db : Db) where
  list_threads_fine :
      next_fault db.faults ≡ false
      → list_threads u.email db ≡ (row (threads_in u.email (spent db)), spent db)
  unfolding list_threads
  list_threads_fine fine = call_fine (many (threads_in u.email)) db fine

  Gives-index :
      NoFaults db.faults
      → r.method ≡ Method.get
      → text_eq r.path (codes "/") ≡ true
      → r.user ≡ some u
      → ((p : Page) → svc.renders p ≡ true)
      → Gives
          (list_threads_handler svc r)
          db
          (page (index (frame svc r u) (map thread_item (threads_in u.email (spent db)))))
          (spent db)
  unfolding list_threads_handler
  Gives-index fine method path user renders = Gives-bind _ _ db (Gives-require _ 404 db path) (
      Gives-bind _ _ db (Gives-require _ 405 db (by_get r.method method)) (
        Gives-bind _ _ db (Gives-get_user r db user) (
          Gives-bind _ _ db (Gives-ask _ db (list_threads_fine (next_fault_fine db.faults fine)))
            (Gives-render svc _ (spent db) (renders _)))))

  -- Where no call fails and the templates render, a GET of "/" by a user shows the first hundred of
  -- the threads that are not sticky, each once, those posted to last standing first.
  pub list_threads_handler-shows :
      NoFaults db.faults
      → r.method ≡ Method.get
      → text_eq r.path (codes "/") ≡ true
      → r.user ≡ some u
      → ((p : Page) → svc.renders p ≡ true)
      → (sorted : List ThreadsRow) × Ordering newer (listed_rows u db) sorted
        × (serve (list_threads_handler svc r) db
            ≡ (page (index (frame svc r u) (map thread_item (take 100 sorted))), spent db))
  unfolding member_by_id
  list_threads_handler-shows fine method path user renders = (
    order_by newer (listed_rows u db),
    (order_by-Perm newer _, order_by-IsSorted newer newer_total newer_trans _),
    Gives-serve _ db (Gives-index fine method path user renders),
  )

  module _ (id : ℤ) (subject : Text) where
    subject_fine :
        next_fault db.faults ≡ false
        → subject_in id db ≡ some subject
        → get_thread_subject_by_id id db ≡ (row subject, spent db)
    unfolding get_thread_subject_by_id
    subject_fine fine e = call_fine (one (subject_in id)) db fine ∙ rw e refl

  Gives-thread :
      (id : ℤ) (subject : Text)
      → NoFaults db.faults
      → r.method ≡ Method.get
      → path_id r "tid" ≡ some id
      → r.user ≡ some u
      → subject_in id db ≡ some subject
      → ((p : Page) → svc.renders p ≡ true)
      → Gives
          (list_thread_posts_handler svc r)
          db
          (page (
            thread
              (frame svc r u)
              (map post_item (thread_posts_in u.email id (spent (spent db))))
              subject
              id))
          (spent (spent db))
  unfolding list_thread_posts_handler
  Gives-thread id subject fine method path user there renders =
      Gives-bind _ _ db (Gives-require _ 405 db (by_get r.method method)) (
        Gives-bind _ _ db (Gives-or_error _ 400 db path) (
          Gives-bind _ _ db (Gives-get_user r db user) (
            Gives-bind _ _ db
              (Gives-ask_or_404 svc.queries _ db
                (subject_fine id subject (next_fault_fine db.faults fine) there))
              (Gives-bind _ _ (spent db)
                (Gives-ask _ (spent db) (
                  posts_fine u id (spent db)
                    (next_fault_fine (later db.faults) (later-NoFaults db.faults fine))))
                (Gives-render svc _ (spent (spent db)) (renders _))))))

  -- Where no call fails and the templates render, a GET of a thread that is there, by a user, shows
  -- all posts of the thread, each once, the older ones first, under the thread's subject.
  pub list_thread_posts_handler-shows :
      (id : ℤ) (subject : Text)
      → NoFaults db.faults
      → r.method ≡ Method.get
      → path_id r "tid" ≡ some id
      → r.user ≡ some u
      → subject_in id db ≡ some subject
      → ((p : Page) → svc.renders p ≡ true)
      → (sorted : List ThreadPostsRow) × Ordering older (thread_rows u id db) sorted
        × (serve (list_thread_posts_handler svc r) db
            ≡ (page (thread (frame svc r u) (map post_item sorted) subject id), spent (spent db)))
  unfolding member_by_id thread_by_id
  list_thread_posts_handler-shows id subject fine method path user there renders = (
    order_by older (thread_rows u id db),
    (order_by-Perm older _, order_by-IsSorted older older_total older_trans _),
    Gives-serve _ db (Gives-thread id subject fine method path user there renders),
  )
