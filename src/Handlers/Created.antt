-- ===== src/Handlers/Created.antt =====
-- What the creation of a thread leaves, where nothing fails.
use tdiscuss.Base.{
  ℕ, ◌≡◌, refl, ◌∙◌, Bool, true, false, List, [], ◌∷◌, ◌++◌, some, pos, eq_ℤ, eq_ℤ_refl,
}
use tdiscuss.Text.{Text, codes, text_eq_refl, is_empty}
use tdiscuss.Validation.{validate_thread_form}
use tdiscuss.Store.Tables.{
  Thread, Post, Db, row, spent, next_fault, later, has_member, has_thread, thread_by_id,
}
use tdiscuss.Store.Threads.{
  CreateThreadParams, CreateThreadPostParams, create_thread, get_thread_sequence_id,
  create_thread_post, new_thread, new_post, insert_thread, insert_post, may_insert_thread,
  may_insert_post, try_insert_thread, try_insert_post, bump_thread, current_thread,
}
use tdiscuss.Store.Added.{
  is_some-find-snoc, update_where-snoc, Ascending-next, earliest-first, latest-first,
  IsTaken-Elsewhere,
}
use tdiscuss.Consistency.{Consistent}
use tdiscuss.Consistency.Sequences.{Advances-faults}
use tdiscuss.Web.{User, Request, Service, Method, redirect}
use tdiscuss.Web.Action.{serve}
use tdiscuss.Web.Runs.{
  NoFaults, next_fault_fine, later-NoFaults, call_fine, Gives, Gives-pure, Gives-bind, Gives-ask,
  Gives-transaction, Gives-require, Gives-reject, Gives-get_user, Gives-serve,
}
use tdiscuss.Handlers.{input, thread_path, parse_html_strict, body_html}
use tdiscuss.Handlers.Create.{insert_thread_and_post, create_thread_handler}

-- The thread and the post that `u` makes of `subject` and `body`.
abbrev pub thread_of : User → Text → Db → Thread
thread_of u subject db = record {
  id = pos db.next_thread;
  member_id = u.id;
  subject = subject;
  date_posted = db.now;
  first_post_id = some (pos db.next_post);
  posts = 1;
  views = 0;
  sticky = false;
  locked = false;
  last_member_id = u.id;
  date_last_posted = db.now;
}

abbrev pub post_of : User → Text → Db → Post
post_of u body db = record {
  id = pos db.next_post;
  thread_id = pos db.next_thread;
  date_posted = db.now;
  member_id = u.id;
  body = some body;
}

create_thread_fine :
    (arg : CreateThreadParams) (db : Db)
    → next_fault db.faults ≡ false
    → may_insert_thread arg (spent db) ≡ true
    → create_thread arg db ≡ (row tt, insert_thread arg (spent db))
unfolding create_thread
create_thread_fine arg db fine may = call_fine (try_insert_thread arg) db fine ∙ (rw may refl)

get_thread_sequence_id_fine :
    (db : Db) (n : ℕ)
    → next_fault db.faults ≡ false
    → db.last_thread ≡ some n
    → get_thread_sequence_id db ≡ (row (pos n), spent db)
unfolding get_thread_sequence_id
get_thread_sequence_id_fine db n fine e = call_fine current_thread db fine ∙ (rw e refl)

create_thread_post_fine :
    (arg : CreateThreadPostParams) (db : Db)
    → next_fault db.faults ≡ false
    → may_insert_post arg (spent db) ≡ true
    → create_thread_post arg db ≡ (row tt, insert_post arg (spent db))
unfolding create_thread_post
create_thread_post_fine arg db fine may = call_fine (try_insert_post arg) db fine ∙ (rw may refl)

module _ (u : User) (subject body : Text) where
  abbrev thread_arg : CreateThreadParams
  thread_arg = record { subject = subject; member_id = u.id; last_member_id = u.id }

  abbrev post_arg : Db → CreateThreadPostParams
  post_arg db = record { thread_id = pos db.next_thread; body = some body; member_id = u.id }

  -- The database after the two insertions, of a transaction that begins with `db`.
  abbrev inserted : Db → Db
  inserted db = insert_post (post_arg db) (spent (spent (insert_thread thread_arg (spent db))))

  may-insert-thread :
      (db : Db)
      → is_empty subject ≡ false
      → has_member u.id db ≡ true
      → may_insert_thread thread_arg db ≡ true
  may-insert-thread db filled member = rw filled (rw member refl)

  may-insert-post :
      (db : Db)
      → has_member u.id db ≡ true
      → may_insert_post (post_arg db) (spent (spent (insert_thread thread_arg (spent db)))) ≡ true
  unfolding has_thread thread_by_id has_member
  may-insert-post db member =
      rw
        (is_some-find-snoc (λ t. eq_ℤ t.id (pos db.next_thread)) db.threads
          (new_thread thread_arg (spent db)) (eq_ℤ_refl (pos db.next_thread)))
        (rw member refl)

  Gives-insertion :
      (db : Db)
      → NoFaults db.faults
      → is_empty subject ≡ false
      → has_member u.id db ≡ true
      → Gives (insert_thread_and_post u subject body) db (pos db.next_thread) (inserted db)
  unfolding insert_thread_and_post has_member
  Gives-insertion db fine filled member =
      let fs = db.faults in
      let fine1 = later-NoFaults fs fine in
      let fine2 = later-NoFaults (later fs) fine1 in
      Gives-bind _ _ db
        (Gives-ask _ db (
          create_thread_fine thread_arg db (next_fault_fine fs fine)
            (may-insert-thread (spent db) filled member)))
        (Gives-bind _ _ _
          (Gives-ask _ _ (
            get_thread_sequence_id_fine (insert_thread thread_arg (spent db)) db.next_thread
              (next_fault_fine (later fs) fine1) refl))
          (Gives-bind _ _ _
            (Gives-ask _ _ (
              create_thread_post_fine (post_arg db) (spent (insert_thread thread_arg (spent db)))
                (next_fault_fine (later (later fs)) fine2) (may-insert-post db member)))
            (Gives-pure _ _)))

  inserted-threads :
      (db : Db) → Consistent db → (inserted db).threads ≡ db.threads ++ thread_of u subject db ∷ []
  inserted-threads db c =
      let next = db.next_thread in
      let new = new_post (post_arg db) (spent (spent (insert_thread thread_arg (spent db)))) in
      let elsewhere = IsTaken-Elsewhere next db.posts c.parents in
      let alone = eq_ℤ_refl (pos next) in
      update_where-snoc (λ (t : Thread). eq_ℤ t.id (pos next))
        (bump_thread (pos next) (db.posts ++ new ∷ []) db.now) db.threads
        (new_thread thread_arg (spent db))
        (Ascending-next (λ (t : Thread). t.id) 0 next db.threads c.threads) alone
      ∙ (rw (earliest-first (pos next) db.posts new elsewhere alone)
          (rw (latest-first (pos next) db.posts new elsewhere alone) refl))

later_NoFaults3 : (fs : List Bool) → NoFaults fs → NoFaults (later (later (later fs)))
later_NoFaults3 fs h =
    later-NoFaults (later (later fs)) (later-NoFaults (later fs) (later-NoFaults fs h))

Gives-creation :
    (svc : Service) (r : Request) (u : User) (db : Db)
    → NoFaults db.faults
    → r.path ≡ codes "/thread/new"
    → r.method ≡ Method.post
    → r.user ≡ some u
    → r.form_ok ≡ true
    → validate_thread_form (input r "subject") (input r "thread_body") ≡ []
    → is_empty (parse_html_strict svc (input r "subject")) ≡ false
    → has_member u.id db ≡ true
    → let subject = parse_html_strict svc (input r "subject") in
      let body = body_html svc (input r "thread_body") in
      serve (create_thread_handler svc r) db
      ≡ (redirect (thread_path (pos db.next_thread)), spent (inserted u subject body (spent db)))
unfolding create_thread_handler has_member
Gives-creation svc r u db fine path method user form valid filled member =
    let fs = db.faults in
    let subject = parse_html_strict svc (input r "subject") in
    let body = body_html svc (input r "thread_body") in
    Gives-serve _ db (
      Gives-bind _ _ db (Gives-require _ 404 db (rw path (text_eq_refl (codes "/thread/new")))) (
        Gives-bind _ _ db (Gives-require _ 405 db (rw method refl)) (
          Gives-bind _ _ db (Gives-get_user r db user) (
            Gives-bind _ _ db (Gives-require _ 400 db form) (
              Gives-bind _ _ db (Gives-reject _ db valid) (
                Gives-bind _ _ db
                  (Gives-transaction _ db (next_fault_fine fs fine)
                    (Gives-insertion u subject body (spent db) (later-NoFaults fs fine) filled
                      member)
                    (next_fault_fine (later (later (later (later fs))))
                      (later-NoFaults _ (later_NoFaults3 fs fine))))
                  (Gives-pure _ _)))))))

-- Where the tables are consistent, no call fails, the form is accepted, the subject is not empty
-- after its tags are removed, and the user is a member, a POST to `/thread/new` is answered by a
-- redirect to the new thread; the thread is added at the end of the threads, with a counter of
-- one and the new post as its first and only one, the post at the end of the posts, and the other
-- rows of threads and posts and all members and profiles stay as they were.
pub create_thread_handler-creates :
    (svc : Service) (r : Request) (u : User) (db : Db)
    → Consistent db
    → NoFaults db.faults
    → r.path ≡ codes "/thread/new"
    → r.method ≡ Method.post
    → r.user ≡ some u
    → r.form_ok ≡ true
    → validate_thread_form (input r "subject") (input r "thread_body") ≡ []
    → is_empty (parse_html_strict svc (input r "subject")) ≡ false
    → has_member u.id db ≡ true
    → let subject = parse_html_strict svc (input r "subject") in
      let body = body_html svc (input r "thread_body") in
      let after = serve (create_thread_handler svc r) db in
      (after.0 ≡ redirect (thread_path (pos db.next_thread)))
      × (after.1.threads ≡ db.threads ++ thread_of u subject db ∷ [])
      × (after.1.posts ≡ db.posts ++ post_of u body db ∷ [])
      × (after.1.members ≡ db.members)
      × (after.1.profiles ≡ db.profiles)
create_thread_handler-creates svc r u db c fine path method user form valid filled member =
    let subject = parse_html_strict svc (input r "subject") in
    let body = body_html svc (input r "thread_body") in
    rw (Gives-creation svc r u db fine path method user form valid filled member) (
      refl,
      inserted-threads u subject body (spent db) ((Advances-faults.passed db).consistent c),
      refl,
      refl,
      refl,
    )
