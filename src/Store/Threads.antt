-- ===== src/Store/Threads.antt =====
-- queries.sql.go: the statements that write threads and posts, with the triggers of the schema.
use tdiscuss.Base.{
  ℕ, suc, ◌+◌, Bool, true, false, not, ◌&&◌, List, [], ◌∷◌, ◌++◌, if◌then◌else◌, Option, none, some,
  ℤ, pos, eq_ℤ, leb, ltb,
}
use tdiscuss.Text.{Text, is_empty}
use tdiscuss.Store.Tables.{
  Thread, Post, Board, Db, Answer, row, db_error, Query, call, exec, update_where, map_board,
  has_member, has_thread, edit_window,
}

pub record CreateThreadParams : Type 0 where
  pub subject : Text
  pub member_id : ℤ
  pub last_member_id : ℤ

abbrev pub new_thread : CreateThreadParams → Db → Thread
new_thread arg db = record {
  id = pos db.next_thread;
  member_id = arg.member_id;
  subject = arg.subject;
  date_posted = db.now;
  first_post_id = none;
  posts = 0;
  views = 0;
  sticky = false;
  locked = false;
  last_member_id = arg.last_member_id;
  date_last_posted = db.now;
}

abbrev pub count_thread : Board → Board
count_thread b = record b { total_threads = b.total_threads + 1 }

-- The number is taken from the sequence whether or not the row is then accepted.
abbrev pub take_thread_id : Db → Db
take_thread_id db = record db {
  next_thread = suc db.next_thread;
  last_thread = some db.next_thread;
}

abbrev pub insert_thread : CreateThreadParams → Db → Db
insert_thread arg db = record (take_thread_id db) {
  threads = db.threads ++ new_thread arg db ∷ [];
  board = map_board count_thread db.board;
}

-- `CHECK(subject <> '')` and the foreign keys.
abbrev pub may_insert_thread : CreateThreadParams → Db → Bool
may_insert_thread arg db =
    not (is_empty arg.subject) && (has_member arg.member_id db && has_member arg.last_member_id db)

abbrev pub try_insert_thread : CreateThreadParams → Query Unit
try_insert_thread arg db =
    if may_insert_thread arg db
    then (row tt, insert_thread arg db)
    else (db_error, take_thread_id db)

unfoldable pub create_thread : CreateThreadParams → Query Unit
unfolding call has_member
create_thread arg = call (try_insert_thread arg)

-- `currval('thread_id_seq')`; an error before the session has taken a number.
abbrev current : Option ℕ → Answer ℤ
current none = db_error
current (some n) = row (pos n)

abbrev pub current_thread : Query ℤ
current_thread db = (current db.last_thread, db)

unfoldable pub get_thread_sequence_id : Query ℤ
unfolding call
get_thread_sequence_id = call current_thread

pub record CreateThreadPostParams : Type 0 where
  pub thread_id : ℤ
  pub body : Option Text
  pub member_id : ℤ

abbrev pub new_post : CreateThreadPostParams → Db → Post
new_post arg db = record {
  id = pos db.next_post;
  thread_id = arg.thread_id;
  date_posted = db.now;
  member_id = arg.member_id;
  body = arg.body;
}

-- The first of the earliest posts of a thread, and the last of the latest.
earlier : Post → Option Post → Option Post
earlier p none = some p
earlier p (some q) = if leb p.date_posted q.date_posted then some p else some q

unfoldable pub earliest : ℤ → List Post → Option Post
unfolding earlier
earliest tid [] = none
earliest tid (p ∷ ps) =
    let best = earliest tid ps in if eq_ℤ p.thread_id tid then earlier p best else best

later_of : Post → Option Post → Option Post
later_of p none = some p
later_of p (some q) = if ltb q.date_posted p.date_posted then some p else some q

unfoldable pub latest : ℤ → List Post → Option Post
unfolding later_of
latest tid [] = none
latest tid (p ∷ ps) =
    let best = latest tid ps in if eq_ℤ p.thread_id tid then later_of p best else best

abbrev id_of : Option Post → Option ℤ
id_of none = none
id_of (some p) = some p.id

abbrev author_of : ℤ → Option Post → ℤ
author_of fallback none = fallback
author_of fallback (some p) = p.member_id

abbrev pub count_post : Board → Board
count_post b = record b { total_thread_posts = b.total_thread_posts + 1 }

-- What the trigger `thread_post_sync` writes into the post's thread.
abbrev pub bump_thread : ℤ → List Post → ℕ → Thread → Thread
bump_thread tid posts now t = record t {
  posts = t.posts + 1;
  first_post_id = id_of (earliest tid posts);
  last_member_id = author_of t.last_member_id (latest tid posts);
  date_last_posted = now;
}

abbrev pub insert_post : CreateThreadPostParams → Db → Db
insert_post arg db =
    let posts = db.posts ++ new_post arg db ∷ [] in
    record db {
      posts = posts;
      next_post = suc db.next_post;
      board = map_board count_post db.board;
      threads =
          update_where (λ t. eq_ℤ t.id arg.thread_id) (bump_thread arg.thread_id posts db.now)
            db.threads;
    }

-- The foreign keys.
abbrev pub may_insert_post : CreateThreadPostParams → Db → Bool
may_insert_post arg db = has_thread arg.thread_id db && has_member arg.member_id db

abbrev pub take_post_id : Db → Db
take_post_id db = record db { next_post = suc db.next_post }

abbrev pub try_insert_post : CreateThreadPostParams → Query Unit
try_insert_post arg db =
    if may_insert_post arg db then (row tt, insert_post arg db) else (db_error, take_post_id db)

unfoldable pub create_thread_post : CreateThreadPostParams → Query Unit
unfolding call has_member has_thread update_where earliest latest
create_thread_post arg = call (try_insert_post arg)

pub record UpdateThreadParams : Type 0 where
  pub subject : Text
  pub id : ℤ
  pub member_id : ℤ

-- `date_posted >= NOW() - INTERVAL '900 seconds'`
abbrev pub in_window : ℕ → ℕ → Bool
in_window now date = leb now (date + edit_window)

abbrev pub thread_matches : ℕ → UpdateThreadParams → Thread → Bool
thread_matches now arg t =
    eq_ℤ t.id arg.id && (eq_ℤ t.member_id arg.member_id && in_window now t.date_posted)

abbrev pub set_subject : Text → Thread → Thread
set_subject subject t = record t { subject = subject }

-- `CHECK(subject <> '')` is checked on the rows that are changed.
unfoldable pub breaks_check : List Thread → (Thread → Bool) → Text → Bool
breaks_check [] p subject = false
breaks_check (t ∷ ts) p subject =
    let rest = breaks_check ts p subject in if p t then is_empty subject else rest

abbrev pub subject_allowed : UpdateThreadParams → Db → Bool
subject_allowed arg db = not (breaks_check db.threads (thread_matches db.now arg) arg.subject)

abbrev pub write_subject : UpdateThreadParams → Db → Db
write_subject arg db = record db {
  threads = update_where (thread_matches db.now arg) (set_subject arg.subject) db.threads;
}

unfoldable pub update_thread : UpdateThreadParams → Query Unit
unfolding call update_where breaks_check
update_thread arg = call (exec (subject_allowed arg) (write_subject arg))

pub record UpdateThreadPostParams : Type 0 where
  pub body : Option Text
  pub id : ℤ
  pub member_id : ℤ

abbrev pub post_matches : ℕ → UpdateThreadPostParams → Post → Bool
post_matches now arg p =
    eq_ℤ p.id arg.id && (eq_ℤ p.member_id arg.member_id && in_window now p.date_posted)

abbrev pub set_body : Option Text → Post → Post
set_body body p = record p { body = body }

abbrev pub write_body : UpdateThreadPostParams → Db → Db
write_body arg db = record db {
  posts = update_where (post_matches db.now arg) (set_body arg.body) db.posts;
}

unfoldable pub update_thread_post : UpdateThreadPostParams → Query Unit
unfolding call update_where
update_thread_post arg = call (exec (λ db. true) (write_body arg))
