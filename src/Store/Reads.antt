-- ===== src/Store/Reads.antt =====
-- queries.sql.go: the statements that read threads and posts.
use tdiscuss.Base.{
  ℕ, Bool, false, not, ◌&&◌, List, [], ◌∷◌, if◌then◌else◌, Option, none, some, ℤ, eq_ℤ, leb, take,
  map,
}
use tdiscuss.Text.{Text, text_eq}
use tdiscuss.Store.Tables.{
  Member, Thread, Post, Db, Query, call, one, many, find, member_by_id, thread_by_id,
}
use tdiscuss.Store.Threads.{in_window}

unfoldable pub keep : {A : Type 0} → (A → Bool) → List A → List A
keep p [] = []
keep p (x ∷ xs) = if p x then x ∷ keep p xs else keep p xs

-- `ORDER BY`, by a test that says which of two rows may stand first; rows of one key keep the
-- order of the table.
unfoldable pub insert_row : {A : Type 0} → (A → A → Bool) → A → List A → List A
insert_row before x [] = x ∷ []
insert_row before x (y ∷ ys) = if before x y then x ∷ y ∷ ys else y ∷ insert_row before x ys

unfoldable pub order_by : {A : Type 0} → (A → A → Bool) → List A → List A
unfolding insert_row
order_by before [] = []
order_by before (x ∷ xs) = insert_row before x (order_by before xs)

pub record ThreadForEditRow : Type 0 where
  pub email : Option Text
  pub thread_id : ℤ
  pub subject : Text
  pub thread_post_id : Option ℤ
  pub body : Option Text

abbrev edit_row : Thread → Member → List Post → ThreadForEditRow
edit_row t m [] = record {
  email = some m.email;
  thread_id = t.id;
  subject = t.subject;
  thread_post_id = none;
  body = none;
}
edit_row t m (p ∷ ps) = record {
  email = some m.email;
  thread_id = t.id;
  subject = t.subject;
  thread_post_id = some p.id;
  body = p.body;
}

abbrev pub posts_of : ℤ → List Post → List Post
posts_of tid posts = keep (λ p. eq_ℤ p.thread_id tid) posts

abbrev owned_row :
    (List Post → List Post) → ℤ → Db → Thread → Option Member → Option ThreadForEditRow
owned_row row_order uid db t none = none
owned_row row_order uid db t (some m) =
    if eq_ℤ m.id uid then some (edit_row t m (row_order (posts_of t.id db.posts))) else none

abbrev row_for_edit : (List Post → List Post) → ℤ → Db → Option Thread → Option ThreadForEditRow
row_for_edit row_order uid db none = none
row_for_edit row_order uid db (some t) = owned_row row_order uid db t (member_by_id t.member_id db)

abbrev pub thread_for_edit_in : (List Post → List Post) → ℤ → ℤ → Db → Option ThreadForEditRow
thread_for_edit_in row_order id uid db = row_for_edit row_order uid db (thread_by_id id db)

-- The statement has no `ORDER BY`: `row_order` is the order in which the server returns the posts
-- of the thread, and the first is taken.
unfoldable pub get_thread_for_edit : (List Post → List Post) → ℤ → ℤ → Query ThreadForEditRow
unfolding call find keep member_by_id thread_by_id
get_thread_for_edit row_order id uid = call (one (thread_for_edit_in row_order id uid))

pub record ThreadPostForEditRow : Type 0 where
  pub id : ℤ
  pub body : Option Text

abbrev post_row : ℤ → Post → Option Member → Option ThreadPostForEditRow
post_row uid p none = none
post_row uid p (some m) = if eq_ℤ m.id uid then some (record { id = p.id; body = p.body }) else none

abbrev post_for_edit : ℤ → Db → Option Post → Option ThreadPostForEditRow
post_for_edit uid db none = none
post_for_edit uid db (some p) = post_row uid p (member_by_id p.member_id db)

abbrev pub post_for_edit_in : ℤ → ℤ → Db → Option ThreadPostForEditRow
post_for_edit_in id uid db = post_for_edit uid db (find (λ p. eq_ℤ p.id id) db.posts)

unfoldable pub get_thread_post_for_edit : ℤ → ℤ → Query ThreadPostForEditRow
unfolding call find member_by_id
get_thread_post_for_edit id uid = call (one (post_for_edit_in id uid))

abbrev subject_of : Option Thread → Option Text
subject_of none = none
subject_of (some t) = some t.subject

abbrev pub subject_in : ℤ → Db → Option Text
subject_in id db = subject_of (thread_by_id id db)

unfoldable pub get_thread_subject_by_id : ℤ → Query Text
unfolding call find thread_by_id
get_thread_subject_by_id id = call (one (subject_in id))

abbrev email_of : Option Member → Option Text
email_of none = none
email_of (some m) = some m.email

abbrev member_id_of : Option Member → Option ℤ
member_id_of none = none
member_id_of (some m) = some m.id

-- `m.email = $email`, false where there is no member.
abbrev pub email_is : Text → Option Member → Bool
email_is email none = false
email_is email (some m) = text_eq m.email email

abbrev thread_in_window : ℕ → Option Thread → Bool
thread_in_window now none = false
thread_in_window now (some t) = in_window now t.date_posted

abbrev thread_id_of : Option Thread → Option ℤ
thread_id_of none = none
thread_id_of (some t) = some t.id

pub record ThreadPostsRow : Type 0 where
  pub id : ℤ
  pub date_posted : ℕ
  pub member_id : Option ℤ
  pub email : Option Text
  pub body : Option Text
  pub thread_id : Option ℤ
  pub can_edit : Bool

-- The date that decides is the thread's, not the post's.
abbrev pub thread_posts_row : Text → Db → Post → ThreadPostsRow
thread_posts_row email db p =
    let m = member_by_id p.member_id db in
    let t = thread_by_id p.thread_id db in
    record {
      id = p.id;
      date_posted = p.date_posted;
      member_id = member_id_of m;
      email = email_of m;
      body = p.body;
      thread_id = thread_id_of t;
      can_edit = email_is email m && thread_in_window db.now t;
    }

abbrev pub older : ThreadPostsRow → ThreadPostsRow → Bool
older r s = leb r.date_posted s.date_posted

abbrev pub thread_posts_in : Text → ℤ → Db → List ThreadPostsRow
thread_posts_in email thread_id db =
    order_by older (map (thread_posts_row email db) (posts_of thread_id db.posts))

unfoldable pub list_thread_posts : Text → ℤ → Query (List ThreadPostsRow)
unfolding call find keep order_by member_by_id thread_by_id
list_thread_posts email thread_id = call (many (thread_posts_in email thread_id))

pub record ThreadsRow : Type 0 where
  pub thread_id : ℤ
  pub date_last_posted : ℕ
  pub id : Option ℤ
  pub email : Option Text
  pub last_id : Option ℤ
  pub last_name : Option Text
  pub subject : Text
  pub posts : ℕ
  pub views : ℕ
  pub can_edit : Bool
  pub sticky : Bool
  pub locked : Bool

abbrev pub threads_row : Text → Db → Thread → ThreadsRow
threads_row email db t =
    let m = member_by_id t.member_id db in
    let l = member_by_id t.last_member_id db in
    record {
      thread_id = t.id;
      date_last_posted = t.date_last_posted;
      id = member_id_of m;
      email = email_of m;
      last_id = member_id_of l;
      last_name = email_of l;
      subject = t.subject;
      posts = t.posts;
      views = t.views;
      can_edit = email_is email m && in_window db.now t.date_posted;
      sticky = t.sticky;
      locked = t.locked;
    }

abbrev pub newer : ThreadsRow → ThreadsRow → Bool
newer r s = leb s.date_last_posted r.date_last_posted

abbrev pub threads_in : Text → Db → List ThreadsRow
threads_in email db =
    take 100 (order_by newer (map (threads_row email db) (keep (λ t. not t.sticky) db.threads)))

unfoldable pub list_threads : Text → Query (List ThreadsRow)
unfolding call find keep order_by member_by_id
list_threads email = call (many (threads_in email))

-- The left join with the member, restricted to `m.id = $1`: the rows of a member that is there.
abbrev is_member : ℤ → Option Member → Bool
is_member id none = false
is_member id (some m) = eq_ℤ m.id id

abbrev by_member : ℤ → Db → Thread → Bool
by_member id db t = not t.sticky && is_member id (member_by_id t.member_id db)

-- The rows carry no `can_edit`; it is left false.
abbrev plain_row : Db → Thread → ThreadsRow
plain_row db t = record (threads_row [] db t) { can_edit = false }

abbrev pub member_threads_in : ℤ → Db → List ThreadsRow
member_threads_in id db =
    take 10 (order_by newer (map (plain_row db) (keep (by_member id db) db.threads)))

unfoldable pub list_member_threads : ℤ → Query (List ThreadsRow)
unfolding call find keep order_by member_by_id
list_member_threads id = call (many (member_threads_in id))
