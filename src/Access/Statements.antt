-- ===== src/Access/Statements.antt =====
-- Each statement of queries.sql.go, as a change of the user that makes it.
use tdiscuss.Base.{
  ℕ, suc, ◌≡◌, refl, sym, inl, inr, true, Bool-cases, List, [], ◌∷◌, ◌++◌, Option, none, some, ℤ,
  Grows-snoc, eq_ℤ, eq_ℤ_iff, and-parts,
}
use mathlib.Core.Path.{subst}
use tdiscuss.Text.{Text}
use tdiscuss.Store.Tables.{Thread, Post, Db, Board, update_where, map_board}
use tdiscuss.Store.Members.{
  block, block_member, update_board_edit_window, update_board_title, UpdateMemberProfileParams,
  profile_update, update_member_profile_by_id, set_window, set_title, change_board, title_allowed,
}
use tdiscuss.Store.Threads.{
  CreateThreadParams, new_thread, insert_thread, create_thread, CreateThreadPostParams, new_post,
  bump_thread, insert_post, create_thread_post, UpdateThreadParams, thread_matches, set_subject,
  update_thread, UpdateThreadPostParams, post_matches, set_body, update_thread_post, in_window,
  subject_allowed, write_subject, write_body, may_insert_thread, try_insert_thread, count_thread,
  may_insert_post, try_insert_post, count_post,
}
use tdiscuss.Web.{User}
use tdiscuss.Web.Keeps.{KeepsQuery, Keeps-call, Keeps-exec}
use tdiscuss.Access.{
  Acts, IsAdmin, MemberStep, ProfileStep, ThreadStep, PostStep, NewThread, NewPost, BoardStep,
  Change, Allowed,
}
use tdiscuss.Access.Order.{Change-refl, ThreadStep-refl, Allowed-faults}
use tdiscuss.Access.Rows.{
  Grows-update_where, members_changed, profiles_changed, threads_changed, posts_changed,
  board_changed,
}

module _ (user : Option User) where
  pub block_member-Allowed : (id : ℤ) → IsAdmin user → KeepsQuery (Allowed user) (block_member id)
  unfolding block_member
  block_member-Allowed id admin =
      Keeps-exec (Allowed-faults user) (λ db. true)
        (λ db. record db { members = update_where (λ m. eq_ℤ m.id id) block db.members })
        λ db _ now e. members_changed user now db e _ (
          Grows-update_where (MemberStep user now) (λ m. ⊥) (λ m. eq_ℤ m.id id) block db.members
            (λ m. inl refl) (λ m _. inr (admin, refl)))

  Acts-eq : (a b : ℤ) → eq_ℤ a b ≡ true → Acts user b → Acts user a
  Acts-eq a b same owner = subst (Acts user) (sym ((eq_ℤ_iff a b).0 same)) owner

  pub update_member_profile-Allowed :
      (arg : UpdateMemberProfileParams)
      → Acts user arg.member_id
      → KeepsQuery (Allowed user) (update_member_profile_by_id arg)
  unfolding update_member_profile_by_id
  update_member_profile-Allowed arg owner =
      Keeps-exec (Allowed-faults user) (λ db. true)
        (λ db. record db {
          profiles =
              update_where (λ p. eq_ℤ p.member_id arg.member_id) (profile_update arg) db.profiles;
        })
        λ db _ now e. profiles_changed user now db e _ (
          Grows-update_where (ProfileStep user now) (λ m. ⊥) (λ p. eq_ℤ p.member_id arg.member_id)
            (profile_update arg) db.profiles (λ p. inl refl)
            (λ p own. inr (Acts-eq p.member_id arg.member_id own owner, refl)))

  board_step :
      (f : Board → Board) (now : ℕ) (b : Option Board)
      → IsAdmin user
      → BoardStep user now b (map_board f b)
  board_step f now none admin = tt
  board_step f now (some b) admin = inr admin

  pub update_board_title-Allowed :
      (title : Text) → IsAdmin user → KeepsQuery (Allowed user) (update_board_title title)
  unfolding update_board_title
  update_board_title-Allowed title admin =
      Keeps-exec (Allowed-faults user) (title_allowed title) (change_board (set_title title))
        λ db _ now e.
          board_changed user now db e _ (board_step (set_title title) now db.board admin)

  pub update_board_edit_window-Allowed :
      (window : Option ℤ)
      → IsAdmin user
      → KeepsQuery (Allowed user) (update_board_edit_window window)
  unfolding update_board_edit_window
  update_board_edit_window-Allowed window admin =
      Keeps-exec (Allowed-faults user) (λ db. true) (change_board (set_window window))
        λ db _ now e.
          board_changed user now db e _ (board_step (set_window window) now db.board admin)

  owns_thread :
      (then_now now : ℕ) (arg : UpdateThreadParams) (t : Thread)
      → then_now ≡ now
      → Acts user arg.member_id
      → thread_matches then_now arg t ≡ true
      → ThreadStep user now t (set_subject arg.subject t)
  owns_thread then_now now arg t e owner hit =
      let rest = (and-parts _ _ hit).1 in
      let (mine, fresh) = and-parts _ _ rest in
      record {
        id = refl;
        member_id = refl;
        date_posted = refl;
        views = refl;
        sticky = refl;
        locked = refl;
        subject = inr (
          Acts-eq t.member_id arg.member_id mine owner,
          subst (λ n. in_window n t.date_posted ≡ true) e fresh,
        );
      }

  pub update_thread-Allowed :
      (arg : UpdateThreadParams)
      → Acts user arg.member_id
      → KeepsQuery (Allowed user) (update_thread arg)
  unfolding update_thread
  update_thread-Allowed arg owner =
      Keeps-exec (Allowed-faults user) (subject_allowed arg) (write_subject arg) λ db _ now e.
        threads_changed user now db e _ (
          Grows-update_where (ThreadStep user now) (NewThread user now) (thread_matches db.now arg)
            (set_subject arg.subject) db.threads (ThreadStep-refl user now)
            (λ t hit. owns_thread db.now now arg t e owner hit))

  owns_post :
      (then_now now : ℕ) (arg : UpdateThreadPostParams) (p : Post)
      → then_now ≡ now
      → Acts user arg.member_id
      → post_matches then_now arg p ≡ true
      → PostStep user now p (set_body arg.body p)
  owns_post then_now now arg p e owner hit =
      let rest = (and-parts _ _ hit).1 in
      let (mine, fresh) = and-parts _ _ rest in
      inr (
        Acts-eq p.member_id arg.member_id mine owner,
        subst (λ n. in_window n p.date_posted ≡ true) e fresh,
        refl,
      )

  pub update_thread_post-Allowed :
      (arg : UpdateThreadPostParams)
      → Acts user arg.member_id
      → KeepsQuery (Allowed user) (update_thread_post arg)
  unfolding update_thread_post
  update_thread_post-Allowed arg owner =
      Keeps-exec (Allowed-faults user) (λ db. true) (write_body arg)
        λ db _ now e. posts_changed user now db e _ (
          Grows-update_where (PostStep user now) (NewPost user now) (post_matches db.now arg)
            (set_body arg.body) db.posts (λ p. inl refl)
            (λ p hit. owns_post db.now now arg p e owner hit))

  -- The sequences are nobody's.
  sequences_moved :
      (now : ℕ) (a : Db) (members threads posts : ℕ) (last : Option ℕ)
      → a.now ≡ now
      → Change user now a (record a {
        next_member = members;
        next_thread = threads;
        next_post = posts;
        last_thread = last;
      })
  sequences_moved now a members threads posts last e =
      let c = Change-refl user now a e in
      record {
        members = c.members;
        profiles = c.profiles;
        threads = c.threads;
        posts = c.posts;
        board = c.board;
        clock = e;
      }

  thread_counted : (now : ℕ) (b : Option Board) → BoardStep user now b (map_board count_thread b)
  thread_counted now none = tt
  thread_counted now (some b) = inl (refl, refl)

  post_counted : (now : ℕ) (b : Option Board) → BoardStep user now b (map_board count_post b)
  post_counted now none = tt
  post_counted now (some b) = inl (refl, refl)

  thread_inserted :
      (arg : CreateThreadParams) (db : Db) (now : ℕ)
      → db.now ≡ now
      → Acts user arg.member_id
      → Change user now db (insert_thread arg db)
  thread_inserted arg db now e owner =
      let c = Change-refl user now db e in
      record {
        members = c.members;
        profiles = c.profiles;
        threads =
            Grows-snoc (ThreadStep user now) (NewThread user now) (ThreadStep-refl user now)
              db.threads (new_thread arg db) (owner, e);
        posts = c.posts;
        board = thread_counted now db.board;
        clock = e;
      }

  pub create_thread-Allowed :
      (arg : CreateThreadParams)
      → Acts user arg.member_id
      → KeepsQuery (Allowed user) (create_thread arg)
  unfolding create_thread
  create_thread-Allowed arg owner =
      Keeps-call (Allowed-faults user) (try_insert_thread arg) λ db now e.
        elim (Bool-cases (may_insert_thread arg db)) [
          | inl good ↦ rw good (thread_inserted arg db now e owner)
          | inr bad ↦ rw bad (
              sequences_moved now db db.next_member (suc db.next_thread) db.next_post
                (some db.next_thread) e)
        ]

  -- A new post moves the counters of its thread.
  bump_step :
      (now date : ℕ) (tid : ℤ) (posts : List Post) (t : Thread)
      → ThreadStep user now t (bump_thread tid posts date t)
  bump_step now date tid posts t = record {
    id = refl;
    member_id = refl;
    date_posted = refl;
    views = refl;
    sticky = refl;
    locked = refl;
    subject = inl refl;
  }

  post_inserted :
      (arg : CreateThreadPostParams) (db : Db) (now : ℕ)
      → db.now ≡ now
      → Acts user arg.member_id
      → Change user now db (insert_post arg db)
  post_inserted arg db now e owner =
      let c = Change-refl user now db e in
      record {
        members = c.members;
        profiles = c.profiles;
        threads =
            Grows-update_where (ThreadStep user now) (NewThread user now)
              (λ t. eq_ℤ t.id arg.thread_id)
              (bump_thread arg.thread_id (db.posts ++ new_post arg db ∷ []) db.now) db.threads
              (ThreadStep-refl user now)
              (λ t _. bump_step now db.now arg.thread_id (db.posts ++ new_post arg db ∷ []) t);
        posts =
            Grows-snoc (PostStep user now) (NewPost user now) (λ p. inl refl) db.posts
              (new_post arg db) (owner, e);
        board = post_counted now db.board;
        clock = e;
      }

  pub create_thread_post-Allowed :
      (arg : CreateThreadPostParams)
      → Acts user arg.member_id
      → KeepsQuery (Allowed user) (create_thread_post arg)
  unfolding create_thread_post
  create_thread_post-Allowed arg owner =
      Keeps-call (Allowed-faults user) (try_insert_post arg) λ db now e.
        elim (Bool-cases (may_insert_post arg db)) [
          | inl good ↦ rw good (post_inserted arg db now e owner)
          | inr bad ↦ rw bad (
              sequences_moved now db db.next_member db.next_thread (suc db.next_post) db.last_thread
                e)
        ]
