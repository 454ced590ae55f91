-- ===== src/Web/Reads.antt =====
-- The statements that only read leave the tables alone.
use tdiscuss.Base.{ℤ, List}
use tdiscuss.Text.{Text}
use tdiscuss.Store.Tables.{Db, Post}
use tdiscuss.Store.Members.{get_board_data, get_member, member_in}
use tdiscuss.Store.Threads.{get_thread_sequence_id, current_thread}
use tdiscuss.Store.Reads.{
  get_thread_for_edit, get_thread_post_for_edit, get_thread_subject_by_id, list_thread_posts,
  list_threads, list_member_threads, thread_for_edit_in, post_for_edit_in, subject_in,
  thread_posts_in, threads_in, member_threads_in,
}
use tdiscuss.Web.Keeps.{KeepsQuery, AllowsFaults, Keeps-one, Keeps-many, Keeps-call}

module _ {R : Db → Db → Type 0} (faults : AllowsFaults R) where
  pub get_board_data-keeps : KeepsQuery R get_board_data
  unfolding get_board_data
  get_board_data-keeps = Keeps-one faults (λ db. db.board)

  pub get_member-keeps : (id : ℤ) → KeepsQuery R (get_member id)
  unfolding get_member
  get_member-keeps id = Keeps-one faults (member_in id)

  pub get_thread_sequence_id-keeps : KeepsQuery R get_thread_sequence_id
  unfolding get_thread_sequence_id
  get_thread_sequence_id-keeps = Keeps-call faults current_thread faults.order.same

  pub get_thread_for_edit-keeps :
      (row_order : List Post → List Post) (id uid : ℤ)
      → KeepsQuery R (get_thread_for_edit row_order id uid)
  unfolding get_thread_for_edit
  get_thread_for_edit-keeps row_order id uid =
      Keeps-one faults (thread_for_edit_in row_order id uid)

  pub get_thread_post_for_edit-keeps : (id uid : ℤ) → KeepsQuery R (get_thread_post_for_edit id uid)
  unfolding get_thread_post_for_edit
  get_thread_post_for_edit-keeps id uid = Keeps-one faults (post_for_edit_in id uid)

  pub get_thread_subject-keeps : (id : ℤ) → KeepsQuery R (get_thread_subject_by_id id)
  unfolding get_thread_subject_by_id
  get_thread_subject-keeps id = Keeps-one faults (subject_in id)

  pub list_thread_posts-keeps : (email : Text) (id : ℤ) → KeepsQuery R (list_thread_posts email id)
  unfolding list_thread_posts
  list_thread_posts-keeps email id = Keeps-many faults (thread_posts_in email id)

  pub list_threads-keeps : (email : Text) → KeepsQuery R (list_threads email)
  unfolding list_threads
  list_threads-keeps email = Keeps-many faults (threads_in email)

  pub list_member_threads-keeps : (id : ℤ) → KeepsQuery R (list_member_threads id)
  unfolding list_member_threads
  list_member_threads-keeps id = Keeps-many faults (member_threads_in id)
