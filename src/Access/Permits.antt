-- ===== src/Access/Permits.antt =====
-- What a relation must allow to hold of every handler.
use tdiscuss.Base.{Option, ℤ}
use tdiscuss.Text.{Text}
use tdiscuss.Store.Tables.{Db}
use tdiscuss.Web.{User}
use tdiscuss.Web.Keeps.{KeepsQuery, AllowsFaults}
use tdiscuss.Access.{Acts, IsAdmin}
use tdiscuss.Store.Members.{
  UpdateMemberProfileParams, block_member, update_board_title, update_board_edit_window,
  update_member_profile_by_id,
}
use tdiscuss.Store.Threads.{
  CreateThreadParams, CreateThreadPostParams, UpdateThreadParams, UpdateThreadPostParams,
  create_thread, create_thread_post, update_thread, update_thread_post,
}

-- A relation that a failed call, a rollback and each statement in the hands of its user keep.
pub record Permits (R : Db → Db → Type 0) (user : Option User) : Type 0 where
  pub faults : AllowsFaults R
  pub makes_thread :
      (arg : CreateThreadParams) → Acts user arg.member_id → KeepsQuery R (create_thread arg)
  pub makes_post :
      (arg : CreateThreadPostParams)
      → Acts user arg.member_id
      → KeepsQuery R (create_thread_post arg)
  pub edits_thread :
      (arg : UpdateThreadParams) → Acts user arg.member_id → KeepsQuery R (update_thread arg)
  pub edits_post :
      (arg : UpdateThreadPostParams)
      → Acts user arg.member_id
      → KeepsQuery R (update_thread_post arg)
  pub edits_profile :
      (arg : UpdateMemberProfileParams)
      → Acts user arg.member_id
      → KeepsQuery R (update_member_profile_by_id arg)
  pub blocks : (id : ℤ) → IsAdmin user → KeepsQuery R (block_member id)
  pub sets_title : (title : Text) → IsAdmin user → KeepsQuery R (update_board_title title)
  pub sets_window :
      (window : Option ℤ) → IsAdmin user → KeepsQuery R (update_board_edit_window window)
