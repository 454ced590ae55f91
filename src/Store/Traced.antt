-- ===== src/Store/Traced.antt =====
-- traced_querier.go: every query again, with a span and, if it succeeds, a recorded duration. The
-- attributes of the spans and the durations themselves are left out.
pub mod Laws
use tdiscuss.Base.{String, Bool, true, false, List, [], ◌∷◌, ◌++◌, Option, ℤ}
use tdiscuss.Text.{Text}
use tdiscuss.Store.Tables.{Db, Board, Post, Answer, row, no_rows, db_error, Query}
use tdiscuss.Store.Members
use tdiscuss.Store.Members.{CreateOrReturnIdRow, MemberRow, UpdateMemberProfileParams}
use tdiscuss.Store.Threads
use tdiscuss.Store.Threads.{
  CreateThreadParams, CreateThreadPostParams, UpdateThreadParams, UpdateThreadPostParams,
}
use tdiscuss.Store.Reads
use tdiscuss.Store.Reads.{ThreadForEditRow, ThreadPostForEditRow, ThreadPostsRow, ThreadsRow}

-- A span ends with the status Ok or Error.
pub record Span : Type 0 where
  pub name : String
  pub succeeded : Bool

pub record Traced : Type 0 where
  pub db : Db
  pub spans : List Span
  pub durations : List String

abbrev pub TracedQuery : Type 0 → Type 0
TracedQuery A = Traced → Answer A × Traced

-- `fmt.Errorf("query error: %w", err)`: another error than `pgx.ErrNoRows`, to which the callers
-- compare it by `==`.
abbrev pub wrapped : {A : Type 0} → Answer A → Answer A
wrapped (row a) = row a
wrapped no_rows = db_error
wrapped db_error = db_error

abbrev pub has_row : {A : Type 0} → Answer A → Bool
has_row (row a) = true
has_row _ = false

abbrev pub recorded : {A : Type 0} → String → Answer A → List String
recorded name (row a) = name ∷ []
recorded name _ = []

-- The body that all methods share.
unfoldable pub trace : {A : Type 0} → String → Query A → TracedQuery A
trace name q t =
    let (answer, db) = q t.db in
    (
      wrapped answer,
      record {
        db = db;
        spans = t.spans ++ record { name = name; succeeded = has_row answer } ∷ [];
        durations = t.durations ++ recorded name answer;
      },
    )

unfoldable pub create_or_return_id : (Text → Text) → Text → TracedQuery CreateOrReturnIdRow
unfolding trace
create_or_return_id lower email = trace "CreateOrReturnID" (Members.create_or_return_id lower email)

unfoldable pub create_thread : CreateThreadParams → TracedQuery Unit
unfolding trace
create_thread arg = trace "CreateThread" (Threads.create_thread arg)

unfoldable pub create_thread_post : CreateThreadPostParams → TracedQuery Unit
unfolding trace
create_thread_post arg = trace "CreateThreadPost" (Threads.create_thread_post arg)

unfoldable pub get_board_data : TracedQuery Board
unfolding trace
get_board_data = trace "GetBoardData" Members.get_board_data

unfoldable pub get_member : ℤ → TracedQuery MemberRow
unfolding trace
get_member id = trace "GetMember" (Members.get_member id)

unfoldable pub get_member_id : Text → TracedQuery ℤ
unfolding trace
get_member_id email = trace "GetMemberId" (Members.get_member_id email)

unfoldable pub get_thread_for_edit : (List Post → List Post) → ℤ → ℤ → TracedQuery ThreadForEditRow
unfolding trace
get_thread_for_edit row_order id uid =
    trace "GetThreadForEdit" (Reads.get_thread_for_edit row_order id uid)

unfoldable pub get_thread_post_for_edit : ℤ → ℤ → TracedQuery ThreadPostForEditRow
unfolding trace
get_thread_post_for_edit id uid =
    trace "GetThreadPostForEdit" (Reads.get_thread_post_for_edit id uid)

unfoldable pub get_thread_sequence_id : TracedQuery ℤ
unfolding trace
get_thread_sequence_id = trace "GetThreadSequenceId" Threads.get_thread_sequence_id

unfoldable pub get_thread_subject_by_id : ℤ → TracedQuery Text
unfolding trace
get_thread_subject_by_id id = trace "GetThreadSubjectById" (Reads.get_thread_subject_by_id id)

unfoldable pub list_member_threads : ℤ → TracedQuery (List ThreadsRow)
unfolding trace
list_member_threads id = trace "ListMemberThreads" (Reads.list_member_threads id)

unfoldable pub list_thread_posts : Text → ℤ → TracedQuery (List ThreadPostsRow)
unfolding trace
list_thread_posts email thread_id =
    trace "ListThreadPosts" (Reads.list_thread_posts email thread_id)

unfoldable pub list_threads : Text → TracedQuery (List ThreadsRow)
unfolding trace
list_threads email = trace "ListThreads" (Reads.list_threads email)

unfoldable pub update_board_edit_window : Option ℤ → TracedQuery Unit
unfolding trace
update_board_edit_window window =
    trace "UpdateBoardEditWindow" (Members.update_board_edit_window window)

unfoldable pub update_board_title : Text → TracedQuery Unit
unfolding trace
update_board_title title = trace "UpdateBoardTitle" (Members.update_board_title title)

unfoldable pub update_member_profile_by_id : UpdateMemberProfileParams → TracedQuery Unit
unfolding trace
update_member_profile_by_id arg =
    trace "UpdateMemberProfileByID" (Members.update_member_profile_by_id arg)

unfoldable pub update_thread : UpdateThreadParams → TracedQuery Unit
unfolding trace
update_thread arg = trace "UpdateThread" (Threads.update_thread arg)

unfoldable pub update_thread_post : UpdateThreadPostParams → TracedQuery Unit
unfolding trace
update_thread_post arg = trace "UpdateThreadPost" (Threads.update_thread_post arg)

unfoldable pub block_member : ℤ → TracedQuery Unit
unfolding trace
block_member id = trace "BlockMember" (Members.block_member id)
