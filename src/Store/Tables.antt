-- ===== src/Store/Tables.antt =====
-- The rows, the database, and what one call of it does.
use tdiscuss.Base.{ℕ, Bool, true, false, List, [], ◌∷◌, if◌then◌else◌, Option, none, some, ℤ, eq_ℤ}
use tdiscuss.Text.{Text}

pub record Member : Type 0 where
  pub id : ℤ
  pub email : Text
  pub is_admin : Bool
  pub is_blocked : Bool

pub record Profile : Type 0 where
  pub member_id : ℤ
  pub location : Option Text
  pub pronouns : Option Text
  pub preferred_name : Option Text
  pub photo_url : Option Text
  pub timezone : Option Text
  pub bio : Option Text

pub record Thread : Type 0 where
  pub id : ℤ
  pub member_id : ℤ
  pub subject : Text
  pub date_posted : ℕ
  pub first_post_id : Option ℤ
  pub posts : ℕ
  pub views : ℕ
  pub sticky : Bool
  pub locked : Bool
  pub last_member_id : ℤ
  pub date_last_posted : ℕ

pub record Post : Type 0 where
  pub id : ℤ
  pub thread_id : ℤ
  pub date_posted : ℕ
  pub member_id : ℤ
  pub body : Option Text

pub record Board : Type 0 where
  pub title : Text
  pub edit_window : Option ℤ
  pub total_members : ℕ
  pub total_threads : ℕ
  pub total_thread_posts : ℕ

-- A `next_` field is the number that the table's sequence gives next; `last_thread` is what
-- `currval('thread_id_seq')` gives in this session.
pub record Db : Type 0 where
  pub members : List Member
  pub profiles : List Profile
  pub threads : List Thread
  pub posts : List Post
  pub board : Option Board
  pub next_member : ℕ
  pub next_thread : ℕ
  pub next_post : ℕ
  pub last_thread : Option ℕ
  pub now : ℕ
  pub faults : List Bool

-- A row, `pgx.ErrNoRows`, or another error.
pub data Answer (A : Type 0) : Type 0 where
  row : A → Answer A
  no_rows db_error : Answer A

abbrev pub Query : Type 0 → Type 0
Query A = Db → Answer A × Db

abbrev pub next_fault : List Bool → Bool
next_fault [] = false
next_fault (b ∷ bs) = b

abbrev pub later : List Bool → List Bool
later [] = []
later (b ∷ bs) = bs

-- The call is made: its entry of the schedule is used up.
abbrev pub spent : Db → Db
spent db = record db { faults = later db.faults }

unfoldable pub call : {A : Type 0} → Query A → Query A
call q db = if next_fault db.faults then (db_error, spent db) else q (spent db)

-- A statement that returns no rows (`:exec`): a check of the constraints, then a change.
abbrev pub exec : (Db → Bool) → (Db → Db) → Query Unit
exec allowed change db = if allowed db then (row tt, change db) else (db_error, db)

-- A statement of one row (`:one`).
abbrev answer_of : {A : Type 0} → Option A → Answer A
answer_of none = no_rows
answer_of (some a) = row a

abbrev pub one : {A : Type 0} → (Db → Option A) → Query A
one f db = (answer_of (f db), db)

abbrev pub many : {A : Type 0} → (Db → A) → Query A
many f db = (row (f db), db)

-- The first row with a property.
unfoldable pub find : {A : Type 0} → (A → Bool) → List A → Option A
find p [] = none
find p (x ∷ xs) = if p x then some x else find p xs

unfoldable pub member_by_id : ℤ → Db → Option Member
unfolding find
member_by_id id db = find (λ m. eq_ℤ m.id id) db.members

unfoldable pub thread_by_id : ℤ → Db → Option Thread
unfolding find
thread_by_id id db = find (λ t. eq_ℤ t.id id) db.threads

abbrev pub is_some : {A : Type 0} → Option A → Bool
is_some none = false
is_some (some _) = true

unfoldable pub has_member : ℤ → Db → Bool
unfolding member_by_id
has_member id db = is_some (member_by_id id db)

unfoldable pub has_thread : ℤ → Db → Bool
unfolding thread_by_id
has_thread id db = is_some (thread_by_id id db)

-- `UPDATE … WHERE`: every row that meets the condition is changed.
unfoldable pub update_where : {A : Type 0} → (A → Bool) → (A → A) → List A → List A
update_where p f [] = []
update_where p f (x ∷ xs) = (if p x then f x else x) ∷ update_where p f xs

abbrev pub map_board : (Board → Board) → Option Board → Option Board
map_board f none = none
map_board f (some b) = some (f b)

-- `NOW() - INTERVAL '900 seconds'`
abbrev pub edit_window : ℕ
edit_window = 900000000
