-- ===== src/Store/Members.antt =====
-- queries.sql.go: members, their profiles and the board.
use tdiscuss.Base.{
  suc, ◌+◌, Bool, true, false, not, ◌&&◌, List, [], ◌∷◌, ◌++◌, if◌then◌else◌, Option, none, some, ℤ,
  pos, eq_ℤ,
}
use tdiscuss.Text.{Text, text_eq, is_empty}
use tdiscuss.Store.Tables.{
  Member, Profile, Board, Db, row, db_error, Query, call, exec, one, find, update_where, map_board,
  member_by_id, is_some,
}

abbrev pub block : Member → Member
block m = record m { is_blocked = true }

unfoldable pub block_member : ℤ → Query Unit
unfolding call update_where
block_member id = call (
    exec (λ db. true)
      (λ db. record db { members = update_where (λ m. eq_ℤ m.id id) block db.members }))

pub record CreateOrReturnIdRow : Type 0 where
  pub id : ℤ
  pub is_admin : Bool
  pub is_blocked : Bool

abbrev is_first : List Member → Bool
is_first [] = true
is_first (_ ∷ _) = false

abbrev pub new_member : Text → Db → Member
new_member email db = record {
  id = pos db.next_member;
  email = email;
  is_admin = is_first db.members;
  is_blocked = false;
}

abbrev pub new_profile : Db → Profile
new_profile db = record {
  member_id = pos db.next_member;
  location = none;
  pronouns = none;
  preferred_name = none;
  photo_url = none;
  timezone = none;
  bio = none;
}

abbrev pub count_member : Board → Board
count_member b = record b { total_members = b.total_members + 1 }

-- The insertion of a member with its profile, and the trigger `member_sync`.
abbrev pub insert_member : Text → Db → Db
insert_member email db = record db {
  members = db.members ++ new_member email db ∷ [];
  profiles = db.profiles ++ new_profile db ∷ [];
  board = map_board count_member db.board;
  next_member = suc db.next_member;
}

abbrev pub described : Member → CreateOrReturnIdRow
described m = record { id = m.id; is_admin = m.is_admin; is_blocked = m.is_blocked }

-- `lower` is PostgreSQL's `LOWER`, whose index makes the addresses unique.
abbrev pub may_insert : (Text → Text) → Text → Db → Bool
may_insert lower email db =
    not (is_empty email)
    && not (is_some (find (λ m. text_eq (lower m.email) (lower email)) db.members))

-- A refused insertion has taken a number from the sequence.
abbrev pub return_or_insert : (Text → Text) → Text → Option Member → Query CreateOrReturnIdRow
return_or_insert lower email (some m) db =
    -- the address was found: with members about, the flags are the stored ones
    (row (described m), db)
return_or_insert lower email none db =
    if may_insert lower email db
    then (row (described (new_member email db)), insert_member email db)
    else (db_error, record db { next_member = suc db.next_member })

-- The function `createOrReturnID` of the schema.
unfoldable pub create_or_return_id : (Text → Text) → Text → Query CreateOrReturnIdRow
unfolding call find
create_or_return_id lower email =
    call (λ db. return_or_insert lower email (find (λ m. text_eq m.email email) db.members) db)

-- The rows of `GetBoardData` are those of the table.
unfoldable pub get_board_data : Query Board
unfolding call
get_board_data = call (one (λ db. db.board))

pub record MemberRow : Type 0 where
  pub email : Text
  pub id : ℤ
  pub location : Option Text
  pub bio : Option Text
  pub timezone : Option Text
  pub preferred_name : Option Text
  pub pronouns : Option Text
  pub photo_url : Option Text

abbrev profile_of : Db → Member → Option Profile
profile_of db m = find (λ p. eq_ℤ p.member_id m.id) db.profiles

-- The left join of a member with its profile.
abbrev member_row : Member → Option Profile → MemberRow
member_row m none = record {
  email = m.email;
  id = m.id;
  location = none;
  bio = none;
  timezone = none;
  preferred_name = none;
  pronouns = none;
  photo_url = none;
}
member_row m (some p) = record {
  email = m.email;
  id = m.id;
  location = p.location;
  bio = p.bio;
  timezone = p.timezone;
  preferred_name = p.preferred_name;
  pronouns = p.pronouns;
  photo_url = p.photo_url;
}

abbrev joined : Db → Option Member → Option MemberRow
joined db none = none
joined db (some m) = some (member_row m (profile_of db m))

abbrev pub member_in : ℤ → Db → Option MemberRow
member_in id db = joined db (member_by_id id db)

unfoldable pub get_member : ℤ → Query MemberRow
unfolding call find member_by_id
get_member id = call (one (member_in id))

abbrev id_of : Option Member → Option ℤ
id_of none = none
id_of (some m) = some m.id

unfoldable pub get_member_id : Text → Query ℤ
unfolding call find
get_member_id email = call (one (λ db. id_of (find (λ m. text_eq m.email email) db.members)))

abbrev pub set_window : Option ℤ → Board → Board
set_window window b = record b { edit_window = window }

abbrev pub set_title : Text → Board → Board
set_title title b = record b { title = title }

abbrev pub change_board : (Board → Board) → Db → Db
change_board f db = record db { board = map_board f db.board }

unfoldable pub update_board_edit_window : Option ℤ → Query Unit
unfolding call
update_board_edit_window window = call (exec (λ db. true) (change_board (set_window window)))

-- `CHECK(title <> '')` is checked on the rows that are changed.
abbrev pub title_allowed : Text → Db → Bool
title_allowed title db = not (is_empty title && is_some db.board)

unfoldable pub update_board_title : Text → Query Unit
unfolding call
update_board_title title = call (exec (title_allowed title) (change_board (set_title title)))

pub record UpdateMemberProfileParams : Type 0 where
  pub member_id : ℤ
  pub photo_url : Option Text
  pub location : Option Text
  pub bio : Option Text
  pub timezone : Option Text
  pub preferred_name : Option Text
  pub pronouns : Option Text

abbrev pub profile_update : UpdateMemberProfileParams → Profile → Profile
profile_update arg p = record p {
  photo_url = arg.photo_url;
  location = arg.location;
  bio = arg.bio;
  timezone = arg.timezone;
  preferred_name = arg.preferred_name;
  pronouns = arg.pronouns;
}

unfoldable pub update_member_profile_by_id : UpdateMemberProfileParams → Query Unit
unfolding call update_where
update_member_profile_by_id arg = call (
    exec (λ db. true)
      (λ db. record db {
        profiles =
            update_where (λ p. eq_ℤ p.member_id arg.member_id) (profile_update arg) db.profiles;
      }))
