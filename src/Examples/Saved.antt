-- ===== src/Examples/Saved.antt =====
-- The theorems about saving a profile and about a refused change of the board, at the small board.
use tdiscuss.Base.{◌≡◌, ◌≢◌, refl, true, false, [], ◌∷◌, none, some, pos, ℤ}
use tdiscuss.Text.{codes, is_empty}
use tdiscuss.Text.Decimal.{parse_int}
use tdiscuss.Validation.{validate_profile_form}
use tdiscuss.Store.Tables.{Db, Profile, find, member_by_id, map_board}
use tdiscuss.Store.Members.{MemberRow, member_in, set_title}
use tdiscuss.Web.{User, Request, redirect, error, value_of}
use tdiscuss.Web.Action.{serve}
use tdiscuss.Handlers.{input, member_path}
use tdiscuss.Handlers.Profile.{edit_member_profile}
use tdiscuss.Handlers.Admin.{admin_handler}
use tdiscuss.Handlers.Saved.{profile_by_id, as_entered, edit_member_profile-saves}
use tdiscuss.Handlers.Retitled.{admin_handler-half_saved}
use tdiscuss.Examples.{ann, service, db, posted}

abbrev zoned : Profile
zoned = record {
  member_id = pos 1;
  location = none;
  pronouns = none;
  preferred_name = none;
  photo_url = none;
  timezone = some (codes "Europe/Oslo");
  bio = none;
}

abbrev zoned_db : Db
zoned_db = record db { profiles = zoned ∷ [] }

abbrev zoned_row : MemberRow
zoned_row = record {
  email = codes "ann@example.org";
  id = pos 1;
  location = none;
  bio = none;
  timezone = some (codes "Europe/Oslo");
  preferred_name = none;
  pronouns = none;
  photo_url = none;
}

abbrev profile_posted : Request
profile_posted = record posted {
  path = codes "/member/edit";
  form = ("location", codes "Oslo") ∷ ("preferred_name", codes "Ann") ∷ [];
}

zoned-found : member_in ann.id zoned_db ≡ some zoned_row
unfolding member_by_id find
zoned-found = refl

zoned-own : profile_by_id ann.id zoned_db.profiles ≡ some zoned
unfolding find
zoned-own = refl

profile_posted-valid :
    validate_profile_form service.parse_url
      (input profile_posted "photo_url")
      (input profile_posted "location")
      (input profile_posted "preferred_name")
      (input profile_posted "bio")
      (input profile_posted "pronouns")
    ≡ []
unfolding validate_profile_form input
profile_posted-valid = refl

edit_member_profile-saves_example :
    let after = serve (edit_member_profile service profile_posted) zoned_db in
    (after.0 ≡ redirect (member_path ann.id))
    × (profile_by_id ann.id after.1.profiles ≡ some (as_entered service profile_posted ann))
    × ((j : ℤ) → j ≢ ann.id → profile_by_id j after.1.profiles ≡ profile_by_id j zoned_db.profiles)
    × (after.1.members ≡ zoned_db.members)
    × (after.1.threads ≡ zoned_db.threads)
    × (after.1.posts ≡ zoned_db.posts)
    × (after.1.board ≡ zoned_db.board)
edit_member_profile-saves_example =
    edit_member_profile-saves service profile_posted ann zoned_row zoned zoned_db tt refl refl
      zoned-found refl refl profile_posted-valid zoned-own

abbrev boss : User
boss = record ann { is_admin = true }

abbrev retitled : Request
retitled = record posted {
  path = codes "/admin";
  form =
      ("action", codes "update_config")
      ∷ ("board_title", codes "News")
      ∷ ("edit_window", codes "soon")
      ∷ [];
  user = some boss;
}

no_member : value_of "member_id" retitled.form ≡ []
unfolding value_of
no_member = refl

no_thread : value_of "thread_id" retitled.form ≡ []
unfolding value_of
no_thread = refl

updates : value_of "action" retitled.form ≡ codes "update_config"
unfolding value_of
updates = refl

new_title : is_empty (value_of "board_title" retitled.form) ≡ false
unfolding value_of
new_title = refl

new_window : is_empty (value_of "edit_window" retitled.form) ≡ false
unfolding value_of
new_window = refl

no_number : parse_int 32 (value_of "edit_window" retitled.form) ≡ none
unfolding value_of parse_int
no_number = refl

admin_handler-half_saved_example :
    ((serve (admin_handler service retitled) db).0 ≡ error 400)
    × ((serve (admin_handler service retitled) db).1.board
        ≡ map_board (set_title (value_of "board_title" retitled.form)) db.board)
admin_handler-half_saved_example =
    admin_handler-half_saved service retitled boss db tt refl refl refl refl no_member no_thread
      updates new_title new_window no_number
