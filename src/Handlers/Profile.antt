-- ===== src/Handlers/Profile.antt =====
-- handlers.go: `EditMemberProfile`.
use tdiscuss.Base.{Bool, true, false, none, some}
use tdiscuss.Text.{Text, text_eq}
use tdiscuss.Validation.{validate_profile_form}
use tdiscuss.Store.Members.{get_member, update_member_profile_by_id}
use tdiscuss.Web.{User, Request, Response, Service, Method, redirect, edit_profile}
use tdiscuss.Web.Action.{choose, Action, pure, ◌>>=◌, ◌>>◌, require, reject, ask, get_user, render}
use tdiscuss.Handlers.{frame, input, member_path, parse_html_strict}

abbrev pub is_get : Method → Bool
is_get Method.get = true
is_get _ = false

abbrev pub is_get_or_post : Method → Bool
is_get_or_post Method.get = true
is_get_or_post Method.post = true
is_get_or_post _ = false

-- The parameters name no timezone, which is a null.
unfoldable pub save_profile : Service → User → Text → Text → Text → Text → Text → Action Unit
save_profile svc user photo location preferred_name bio pronouns = ask (
    update_member_profile_by_id (record {
      member_id = user.id;
      photo_url = some (parse_html_strict svc photo);
      location = some (parse_html_strict svc location);
      bio = some (parse_html_strict svc bio);
      timezone = none;
      preferred_name = some (parse_html_strict svc preferred_name);
      pronouns = some (parse_html_strict svc pronouns);
    }))

unfoldable pub post_profile : Service → Request → User → Action Response
post_profile svc r user = do
  require r.form_ok 400
  let photo = input r "photo_url"
  let location = input r "location"
  let preferred_name = input r "preferred_name"
  let bio = input r "bio"
  let pronouns = input r "pronouns"
  reject (validate_profile_form svc.parse_url photo location preferred_name bio pronouns)
  save_profile svc user photo location preferred_name bio pronouns
  pure (redirect (member_path user.id))

unfoldable pub edit_member_profile : Service → Request → Action Response
edit_member_profile svc r = do
  require (is_get_or_post r.method) 405
  user ← get_user r
  member ← ask (get_member user.id)
  require (text_eq member.email user.email) 403
  choose (is_get r.method) (render svc (edit_profile (frame svc r user) member))
      (post_profile svc r user)
