-- ===== src/Handlers/Saved.antt =====
-- What saving a profile leaves, where nothing fails.
use tdiscuss.Base.{
  ◌≡◌, ◌≢◌, refl, ap, ◌∙◌, Bool, true, false, List, [], ◌∷◌, if◌then◌else◌, Option, none, some, ℤ,
  eq_ℤ, eq_ℤ_iff, arith,
}
use tdiscuss.Text.{text_eq_refl}
use tdiscuss.Validation.{validate_profile_form}
use tdiscuss.Store.Tables.{
  Db, Profile, row, exec, one, spent, next_fault, later, find, update_where,
}
use tdiscuss.Store.Members.{
  MemberRow, UpdateMemberProfileParams, profile_update, update_member_profile_by_id, get_member,
  member_in,
}
use tdiscuss.Web.{User, Request, Service, Method, redirect}
use tdiscuss.Web.Action.{serve}
use tdiscuss.Web.Runs.{
  NoFaults, next_fault_fine, later-NoFaults, call_fine, Gives, Gives-pure, Gives-bind, Gives-ask,
  Gives-second, Gives-require, Gives-reject, Gives-get_user, Gives-serve,
}
use tdiscuss.Handlers.{input, member_path, parse_html_strict}
use tdiscuss.Handlers.Profile.{
  is_get, is_get_or_post, save_profile, post_profile, edit_member_profile,
}

-- The profile of a member.
abbrev pub profile_by_id : ℤ → List Profile → Option Profile
profile_by_id id ps = find (λ p. eq_ℤ p.member_id id) ps

abbrev updated : (Profile → Bool) → UpdateMemberProfileParams → Option Profile → Option Profile
updated m arg none = none
updated m arg (some p) = some (if m p then profile_update arg p else p)

find-updated :
    (m : Profile → Bool) (arg : UpdateMemberProfileParams) (id : ℤ) (ps : List Profile)
    → profile_by_id id (update_where m (profile_update arg) ps)
      ≡ updated m arg (profile_by_id id ps)
unfolding find update_where
find-updated m arg id [] = refl
find-updated m arg id (p ∷ ps) = ground (arith, find-updated m arg id ps)

find-own :
    (id : ℤ) (ps : List Profile) (q : Profile)
    → profile_by_id id ps ≡ some q
    → eq_ℤ q.member_id id ≡ true
unfolding find
find-own id [] q e = cc
find-own id (p ∷ ps) q e = ground (arith, find-own id ps q)

updated_other :
    (arg : UpdateMemberProfileParams) (j : ℤ) (o : Option Profile)
    → j ≢ arg.member_id
    → ((q : Profile) → o ≡ some q → eq_ℤ q.member_id j ≡ true)
    → updated (λ p. eq_ℤ p.member_id arg.member_id) arg o ≡ o
updated_other arg j none ne h = refl
updated_other arg j (some q) ne h =
    ground (arith, h q refl, eq_ℤ_iff q.member_id j, eq_ℤ_iff q.member_id arg.member_id)

-- The row that is meant: every field from its own input, and no timezone.
abbrev pub as_entered : Service → Request → User → Profile
as_entered svc r u = record {
  member_id = u.id;
  location = some (parse_html_strict svc (input r "location"));
  pronouns = some (parse_html_strict svc (input r "pronouns"));
  preferred_name = some (parse_html_strict svc (input r "preferred_name"));
  photo_url = some (parse_html_strict svc (input r "photo_url"));
  timezone = none;
  bio = some (parse_html_strict svc (input r "bio"));
}

-- The parameters that the form of a profile makes.
abbrev profile_form : Service → Request → User → UpdateMemberProfileParams
profile_form svc r u = record {
  member_id = u.id;
  photo_url = some (parse_html_strict svc (input r "photo_url"));
  location = some (parse_html_strict svc (input r "location"));
  bio = some (parse_html_strict svc (input r "bio"));
  timezone = none;
  preferred_name = some (parse_html_strict svc (input r "preferred_name"));
  pronouns = some (parse_html_strict svc (input r "pronouns"));
}

abbrev saved : UpdateMemberProfileParams → Db → Db
saved arg db = record db {
  profiles = update_where (λ p. eq_ℤ p.member_id arg.member_id) (profile_update arg) db.profiles;
}

save_fine :
    (arg : UpdateMemberProfileParams) (db : Db)
    → next_fault db.faults ≡ false
    → update_member_profile_by_id arg db ≡ (row tt, saved arg (spent db))
unfolding update_member_profile_by_id
save_fine arg db fine = call_fine (exec (λ db. true) (saved arg)) db fine

get_member_fine :
    (id : ℤ) (m : MemberRow) (db : Db)
    → next_fault db.faults ≡ false
    → member_in id db ≡ some m
    → get_member id db ≡ (row m, spent db)
unfolding get_member
get_member_fine id m db fine found = call_fine (one (member_in id)) db fine ∙ rw found refl

get_or_post : (m : Method) → m ≡ Method.post → is_get_or_post m ≡ true
get_or_post m e = rw e refl

not_get : (m : Method) → m ≡ Method.post → is_get m ≡ false
not_get m e = rw e refl

Gives-profile :
    (svc : Service) (r : Request) (u : User) (m : MemberRow) (db : Db)
    → NoFaults db.faults
    → r.method ≡ Method.post
    → r.user ≡ some u
    → member_in u.id db ≡ some m
    → m.email ≡ u.email
    → r.form_ok ≡ true
    → validate_profile_form svc.parse_url
        (input r "photo_url")
        (input r "location")
        (input r "preferred_name")
        (input r "bio")
        (input r "pronouns")
      ≡ []
    → Gives
        (edit_member_profile svc r)
        db
        (redirect (member_path u.id))
        (saved (profile_form svc r u) (spent (spent db)))
unfolding edit_member_profile post_profile save_profile
Gives-profile svc r u m db fine method user found same form valid =
    let fs = db.faults in
    Gives-bind _ _ db (Gives-require _ 405 db (get_or_post r.method method)) (
      Gives-bind _ _ db (Gives-get_user r db user) (
        Gives-bind _ _ db
          (Gives-ask _ db (get_member_fine u.id m db (next_fault_fine fs fine) found))
          (Gives-bind _ _ _ (Gives-require _ 403 _ (rw same (text_eq_refl u.email))) (
            Gives-second _ _ _ _ (not_get r.method method) (
              Gives-bind _ _ _ (Gives-require _ 400 _ form) (
                Gives-bind _ _ _ (Gives-reject _ _ valid) (
                  Gives-bind _ _ _
                    (Gives-ask _ _ (
                      save_fine (profile_form svc r u) (spent db)
                        (next_fault_fine (later fs) (later-NoFaults fs fine))))
                    (Gives-pure _ _))))))))

updated-as_entered :
    (svc : Service) (r : Request) (u : User) (p : Profile)
    → p.member_id ≡ u.id
    → profile_update (profile_form svc r u) p ≡ as_entered svc r u
updated-as_entered svc r u p same = rw same refl

-- Where no call fails, a POST of an accepted form of a profile by a member whose address is still
-- the one of the sign-in is answered by a redirect to the member's page. The member's profile then
-- has in each field the strict HTML of its own sanitized input, and no timezone, whichever it had;
-- the other profiles and the other tables are as they were.
pub edit_member_profile-saves :
    (svc : Service) (r : Request) (u : User) (m : MemberRow) (p : Profile) (db : Db)
    → NoFaults db.faults
    → r.method ≡ Method.post
    → r.user ≡ some u
    → member_in u.id db ≡ some m
    → m.email ≡ u.email
    → r.form_ok ≡ true
    → validate_profile_form svc.parse_url
        (input r "photo_url")
        (input r "location")
        (input r "preferred_name")
        (input r "bio")
        (input r "pronouns")
      ≡ []
    → profile_by_id u.id db.profiles ≡ some p
    → let after = serve (edit_member_profile svc r) db in
      (after.0 ≡ redirect (member_path u.id))
      × (profile_by_id u.id after.1.profiles ≡ some (as_entered svc r u))
      × ((j : ℤ) → j ≢ u.id → profile_by_id j after.1.profiles ≡ profile_by_id j db.profiles)
      × (after.1.members ≡ db.members)
      × (after.1.threads ≡ db.threads)
      × (after.1.posts ≡ db.posts)
      × (after.1.board ≡ db.board)
edit_member_profile-saves svc r u m p db fine method user found same form valid own =
    let arg = profile_form svc r u in
    let mine = λ (q : Profile). eq_ℤ q.member_id u.id in
    rw (Gives-serve _ db (Gives-profile svc r u m db fine method user found same form valid)) (
      refl,
      find-updated mine arg u.id db.profiles
          ∙ (rw own (
              rw (find-own u.id db.profiles p own) (
                ap some (
                  updated-as_entered svc r u p
                    ((eq_ℤ_iff p.member_id u.id).0 (find-own u.id db.profiles p own)))))),
      λ j ne.
          find-updated mine arg j db.profiles
          ∙ updated_other arg j (profile_by_id j db.profiles) ne (λ q. find-own j db.profiles q),
      refl,
      refl,
      refl,
      refl,
    )
