-- ===== src/Handlers/Edited.antt =====
-- What the edit of a post leaves, where nothing fails.
use tdiscuss.Base.{
  ◌≡◌, ◌≢◌, refl, sym, ◌∙◌, Bool, true, false, List, [], ◌∷◌, if◌then◌else◌, Option, none, some, ℤ,
  eq_ℤ, eq_ℤ_iff, eq_ℤ_refl, arith,
}
use mathlib.Core.Path.{subst}
use tdiscuss.Text.{Text, text_eq}
use tdiscuss.Validation.{validate_thread_post_form}
use tdiscuss.Store.Tables.{
  Member, Post, Db, row, exec, one, spent, next_fault, later, has_member, member_by_id, find,
  is_some, update_where,
}
use tdiscuss.Store.Threads.{
  UpdateThreadPostParams, update_thread_post, post_matches, set_body, write_body, in_window,
}
use tdiscuss.Store.Reads.{get_thread_post_for_edit, post_for_edit_in, ThreadPostForEditRow}
use tdiscuss.Web.{User, Request, Response, Service, Method, redirect}
use tdiscuss.Web.Action.{Action, serve}
use tdiscuss.Web.Runs.{
  NoFaults, next_fault_fine, later-NoFaults, call_fine, Gives, Gives-pure, Gives-bind,
  Gives-or_error, Gives-ask, Gives-ask_or_404, Gives-choose, Gives-require, Gives-reject,
  Gives-get_user, Gives-serve,
}
use tdiscuss.Handlers.{input, path_id, body_html, string_of}
use tdiscuss.Handlers.Edit.{
  when_changed, edit_post_get, edit_post_post, edit_thread_post_handler, back_to_thread, by_method,
}

abbrev pub post_by_id : ℤ → List Post → Option Post
post_by_id id ps = find (λ p. eq_ℤ p.id id) ps

abbrev edited : (Post → Bool) → Option Text → Option Post → Option Post
edited m body none = none
edited m body (some p) = some (if m p then set_body body p else p)

find-write_body :
    (m : Post → Bool) (body : Option Text) (id : ℤ) (ps : List Post)
    → post_by_id id (update_where m (set_body body) ps) ≡ edited m body (post_by_id id ps)
unfolding find update_where
find-write_body m body id [] = refl
find-write_body m body id (p ∷ ps) = ground (arith, find-write_body m body id ps)

find-holds : {A : Type 0} (p : A → Bool) (xs : List A) (y : A) → find p xs ≡ some y → p y ≡ true
unfolding find
find-holds p [] y e = cc
find-holds p (x ∷ xs) y e = ground (arith, find-holds p xs y)

update_thread_post_fine :
    (arg : UpdateThreadPostParams) (db : Db)
    → next_fault db.faults ≡ false
    → update_thread_post arg db ≡ (row tt, write_body arg (spent db))
unfolding update_thread_post
update_thread_post_fine arg db fine = call_fine (exec (λ db. true) (write_body arg)) db fine

abbrev row_of : Post → ThreadPostForEditRow
row_of p = record { id = p.id; body = p.body }

post_found :
    (u id : ℤ) (p : Post) (db : Db) (m : Option Member)
    → post_by_id id db.posts ≡ some p
    → p.member_id ≡ u
    → member_by_id p.member_id db ≡ m
    → is_some m ≡ true
    → post_for_edit_in id u db ≡ some (row_of p)
unfolding member_by_id
post_found u id p db none found own e there = cc
post_found u id p db (some m) found own e there =
    let same : eq_ℤ m.id u ≡ true =
      subst (λ v. eq_ℤ m.id v ≡ true) own (find-holds _ db.members m e) in
    rw found (rw e (rw same refl))

get_post_fine :
    (u id : ℤ) (p : Post) (db : Db)
    → next_fault db.faults ≡ false
    → post_by_id id db.posts ≡ some p
    → p.member_id ≡ u
    → has_member p.member_id db ≡ true
    → get_thread_post_for_edit id u db ≡ (row (row_of p), spent db)
unfolding get_thread_post_for_edit has_member member_by_id
get_post_fine u id p db fine found own there =
    call_fine (one (post_for_edit_in id u)) db fine
    ∙ (rw (post_found u id p (spent db) _ found own refl there) refl)

module _ (svc : Service) (r : Request) (u : User) (id : ℤ) (p : Post) (db : Db) where
  abbrev new_body : Text
  new_body = body_html svc (input r "thread_post_body")

  abbrev arg : UpdateThreadPostParams
  arg = record { body = some new_body; id = p.id; member_id = u.id }

  Gives-edit :
      NoFaults db.faults
      → r.user ≡ some u
      → r.form_ok ≡ true
      → validate_thread_post_form (input r "thread_post_body") ≡ []
      → path_id r "pid" ≡ some id
      → post_by_id id db.posts ≡ some p
      → p.member_id ≡ u.id
      → has_member p.member_id db ≡ true
      → text_eq (string_of p.body) new_body ≡ false
      → Gives
          (edit_post_post svc r)
          db
          (redirect (back_to_thread r))
          (write_body arg (spent (spent db)))
  unfolding edit_post_post when_changed
  Gives-edit fine user form valid path found own there changed =
      let fs = db.faults in
      Gives-bind _ _ db (Gives-get_user r db user) (
        Gives-bind _ _ db (Gives-require _ 400 db form) (
          Gives-bind _ _ db (Gives-reject _ db valid) (
            Gives-bind _ _ db (Gives-or_error _ 400 db path) (
              Gives-bind _ _ db
                (Gives-ask_or_404 svc.queries _ db
                  (get_post_fine u.id id p db (next_fault_fine fs fine) found own there))
                (Gives-bind _ _ _
                  (Gives-choose _ _ _ _ (rw changed refl) (
                    Gives-ask _ _ (
                      update_thread_post_fine arg (spent db)
                        (next_fault_fine (later fs) (later-NoFaults fs fine)))))
                  (Gives-pure _ _))))))

  matches_own : p.member_id ≡ u.id → post_matches db.now arg p ≡ in_window db.now p.date_posted
  matches_own own = rw (eq_ℤ_refl p.id) (rw ((eq_ℤ_iff p.member_id u.id).1 own) refl)

  edited_other :
      (j : ℤ) (o : Option Post)
      → p.id ≢ j
      → ((q : Post) → o ≡ some q → eq_ℤ q.id j ≡ true)
      → edited (post_matches db.now arg) (some new_body) o ≡ o
  edited_other j none ne h = refl
  edited_other j (some q) ne h = ground (arith, h q refl, eq_ℤ_iff q.id j, eq_ℤ_iff q.id p.id)

by_method_post :
    (m : Method) (on_get on_post : Action Response)
    → m ≡ Method.post
    → by_method m on_get on_post ≡ on_post
by_method_post m on_get on_post e = rw e refl

-- Where no call fails, a POST to the edit of a post of the user's own, who is a member, with an
-- accepted body whose stored form is another than the one that is there, is answered by a
-- redirect to the thread. The post with that number then has the new body if its date is within
-- fifteen minutes, and else is as it was; the posts with other numbers are as they were.
pub edit_thread_post_handler-edits :
    (svc : Service) (r : Request) (u : User) (id : ℤ) (p : Post) (db : Db)
    → NoFaults db.faults
    → r.method ≡ Method.post
    → r.user ≡ some u
    → r.form_ok ≡ true
    → validate_thread_post_form (input r "thread_post_body") ≡ []
    → path_id r "pid" ≡ some id
    → post_by_id id db.posts ≡ some p
    → p.member_id ≡ u.id
    → has_member p.member_id db ≡ true
    → text_eq (string_of p.body) (body_html svc (input r "thread_post_body")) ≡ false
    → let body = body_html svc (input r "thread_post_body") in
      let after = serve (edit_thread_post_handler svc r) db in
      (after.0 ≡ redirect (back_to_thread r))
      × (post_by_id id after.1.posts
          ≡ some (if in_window db.now p.date_posted then set_body (some body) p else p))
      × ((j : ℤ) → j ≢ id → post_by_id j after.1.posts ≡ post_by_id j db.posts)
unfolding edit_thread_post_handler
edit_thread_post_handler-edits svc r u id p db fine method user form valid path found own there
      changed =
    let m = post_matches db.now (arg svc r u id p db) in
    let body = body_html svc (input r "thread_post_body") in
    let this : p.id ≡ id = (eq_ℤ_iff p.id id).0 (find-holds _ db.posts p found) in
    rw (by_method_post r.method (edit_post_get svc r) (edit_post_post svc r) method) (
      rw
        (Gives-serve _ db
          (Gives-edit svc r u id p db fine user form valid path found own there changed))
        (
          refl,
          find-write_body m (some body) id db.posts
              ∙ (rw found (rw (matches_own svc r u id p db own) refl)),
          λ j ne.
              find-write_body m (some body) j db.posts
              ∙ edited_other svc r u id p db j (post_by_id j db.posts) (λ e. ne (sym e ∙ this))
                  (λ q e. find-holds _ db.posts q e),
        ))
