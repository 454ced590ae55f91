-- ===== src/Handlers/Retitled.antt =====
-- What a change of the board that is refused leaves.
use tdiscuss.Base.{◌≡◌, refl, ◌∙◌, true, false, [], none, some, ℤ, pos}
use tdiscuss.Text.{Text, codes, text_eq, text_eq_refl, is_empty}
use tdiscuss.Text.Decimal.{parse_int}
use tdiscuss.Store.Tables.{Db, row, exec, spent, next_fault, map_board}
use tdiscuss.Store.Members.{update_board_title, set_title, title_allowed, change_board}
use tdiscuss.Web.{User, Request, Response, Service, Method, error, value_of}
use tdiscuss.Web.Action.{Action, serve}
use tdiscuss.Web.Runs.{
  NoFaults, next_fault_fine, call_fine, Gives, Gives-pure, Gives-ask, Gives-choose, Gives-second,
  Gives-require, Gives-get_user, Stops, Stops-bind, Stops-after, Stops-or_error, Stops-first,
  Stops-second, Stops-serve,
}
use tdiscuss.Handlers.Admin.{
  by_method, admin_get, admin_post, admin_handler, form_id, change_title, change_window,
  update_config, admin_action,
}

-- An ID that the form does not give.
form_id_absent : (text : Text) (db : Db) → text ≡ [] → Gives (form_id text) db (pos 0) db
unfolding form_id
form_id_absent text db e = Gives-choose _ _ _ db (rw e refl) (Gives-pure _ db)

title_fine :
    (title : Text) (db : Db)
    → is_empty title ≡ false
    → next_fault db.faults ≡ false
    → update_board_title title db ≡ (row tt, change_board (set_title title) (spent db))
unfolding update_board_title
title_fine title db given fine =
    call_fine (exec (title_allowed title) (change_board (set_title title))) db fine ∙ rw given refl

Stops-config :
    (r : Request) (db : Db)
    → NoFaults db.faults
    → is_empty (value_of "board_title" r.form) ≡ false
    → is_empty (value_of "edit_window" r.form) ≡ false
    → parse_int 32 (value_of "edit_window" r.form) ≡ none
    → Stops
        (update_config r)
        db
        (error 400)
        (change_board (set_title (value_of "board_title" r.form)) (spent db))
unfolding update_config change_title change_window
Stops-config r db fine title window wrong =
    Stops-after _ _ db
      (Gives-second _ _ _ db title
        (Gives-ask _ db (title_fine _ db title (next_fault_fine db.faults fine))))
      (Stops-second _ _ _ _ window (Stops-bind _ _ _ (Stops-or_error _ 400 _ wrong)))

is_update :
    (action : Text) → action ≡ codes "update_config" → text_eq action (codes "update_config") ≡ true
is_update action e = rw e (text_eq_refl (codes "update_config"))

Stops-action :
    (r : Request) (action : Text) (id : ℤ) (db : Db) {after : Db}
    → action ≡ codes "update_config"
    → Stops (update_config r) db (error 400) after
    → Stops (admin_action r action id) db (error 400) after
unfolding admin_action text_eq
Stops-action r action id db e h =
    rw e (Stops-second _ _ _ db refl (Stops-second _ _ _ db refl (Stops-first _ _ _ db refl h)))

by_method_post :
    (m : Method) (on_get on_post otherwise : Action Response)
    → m ≡ Method.post
    → by_method m on_get on_post otherwise ≡ on_post
by_method_post m on_get on_post otherwise e = rw e refl

-- Where no call fails, a POST of an administrator that asks for a new title together with a window
-- that is no number of 32 bits is answered by a 400, but the title has been changed, if there is a
-- board; nothing else of the board is.
pub admin_handler-half_saved :
    (svc : Service) (r : Request) (u : User) (db : Db)
    → NoFaults db.faults
    → r.method ≡ Method.post
    → r.user ≡ some u
    → u.is_admin ≡ true
    → r.form_ok ≡ true
    → value_of "member_id" r.form ≡ []
    → value_of "thread_id" r.form ≡ []
    → value_of "action" r.form ≡ codes "update_config"
    → is_empty (value_of "board_title" r.form) ≡ false
    → is_empty (value_of "edit_window" r.form) ≡ false
    → parse_int 32 (value_of "edit_window" r.form) ≡ none
    → ((serve (admin_handler svc r) db).0 ≡ error 400)
      × ((serve (admin_handler svc r) db).1.board
          ≡ map_board (set_title (value_of "board_title" r.form)) db.board)
unfolding admin_handler admin_post
admin_handler-half_saved svc r u db fine method user admin form member thread action title window
      wrong =
    rw (by_method_post r.method (admin_get svc r) (admin_post r) _ method) (
      rw
        (Stops-serve _ db (
          Stops-after _ _ db (Gives-get_user r db user) (
            Stops-after _ _ db (Gives-require _ 403 db admin) (
              Stops-after _ _ db (Gives-require _ 400 db form) (
                Stops-after _ _ db (form_id_absent _ db member) (
                  Stops-after _ _ db (form_id_absent _ db thread) (
                    Stops-bind _ _ db (
                      Stops-action r _ (pos 0) db action
                        (Stops-config r db fine title window wrong)))))))))
        (refl, refl))
