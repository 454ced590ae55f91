-- ===== src/Access/Handled.antt =====
-- A relation that every statement keeps is kept by every handler.
use tdiscuss.Base.{◌≡◌, refl, sym, Bool, true, some, ℤ}
use tdiscuss.Text.{Text}
use tdiscuss.Store.Tables.{Db}
use tdiscuss.Web.{User, Request, Response, Service, Method}
use tdiscuss.Web.Action.{Action}
use tdiscuss.Web.Keeps.{
  Keeps, IsPreorder, Keeps-pure, Keeps-fail, Keeps-require, Keeps-or_error, Keeps-reject,
  Keeps-render, Keeps-bind, Keeps-choose, Keeps-ask, Keeps-ask_or_404, Keeps-transaction,
  Keeps-bind-get_user, Keeps-bind-require,
}
use tdiscuss.Web.Reads.{
  get_member-keeps, get_thread_sequence_id-keeps, get_thread_for_edit-keeps,
  get_thread_post_for_edit-keeps,
}
use tdiscuss.Access.{Acts, IsAdmin}
use tdiscuss.Access.Reading.{
  show_index, show_thread, show_member, show_form, show_guide, thread_shown, post_shown,
  admin_shown,
}
use tdiscuss.Handlers.Admin.{
  admin_get, form_id, delete_member, change_title, change_window, update_config, admin_action,
  admin_post, admin_handler,
}
use tdiscuss.Handlers.Create.{
  insert_thread_and_post, create_thread_handler, create_thread_post_handler,
}
use tdiscuss.Handlers.Edit.{
  when_changed, save_thread, edit_thread_post_method, edit_thread_get, edit_thread_handler,
  edit_post_post, edit_post_get, edit_thread_post_handler,
}
use tdiscuss.Handlers.Profile.{save_profile, post_profile, edit_member_profile}
use mathlib.Core.Path.{subst}
use tdiscuss.Handlers.Routes.{Endpoint, handle}
use tdiscuss.Handlers.Admin
use tdiscuss.Handlers.Edit
use tdiscuss.Store.Reads.{ThreadForEditRow}
use tdiscuss.Access.Permits.{Permits}

module _ {R : Db → Db → Type 0} (r : Request) (permits : Permits R r.user) where
  open permits use {
    faults, makes_thread, makes_post, edits_thread, edits_post, edits_profile, blocks, sets_title,
    sets_window,
  }

  abbrev order : IsPreorder R
  order = faults.order

  abbrev Good : {A : Type 0} → Action A → Type 0
  Good m = Keeps R m

  acts : (u : User) → r.user ≡ some u → Acts r.user u.id
  acts u e = subst (λ o. Acts o u.id) (sym e) refl

  is_admin : (u : User) → r.user ≡ some u → u.is_admin ≡ true → IsAdmin r.user
  is_admin u e h = subst IsAdmin (sym e) h

  insertion :
      (user : User) (subject body : Text)
      → Acts r.user user.id
      → Good (insert_thread_and_post user subject body)
  unfolding insert_thread_and_post
  insertion user subject body owner = Keeps-bind order _ _ (Keeps-ask _ (makes_thread _ owner)) λ _.
      Keeps-bind order _ _ (Keeps-ask _ (get_thread_sequence_id-keeps faults))
        λ id. Keeps-bind order _ _ (Keeps-ask _ (makes_post _ owner)) λ _. Keeps-pure order id

  creation : (svc : Service) → Good (create_thread_handler svc r)
  unfolding create_thread_handler
  creation svc = Keeps-bind order _ _ (Keeps-require order _ _) λ _.
      Keeps-bind order _ _ (Keeps-require order _ _) λ _. Keeps-bind-get_user order r _ λ user e.
        Keeps-bind order _ _ (Keeps-require order _ _) λ _.
          Keeps-bind order _ _ (Keeps-reject order _) λ _.
            Keeps-bind order _ _ (Keeps-transaction faults _ (insertion user _ _ (acts user e)))
              λ id. Keeps-pure order _

  reply : (svc : Service) → Good (create_thread_post_handler svc r)
  unfolding create_thread_post_handler
  reply svc = Keeps-bind-get_user order r _ λ user e.
      Keeps-bind order _ _ (Keeps-require order _ _) λ _.
        Keeps-bind order _ _ (Keeps-or_error order _ _) λ id.
          Keeps-bind order _ _ (Keeps-reject order _) λ _.
            Keeps-bind order _ _ (Keeps-ask _ (makes_post _ (acts user e))) λ _. Keeps-pure order _

  optional : (b : Bool) (m : Action Unit) → Good m → Good (when_changed b m)
  unfolding when_changed
  optional b m k = Keeps-choose b _ _ k (Keeps-pure order tt)

  saving :
      (user : User) (t : ThreadForEditRow) (subject body : Text)
      → Acts r.user user.id
      → Good (save_thread user t subject body)
  unfolding save_thread
  saving user t subject body owner =
      Keeps-bind order _ _ (optional _ _ (Keeps-ask _ (edits_thread _ owner)))
        λ _. optional _ _ (Keeps-ask _ (edits_post _ owner))

  thread_edited : (svc : Service) → Good (edit_thread_post_method svc r)
  unfolding edit_thread_post_method
  thread_edited svc = Keeps-bind order _ _ (Keeps-require order _ _) λ _.
      Keeps-bind order _ _ (Keeps-require order _ _) λ _. Keeps-bind-get_user order r _ λ user e.
        Keeps-bind order _ _ (Keeps-reject order _) λ _.
          Keeps-bind order _ _ (Keeps-or_error order _ _) λ id.
            Keeps-bind order _ _
              (Keeps-ask_or_404 _ _ (get_thread_for_edit-keeps faults svc.row_order id user.id))
              λ t. Keeps-bind order _ _ (saving user t _ _ (acts user e)) λ _. Keeps-pure order _

  method_cases :
      (m : Method) (a b : Action Response) → Good a → Good b → Good (Edit.by_method m a b)
  method_cases Method.get a b ka kb = ka
  method_cases Method.post a b ka kb = kb
  method_cases _ a b ka kb = Keeps-fail order _

  edit_thread-Good : (svc : Service) → Good (edit_thread_handler svc r)
  unfolding edit_thread_handler
  edit_thread-Good svc = method_cases r.method _ _ (thread_shown faults r svc) (thread_edited svc)

  post_edited : (svc : Service) → Good (edit_post_post svc r)
  unfolding edit_post_post
  post_edited svc = Keeps-bind-get_user order r _ λ user e.
      Keeps-bind order _ _ (Keeps-require order _ _) λ _.
        Keeps-bind order _ _ (Keeps-reject order _) λ _.
          Keeps-bind order _ _ (Keeps-or_error order _ _) λ id.
            Keeps-bind order _ _
              (Keeps-ask_or_404 _ _ (get_thread_post_for_edit-keeps faults id user.id))
              λ tp.
                Keeps-bind order _ _ (optional _ _ (Keeps-ask _ (edits_post _ (acts user e))))
                  λ _. Keeps-pure order _

  edit_post-Good : (svc : Service) → Good (edit_thread_post_handler svc r)
  unfolding edit_thread_post_handler
  edit_post-Good svc = method_cases r.method _ _ (post_shown faults r svc) (post_edited svc)

  profile_posted :
      (svc : Service) (user : User) → Acts r.user user.id → Good (post_profile svc r user)
  unfolding post_profile save_profile
  profile_posted svc user owner = Keeps-bind order _ _ (Keeps-require order _ _) λ _.
      Keeps-bind order _ _ (Keeps-reject order _)
        λ _. Keeps-bind order _ _ (Keeps-ask _ (edits_profile _ owner)) λ _. Keeps-pure order _

  profile-Good : (svc : Service) → Good (edit_member_profile svc r)
  unfolding edit_member_profile
  profile-Good svc = Keeps-bind order _ _ (Keeps-require order _ _) λ _.
      Keeps-bind-get_user order r _ λ user e.
        Keeps-bind order _ _ (Keeps-ask _ (get_member-keeps faults user.id)) λ m.
          Keeps-bind order _ _ (Keeps-require order _ _) λ _.
            Keeps-choose _ _ _ (Keeps-render order svc _) (profile_posted svc user (acts user e))

  form_id-Good : (text : Text) → Good (form_id text)
  unfolding form_id
  form_id-Good text = Keeps-choose _ _ _ (Keeps-pure order _) (Keeps-or_error order _ _)

  title-Good : (title : Text) → IsAdmin r.user → Good (change_title title)
  unfolding change_title
  title-Good title admin =
      Keeps-choose _ _ _ (Keeps-pure order tt) (Keeps-ask _ (sets_title title admin))

  window-Good : (window : Text) → IsAdmin r.user → Good (change_window window)
  unfolding change_window
  window-Good window admin =
      Keeps-choose _ _ _ (Keeps-pure order tt)
        (Keeps-bind order _ _ (Keeps-or_error order _ _) λ w. Keeps-ask _ (sets_window _ admin))

  config-Good : IsAdmin r.user → Good (update_config r)
  unfolding update_config
  config-Good admin = Keeps-bind order _ _ (title-Good _ admin) λ _. window-Good _ admin

  deletion-Good : (id : ℤ) → IsAdmin r.user → Good (delete_member id)
  unfolding delete_member
  deletion-Good id admin =
      Keeps-bind order _ _ (Keeps-require order _ _) λ _. Keeps-ask _ (blocks id admin)

  action-Good : (action : Text) (id : ℤ) → IsAdmin r.user → Good (admin_action r action id)
  unfolding admin_action
  action-Good action id admin = Keeps-choose _ _ _ (deletion-Good id admin) (
      Keeps-choose _ _ _ (Keeps-pure order tt)
        (Keeps-choose _ _ _ (config-Good admin) (Keeps-fail order _)))

  admin_posted : Good (admin_post r)
  unfolding admin_post
  admin_posted = Keeps-bind-get_user order r _ λ user e. Keeps-bind-require order _ _ _ λ h.
      Keeps-bind order _ _ (Keeps-require order _ _) λ _.
        Keeps-bind order _ _ (form_id-Good _) λ id.
          Keeps-bind order _ _ (form_id-Good _) λ tid.
            Keeps-bind order _ _ (action-Good _ id (is_admin user e h)) λ _. Keeps-pure order _

  admin_cases :
      (m : Method) (a b c : Action Response)
      → Good a
      → Good b
      → Good c
      → Good (Admin.by_method m a b c)
  admin_cases Method.get a b c ka kb kc = ka
  admin_cases Method.post a b c ka kb kc = kb
  admin_cases _ a b c ka kb kc = kc

  admin-Good : (svc : Service) → Good (admin_handler svc r)
  unfolding admin_handler
  admin-Good svc =
      admin_cases r.method _ _ _ (admin_shown faults r svc) admin_posted (Keeps-fail order _)

  pub handle-Good : (svc : Service) (e : Endpoint) → Good (handle svc e r)
  unfolding handle
  handle-Good svc Endpoint.list_threads = show_index faults r svc
  handle-Good svc Endpoint.list_thread_posts = show_thread faults r svc
  handle-Good svc Endpoint.list_member_page = show_member faults r svc
  handle-Good svc Endpoint.new_thread = show_form faults r svc
  handle-Good svc Endpoint.create_thread = creation svc
  handle-Good svc Endpoint.edit_thread = edit_thread-Good svc
  handle-Good svc Endpoint.edit_thread_post = edit_post-Good svc
  handle-Good svc Endpoint.create_thread_post = reply svc
  handle-Good svc Endpoint.edit_profile = profile-Good svc
  handle-Good svc Endpoint.formatting = show_guide faults r svc
  handle-Good svc Endpoint.admin = admin-Good svc
