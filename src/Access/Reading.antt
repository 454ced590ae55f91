-- ===== src/Access/Reading.antt =====
-- What the handlers that only read keep: every relation that allows failing calls.
use tdiscuss.Store.Tables.{Db}
use tdiscuss.Web.{Request, Service}
use tdiscuss.Web.Action.{Action}
use tdiscuss.Web.Keeps.{
  Keeps, IsPreorder, AllowsFaults, Keeps-fail, Keeps-require, Keeps-or_error, Keeps-get_user,
  Keeps-render, Keeps-bind, Keeps-choose, Keeps-ask, Keeps-ask_or_404, Keeps-ask_or,
}
use tdiscuss.Web.Reads.{
  get_board_data-keeps, get_member-keeps, get_thread_for_edit-keeps, get_thread_post_for_edit-keeps,
  get_thread_subject-keeps, list_thread_posts-keeps, list_threads-keeps, list_member_threads-keeps,
}
use tdiscuss.Handlers.Admin.{admin_get}
use tdiscuss.Handlers.Edit.{edit_thread_get, edit_post_get}
use tdiscuss.Handlers.Show.{
  list_threads_handler, list_thread_posts_handler, list_member, new_thread_handler,
  formatting_guide,
}

module _ {R : Db → Db → Type 0} (faults : AllowsFaults R) (r : Request) where
  abbrev order : IsPreorder R
  order = faults.order

  abbrev Good : {A : Type 0} → Action A → Type 0
  Good m = Keeps R m

  pub show_index : (svc : Service) → Good (list_threads_handler svc r)
  unfolding list_threads_handler
  show_index svc = Keeps-bind order _ _ (Keeps-require order _ _) λ _.
      Keeps-bind order _ _ (Keeps-require order _ _) λ _.
        Keeps-bind order _ _ (Keeps-get_user order r) λ user.
          Keeps-bind order _ _ (Keeps-ask _ (list_threads-keeps faults user.email))
            λ threads. Keeps-render order svc _

  pub show_thread : (svc : Service) → Good (list_thread_posts_handler svc r)
  unfolding list_thread_posts_handler
  show_thread svc = Keeps-bind order _ _ (Keeps-require order _ _) λ _.
      Keeps-bind order _ _ (Keeps-or_error order _ _) λ id.
        Keeps-bind order _ _ (Keeps-get_user order r) λ user.
          Keeps-bind order _ _ (Keeps-ask_or_404 _ _ (get_thread_subject-keeps faults id))
            λ subject.
              Keeps-bind order _ _ (Keeps-ask _ (list_thread_posts-keeps faults user.email id))
                λ posts. Keeps-render order svc _

  pub show_member : (svc : Service) → Good (list_member svc r)
  unfolding list_member
  show_member svc = Keeps-bind order _ _ (Keeps-require order _ _) λ _.
      Keeps-bind order _ _ (Keeps-or_error order _ _) λ id.
        Keeps-bind order _ _ (Keeps-get_user order r) λ user.
          Keeps-bind order _ _ (Keeps-ask_or_404 _ _ (get_member-keeps faults id)) λ m.
            Keeps-bind order _ _ (Keeps-ask_or _ _ (list_member_threads-keeps faults id))
              λ threads. Keeps-render order svc _

  pub show_form : (svc : Service) → Good (new_thread_handler svc r)
  unfolding new_thread_handler
  show_form svc =
      Keeps-choose _ _ _
        (Keeps-bind order _ _ (Keeps-get_user order r) λ user. Keeps-render order svc _)
        (Keeps-fail order _)

  pub show_guide : (svc : Service) → Good (formatting_guide svc r)
  unfolding formatting_guide
  show_guide svc = Keeps-bind order _ _ (Keeps-get_user order r) λ user. Keeps-render order svc _

  pub thread_shown : (svc : Service) → Good (edit_thread_get svc r)
  unfolding edit_thread_get
  thread_shown svc = Keeps-bind order _ _ (Keeps-get_user order r) λ user.
      Keeps-bind order _ _ (Keeps-or_error order _ _) λ id.
        Keeps-bind order _ _
          (Keeps-ask_or_404 _ _ (get_thread_for_edit-keeps faults svc.row_order id user.id))
          λ t. Keeps-render order svc _

  pub post_shown : (svc : Service) → Good (edit_post_get svc r)
  unfolding edit_post_get
  post_shown svc = Keeps-bind order _ _ (Keeps-get_user order r) λ user.
      Keeps-bind order _ _ (Keeps-or_error order _ _) λ tid.
        Keeps-bind order _ _ (Keeps-or_error order _ _) λ id.
          Keeps-bind order _ _
            (Keeps-ask_or_404 _ _ (get_thread_post_for_edit-keeps faults id user.id))
            λ tp. Keeps-render order svc _

  pub admin_shown : (svc : Service) → Good (admin_get svc r)
  unfolding admin_get
  admin_shown svc = Keeps-bind order _ _ (Keeps-get_user order r) λ user.
      Keeps-bind order _ _ (Keeps-require order _ _) λ _.
        Keeps-bind order _ _ (Keeps-ask _ (get_board_data-keeps faults))
          λ board. Keeps-render order svc _
