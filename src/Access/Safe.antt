-- ===== src/Access/Safe.antt =====
-- Requests that leave the tables alone: all whose method is not POST.
use tdiscuss.Base.{◌≡◌, ◌≢◌, refl, true, sym}
use tdiscuss.Store.Tables.{Db}
use tdiscuss.Web.{Request, Response, Service, Method}
use tdiscuss.Web.Action.{Action, serve, choose, rolled_back}
use tdiscuss.Web.Reads.{get_member-keeps}
use tdiscuss.Web.Keeps.{
  Keeps, Keeps-fail, IsPreorder, AllowsFaults, Keeps-require, Keeps-get_user, Keeps-render,
  Keeps-bind, Keeps-bind-require, Keeps-ask, Keeps-serve,
}
use mathlib.Core.Path.{subst}
use tdiscuss.Handlers.Admin
use tdiscuss.Handlers.Edit
use tdiscuss.Handlers.Admin.{admin_handler}
use tdiscuss.Handlers.Create.{is_post, create_thread_handler, create_thread_post_handler}
use tdiscuss.Handlers.Edit.{edit_thread_handler, edit_thread_post_handler}
use tdiscuss.Handlers.Profile.{is_get, is_get_or_post, edit_member_profile}
use tdiscuss.Handlers.Routes.{Endpoint, handle}
use tdiscuss.Access.Reading.{
  show_index, show_thread, show_member, show_form, show_guide, thread_shown, post_shown,
  admin_shown,
}

-- The five tables are as they were.
pub record Unchanged (a b : Db) : Type 0 where
  pub members : b.members ≡ a.members
  pub profiles : b.profiles ≡ a.profiles
  pub threads : b.threads ≡ a.threads
  pub posts : b.posts ≡ a.posts
  pub board : b.board ≡ a.board

pub Unchanged-refl : (a : Db) → Unchanged a a
Unchanged-refl a = record {
  members = refl;
  profiles = refl;
  threads = refl;
  posts = refl;
  board = refl;
}

pub Unchanged-trans : (a b c : Db) → Unchanged a b → Unchanged b c → Unchanged a c
Unchanged-trans a b c p q = record {
  members = cc (p.members, q.members);
  profiles = cc (p.profiles, q.profiles);
  threads = cc (p.threads, q.threads);
  posts = cc (p.posts, q.posts);
  board = cc (p.board, q.board);
}

abbrev pub order : IsPreorder Unchanged
order = record { same = Unchanged-refl; after = Unchanged-trans }

pub Unchanged-rolled_back : (before db : Db) → Unchanged before (rolled_back before db)
Unchanged-rolled_back before db = record {
  members = refl;
  profiles = refl;
  threads = refl;
  posts = refl;
  board = refl;
}

abbrev pub faults : AllowsFaults Unchanged
faults = record {
  order = order;
  passed =
      λ db. record { members = refl; profiles = refl; threads = refl; posts = refl; board = refl };
  undone = λ before db _. Unchanged-rolled_back before db;
}

abbrev Still : {A : Type 0} → Action A → Type 0
Still m = Keeps Unchanged m

-- The tests of the method where it is not POST.
abbrev NotPost : Method → Type 0
NotPost m = m ≢ Method.post

is_post_ne : (m : Method) → NotPost m → is_post m ≢ true
is_post_ne Method.post ne e = ne refl
is_post_ne Method.get ne e = cc
is_post_ne Method.put ne e = cc
is_post_ne Method.patch ne e = cc
is_post_ne Method.delete ne e = cc
is_post_ne Method.other ne e = cc

get_if_either : (m : Method) → NotPost m → is_get_or_post m ≡ true → m ≡ Method.get
get_if_either Method.get ne e = refl
get_if_either Method.post ne e = elim (ne refl) [ ]
get_if_either Method.put ne e = cc
get_if_either Method.patch ne e = cc
get_if_either Method.delete ne e = cc
get_if_either Method.other ne e = cc

first_chosen : (m n : Action Response) → Still m → Still (choose true m n)
unfolding choose
first_chosen m n k = k

first_at_get :
    (m : Method) (a b : Action Response) → m ≡ Method.get → Still a → Still (choose (is_get m) a b)
first_at_get m a b e k = subst (λ m. Still (choose (is_get m) a b)) (sym e) (first_chosen a b k)

edit_unless_post :
    (m : Method) (a b : Action Response) → NotPost m → Still a → Still (Edit.by_method m a b)
edit_unless_post Method.get a b ne k = k
edit_unless_post Method.post a b ne k = elim (ne refl) [ ]
edit_unless_post Method.put a b ne k = Keeps-fail order _
edit_unless_post Method.patch a b ne k = Keeps-fail order _
edit_unless_post Method.delete a b ne k = Keeps-fail order _
edit_unless_post Method.other a b ne k = Keeps-fail order _

admin_unless_post :
    (m : Method) (a b c : Action Response)
    → NotPost m
    → Still a
    → Still c
    → Still (Admin.by_method m a b c)
admin_unless_post Method.get a b c ne k l = k
admin_unless_post Method.post a b c ne k l = elim (ne refl) [ ]
admin_unless_post Method.put a b c ne k l = l
admin_unless_post Method.patch a b c ne k l = l
admin_unless_post Method.delete a b c ne k l = l
admin_unless_post Method.other a b c ne k l = l

module _ (svc : Service) (r : Request) (e : NotPost r.method) where
  creation : Still (create_thread_handler svc r)
  unfolding create_thread_handler
  creation =
      Keeps-bind order _ _ (Keeps-require order _ _)
        λ _. Keeps-bind-require order _ _ _ λ h. elim (is_post_ne r.method e h) [ ]

  reply : Still (create_thread_post_handler svc r)
  unfolding create_thread_post_handler
  reply =
      Keeps-bind order _ _ (Keeps-get_user order r)
        λ user. Keeps-bind-require order _ _ _ λ h. elim (is_post_ne r.method e h) [ ]

  edit_thread-Still : Still (edit_thread_handler svc r)
  unfolding edit_thread_handler
  edit_thread-Still = edit_unless_post r.method _ _ e (thread_shown faults r svc)

  edit_post-Still : Still (edit_thread_post_handler svc r)
  unfolding edit_thread_post_handler
  edit_post-Still = edit_unless_post r.method _ _ e (post_shown faults r svc)

  profile-Still : Still (edit_member_profile svc r)
  unfolding edit_member_profile
  profile-Still = Keeps-bind-require order _ _ _ λ h.
      Keeps-bind order _ _ (Keeps-get_user order r) λ user.
        Keeps-bind order _ _ (Keeps-ask _ (get_member-keeps faults user.id)) λ m.
          Keeps-bind order _ _ (Keeps-require order _ _)
            λ _. first_at_get r.method _ _ (get_if_either r.method e h) (Keeps-render order svc _)

  admin-Still : Still (admin_handler svc r)
  unfolding admin_handler
  admin-Still = admin_unless_post r.method _ _ _ e (admin_shown faults r svc) (Keeps-fail order _)

  handle-Still : (p : Endpoint) → Still (handle svc p r)
  unfolding handle
  handle-Still Endpoint.list_threads = show_index faults r svc
  handle-Still Endpoint.list_thread_posts = show_thread faults r svc
  handle-Still Endpoint.list_member_page = show_member faults r svc
  handle-Still Endpoint.new_thread = show_form faults r svc
  handle-Still Endpoint.create_thread = creation
  handle-Still Endpoint.edit_thread = edit_thread-Still
  handle-Still Endpoint.edit_thread_post = edit_post-Still
  handle-Still Endpoint.create_thread_post = reply
  handle-Still Endpoint.edit_profile = profile-Still
  handle-Still Endpoint.formatting = show_guide faults r svc
  handle-Still Endpoint.admin = admin-Still

-- A request whose method is not POST leaves all five tables as they were, whatever the endpoint,
-- the request's other parts, the state and the failing calls.
pub handle-Unchanged :
    (svc : Service) (p : Endpoint) (r : Request) (db : Db)
    → r.method ≢ Method.post
    → Unchanged db (serve (handle svc p r) db).1
handle-Unchanged svc p r db e = Keeps-serve (handle svc p r) (handle-Still svc r e p) db

-- In particular, GET is safe.
pub handle_get-Unchanged :
    (svc : Service) (p : Endpoint) (r : Request) (db : Db)
    → r.method ≡ Method.get
    → Unchanged db (serve (handle svc p r) db).1
handle_get-Unchanged svc p r db e = handle-Unchanged svc p r db λ h. cc
