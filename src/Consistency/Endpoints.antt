-- ===== src/Consistency/Endpoints.antt =====
-- However requests follow one another, the tables stay consistent.
use tdiscuss.Base.{ℕ, Bool, List, Option}
use tdiscuss.Text.{Text}
use tdiscuss.Store.Tables.{Db}
use tdiscuss.Web.{User, Request, Service}
use tdiscuss.Web.Action.{serve}
use tdiscuss.Web.Keeps.{Keeps-serve}
use tdiscuss.Web.Reads.{get_board_data-keeps}
use tdiscuss.Handlers.Routes.{Endpoint, handle}
use tdiscuss.Access.Permits.{Permits}
use tdiscuss.Access.Handled.{handle-Good}
use tdiscuss.Middleware.Outside.{Outside}
use tdiscuss.Middleware.{Exchange, World, Headers}
use tdiscuss.Middleware.Auth.{create_or_get_user}
use tdiscuss.Routes.Claims.{Claim, Holds}
use tdiscuss.Routes.{serve_route, endpoint_handler, with_context}
use tdiscuss.Routes.Whole.{serve_route-Holds}
use tdiscuss.Consistency.{Consistent, Advances}
use tdiscuss.Consistency.Sequences.{Advances-faults}
use tdiscuss.Consistency.Changes.{
  block_member-Advances, update_member_profile-Advances, update_board_title-Advances,
  update_board_edit_window-Advances, update_thread-Advances, update_thread_post-Advances,
}
use tdiscuss.Consistency.Inserts.{create_thread-Advances, create_thread_post-Advances}
use tdiscuss.Consistency.Members.{create_or_return_id-Advances}

Advances-Permits : (user : Option User) → Permits Advances user
Advances-Permits user = record {
  faults = Advances-faults;
  makes_thread = λ arg _. create_thread-Advances arg;
  makes_post = λ arg _. create_thread_post-Advances arg;
  edits_thread = λ arg _. update_thread-Advances arg;
  edits_post = λ arg _. update_thread_post-Advances arg;
  edits_profile = λ arg _. update_member_profile-Advances arg;
  blocks = λ id _. block_member-Advances id;
  sets_title = λ title _. update_board_title-Advances title;
  sets_window = λ window _. update_board_edit_window-Advances window;
}

handle-Advances :
    (svc : Service) (e : Endpoint) (r : Request) (db : Db)
    → Advances db (serve (handle svc e r) db).1
handle-Advances svc e r db =
    Keeps-serve (handle svc e r) (handle-Good r (Advances-Permits r.user) svc e) db

abbrev Sound : Claim
Sound r u a p b = Advances a b

module _ {L : Type 0} (out : Outside L) where
  endpoint-Sound : (svc : Service) (e : Endpoint) → Holds Sound (endpoint_handler {L = L} svc e)
  unfolding endpoint_handler
  endpoint-Sound svc e = record { at = λ ex w c. handle-Advances svc e (with_context ex) w.db }

  sign_in-Advances :
      (email : Text) (db : Db) → Advances db (create_or_get_user out.lower email db).1
  unfolding create_or_get_user
  sign_in-Advances email = (create_or_return_id-Advances out.lower email).at

  serve_route-Advances :
      (svc : Service) (dev : Bool) (e : Endpoint) (ex : Exchange) (w : World L)
      → Advances w.db (serve_route out svc dev e ex w).1.db
  serve_route-Advances svc =
      let after = Advances-faults.order.after in
      serve_route-Holds out Sound (λ r u a p. Advances-faults.order.same a) (λ r u v a b p h. h)
        (λ r u a b p. after a _ b ((get_board_data-keeps Advances-faults).at a))
        (λ r u email a b p. after a _ b (sign_in-Advances email a)) svc (endpoint-Sound svc)

  -- What is not the same for the next request: the time, the failures to come, the session of the
  -- database and the headers of the answer.
  abbrev pub renewed : ℕ → List Bool → Option ℕ → Headers → World L → World L
  renewed now faults last_thread headers w = record w {
    db = record w.db { now = now; faults = faults; last_thread = last_thread };
    headers = headers;
  }

  renewed-Consistent :
      (now : ℕ) (faults : List Bool) (last_thread : Option ℕ) (headers : Headers) (w : World L)
      → Consistent w.db
      → Consistent (renewed now faults last_thread headers w).db
  renewed-Consistent now faults last_thread headers w c = record {
    members = c.members;
    threads = c.threads;
    posts = c.posts;
    parents = c.parents;
    addresses = c.addresses;
    profiles = c.profiles;
    owners = c.owners;
    authors = c.authors;
    counted = c.counted;
    totals = c.totals;
  }

  -- Requests to any routes, one after another.
  pub data Served (svc : Service) (dev : Bool) : World L → World L → Type 0 where
    unserved : {w : World L} → Served svc dev w w
    request :
        {v w : World L} (e : Endpoint) (ex : Exchange)
        → Served svc dev v w
        → Served svc dev v (serve_route out svc dev e ex w).1
    turn :
        {v w : World L} (now : ℕ) (faults : List Bool) (last_thread : Option ℕ) (headers : Headers)
        → Served svc dev v w
        → Served svc dev v (renewed now faults last_thread headers w)

  -- However many requests of whatever users to whatever routes follow one another, at whatever
  -- times, and whichever calls fail, tables that are consistent stay so: the numbers of the rows
  -- are different and from their sequences, members have different addresses and one profile each,
  -- threads and posts belong to members that are there, a thread's counter is the number of its
  -- posts, and the board's counters are those of the rows.
  pub Served-Consistent :
      (svc : Service) (dev : Bool) {v w : World L}
      → Served svc dev v w
      → Consistent v.db
      → Consistent w.db
  Served-Consistent svc dev unserved c = c
  Served-Consistent svc dev (request {w = w} e ex s) c =
      (serve_route-Advances svc dev e ex w).consistent (Served-Consistent svc dev s c)
  Served-Consistent svc dev (turn {w = w} now faults last_thread headers s) c =
      renewed-Consistent now faults last_thread headers w (Served-Consistent svc dev s c)
