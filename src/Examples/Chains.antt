-- ===== src/Examples/Chains.antt =====
-- The theorems about the middleware and the routes, at requests to the small board.
use tdiscuss.Base.{
  ℕ, ◌≡◌, ◌≢◌, refl, Bool, true, false, List, [], ◌∷◌, ◌++◌, none, some, arith, pos, zero, suc,
}
use tdiscuss.Text.{Text, codes, text_eq}
use tdiscuss.Text.Decimal.{is_digit}
use tdiscuss.Web.{User, Method, Request, status}
use tdiscuss.Web.Action.{serve}
use tdiscuss.Handlers.Routes.{Endpoint}
use tdiscuss.Handlers.Show.{list_thread_posts_handler, list_member}
use tdiscuss.Handlers.Edit.{edit_thread_handler, edit_thread_post_handler}
use tdiscuss.Handlers.Missing.{traced_never_404}
use tdiscuss.Middleware.Outside.{RateLibrary, Outside}
use tdiscuss.Middleware.{
  Exchange, World, Visitor, Visitors, Handler, answer, chain_then, new_request_context,
}
use tdiscuss.Middleware.Limits.{
  default_rate_limit_config, get_visitor_key, get_limits_for_path, find_visitor, visit,
  cleanup_visitors,
}
use tdiscuss.Middleware.Limits.Laws.{unless_idle, find-cleanup, visit-known}
use tdiscuss.Middleware.Writers.{
  Op, write_header, write, new_response_writer, tracked_run, recovery_middleware,
}
use tdiscuss.Middleware.Writers.Laws.{
  first_status, accepted_bytes, sent, recovered, tracked_run_lem, recovery_middleware_lem,
}
use tdiscuss.Routes.{serve_route, route_rate_limits, metrics_chain}
use tdiscuss.Routes.Guard.{Guarded, serve_route-Guarded}
use tdiscuss.Routes.Limits.{get_limits-thread, metrics_chain-open}
use tdiscuss.Consistency.{Consistent}
use tdiscuss.Consistency.Endpoints.{unserved, request, turn, renewed, Served-Consistent}
use tdiscuss.PathId.{parse_id, parse_id-decimal}
use tdiscuss.Text.Decimal.{decimal}
use tdiscuss.Base.{◌<◌, ◌^◌}
use tdiscuss.Examples.{service, db, posted, fetched, later_db}

-- A limiter that counts down from its burst and is not filled again.
abbrev countdown : ℕ → Bool × ℕ
countdown zero = (false, 0)
countdown (suc n) = (true, n)

abbrev pub rate : RateLibrary ℕ
rate = record {
  new_limiter = λ limit burst now. burst;
  allow = λ now l. countdown l;
  burst = λ l. l;
  tokens = λ now l. pos l;
  policy = λ l. codes "10;w=1";
  retry_after = λ now l. some 1;
}

abbrev pub outside : Outside ℕ
outside = record {
  rate = rate;
  who_is = λ address. some (some (codes "ann@example.org"));
  lower = λ s. s;
  is_same_origin = λ r. true;
  equal_fold = λ s t. false;
}

abbrev pub arrived : Request → Exchange
arrived r = record {
  request = r;
  context = none;
  board = none;
  is_tls = true;
  scheme = codes "https";
  fresh_id = codes "1";
  span_id = none;
  nonce = codes "n";
}

abbrev pub world : World ℕ
world = record { db = db; visitors = []; admin_visitors = []; headers = []; log = [] }

abbrev ok : Handler ℕ
ok ex w = answer (tdiscuss.Web.message 200 (codes "ok")) w

serve_route-Guarded_example :
    Guarded outside Endpoint.create_thread posted none db
      (serve_route outside service false Endpoint.create_thread (arrived posted) world).0
      (serve_route outside service false Endpoint.create_thread (arrived posted) world).1.db
serve_route-Guarded_example =
    serve_route-Guarded outside service false Endpoint.create_thread (arrived posted) world

traced_never_404_example :
    (status (serve (list_thread_posts_handler service fetched) later_db).0 ≢ 404)
    × (status (serve (list_member service fetched) later_db).0 ≢ 404)
    × (status (serve (edit_thread_handler service fetched) later_db).0 ≢ 404)
    × (status (serve (edit_thread_post_handler service fetched) later_db).0 ≢ 404)
traced_never_404_example = traced_never_404 service fetched later_db refl

abbrev ann_key : Text
ann_key = codes "ip:100.64.0.1"

abbrev ann_seen : Visitor ℕ
ann_seen = record { limiter = 3; last_seen = 900 }

abbrev one_visitor : Visitors ℕ
one_visitor = (ann_key, ann_seen) ∷ []

abbrev pub read_page : Exchange
read_page = arrived (record posted { path = codes "/thread/1" })

same_key :
    get_visitor_key default_rate_limit_config (arrived posted)
    ≡ get_visitor_key (route_rate_limits true) read_page
unfolding get_visitor_key
same_key = refl

is_known :
    find_visitor rate (get_visitor_key default_rate_limit_config (arrived posted)) one_visitor
    ≡ some ann_seen
unfolding get_visitor_key find_visitor text_eq
is_known = refl

visit-known_example :
    visit rate default_rate_limit_config (arrived posted) 1000 one_visitor
    ≡ visit rate (route_rate_limits true) read_page 1000 one_visitor
visit-known_example =
    visit-known rate default_rate_limit_config (route_rate_limits true) (arrived posted) read_page
      1000 one_visitor ann_seen same_key is_known

find-cleanup_example :
    find_visitor rate ann_key (cleanup_visitors rate 300 2000 one_visitor)
    ≡ unless_idle rate 300 2000 (find_visitor rate ann_key one_visitor)
find-cleanup_example = find-cleanup rate 300 2000 ann_key one_visitor (tt, tt)

starts_with_digit : is_digit 55 ≡ true
starts_with_digit = refl

get_limits-thread_example :
    get_limits_for_path (route_rate_limits false) (codes "/thread/" ++ 55 ∷ []) ≡ (10000, 20)
get_limits-thread_example = get_limits-thread false 55 [] starts_with_digit

metrics_chain-open_example :
    (w' : World ℕ) × (chain_then metrics_chain ok (arrived fetched) world
      ≡ ok
          (record (arrived fetched) { context = some (new_request_context (arrived fetched) db) })
          w')
    × (w'.db ≡ db)
metrics_chain-open_example = metrics_chain-open ok (arrived fetched) world

abbrev three_calls : List Op
three_calls = write 5 5 ∷ write_header 404 ∷ write 7 3 ∷ []

tracked_run_lem_example :
    ((tracked_run three_calls new_response_writer).calls ≡ sent three_calls)
    × ((tracked_run three_calls new_response_writer).status ≡ first_status three_calls)
    × ((tracked_run three_calls new_response_writer).written ≡ accepted_bytes three_calls)
tracked_run_lem_example = tracked_run_lem three_calls

recovery_middleware_lem_example :
    recovery_middleware 500 three_calls true ≡ recovered 500 three_calls true
recovery_middleware_lem_example = recovery_middleware_lem 500 three_calls true

pub db-Consistent : Consistent db
db-Consistent = record {
  members = (1, refl, omega arith, omega arith, tt);
  threads = tt;
  posts = tt;
  parents = tt;
  addresses = (tt, tt);
  profiles = refl;
  owners = tt;
  authors = tt;
  counted = tt;
  totals = (refl, refl, refl);
}

-- Ann makes a thread, and the next call fails while somebody asks for the administration.
abbrev after_thread : World ℕ
after_thread =
    renewed outside 2000 (true ∷ []) none []
      (serve_route outside service false Endpoint.create_thread (arrived posted) world).1

Served-Consistent_example :
    Consistent (serve_route outside service false Endpoint.admin (arrived posted) after_thread).1.db
Served-Consistent_example =
    Served-Consistent outside service false
      (request Endpoint.admin (arrived posted) (
        turn 2000 (true ∷ []) none []
          (request Endpoint.create_thread (arrived posted) (unserved {w = world}))))
      db-Consistent

small_number : 17 < 2 ^ 63
small_number = omega arith

parse_id-decimal_example :
    (parse_id (codes "/thread/" ++ decimal 17) ≡ some (pos 17))
    × (parse_id (codes "/member/" ++ decimal 17) ≡ some (pos 17))
parse_id-decimal_example = parse_id-decimal 17 small_number
