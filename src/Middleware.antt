-- ===== src/Middleware.antt =====
-- middleware/middleware_core.go: handlers that may panic, middlewares and chains of them, and the
-- context of a request. What a request finds and leaves is a `World`: the database, the visitors
-- of the two rate limiters, the headers of the answer and the log.
pub mod Outside
pub mod Limits
pub mod Security
pub mod Adapters
pub mod Auth
pub mod Observe
pub mod Setup
pub mod Api
pub mod Quiet
pub mod Writers
pub mod Laws
use tdiscuss.Base.{
  ℕ, String, Bool, true, false, not, ◌&&◌, ◌||◌, List, [], ◌∷◌, ◌++◌, if◌then◌else◌, Option, none,
  some, ℤ,
}
use tdiscuss.Text.{Text, codes, text_eq, has_prefix}
use tdiscuss.Store.Tables.{Db, Board}
use tdiscuss.Web.{User, Method, Request, Response}
use text.Mathlib.Text.{◌==◌ as str_eq}

pub record RequestContext : Type 0 where
  pub user : Option User
  pub request_id : Text
  pub trace_id : Text
  pub start_time : ℕ
  pub csp_nonce : Text

-- A request on its way through the chain. `fresh_id` is the UUID that it will be given, `span_id`
-- the trace's number if there is a valid one, `nonce` the random text that it may be given.
pub record Exchange : Type 0 where
  pub request : Request
  pub context : Option RequestContext
  pub board : Option Board
  pub is_tls : Bool
  pub scheme : Text
  pub fresh_id : Text
  pub span_id : Option Text
  pub nonce : Text

pub record Visitor (L : Type 0) : Type 0 where
  pub limiter : L
  pub last_seen : ℕ

abbrev pub Visitors : Type 0 → Type 0
Visitors L = List (Text × Visitor L)

abbrev pub Headers : Type 0
Headers = List (String × Text)

-- What the middlewares write to the log and to the metrics.
pub data Event : Type 0 where
  request_started request_received : Method → Text → Event
  request_completed : ℕ → Event
  request_counted : Method → Text → ℕ → Event
  error_counted : Method → Text → ℕ → Text → Event
  authentication_failed user_lookup_failed : Event
  blocked_user : ℤ → Event
  not_an_admin : ℤ → Event
  rate_limit_exceeded : Text → Text → Event
  admin_action : Method → Text → ℤ → Event
  admin_action_completed : Method → Text → ℤ → ℕ → Event
  panic_recovered : Method → Text → Event

pub record World (L : Type 0) : Type 0 where
  pub db : Db
  pub visitors : Visitors L
  pub admin_visitors : Visitors L
  pub headers : Headers
  pub log : List Event

pub data Reply : Type 0 where
  answered : Response → Reply
  panicked : Reply

-- `w.Header().Set`
unfoldable pub put_header : String → Text → Headers → Headers
put_header key v [] = (key, v) ∷ []
put_header key v ((k, old) ∷ hs) =
    let rest = put_header key v hs in if str_eq k key then (k, v) ∷ hs else (k, old) ∷ rest

module _ {L : Type 0} where
  abbrev pub set_header : String → Text → World L → World L
  set_header key v w = record w { headers = put_header key v w.headers }

  abbrev pub write_log : Event → World L → World L
  write_log e w = record w { log = w.log ++ e ∷ [] }

module _ (L : Type 0) where
  abbrev pub Handler : Type 0
  Handler = Exchange → World L → Reply × World L

  abbrev pub Middleware : Type 0
  Middleware = Handler → Handler

  -- `Chain`, with its middlewares from the outermost inwards.
  abbrev pub Chain : Type 0
  Chain = List Middleware

module _ {L : Type 0} where
  -- `Chain.Then`: the loop runs from the last middleware to the first.
  unfoldable pub chain_then : Chain L → Handler L → Handler L
  chain_then [] h = h
  chain_then (m ∷ ms) h = m (chain_then ms h)

  unfoldable pub chain_append : Chain L → Chain L → Chain L
  chain_append chain middlewares = chain ++ middlewares

  unfoldable pub chain_extend : Chain L → Chain L → Chain L
  unfolding chain_append
  chain_extend chain other = chain_append chain other

  unfoldable pub when : (Exchange → Bool) → Middleware L → Middleware L
  when condition m next ex w = if condition ex then m next ex w else next ex w

  unfoldable pub unless : (Exchange → Bool) → Middleware L → Middleware L
  unfolding when
  unless condition m = when (λ ex. not (condition ex)) m

  -- `http.Error` with a text of its own.
  abbrev pub answer : Response → World L → Reply × World L
  answer r w = (answered r, w)

-- `newRequestContext`
abbrev pub new_request_context : Exchange → Db → RequestContext
new_request_context ex db = record {
  user = none;
  request_id = ex.fresh_id;
  trace_id = [];
  start_time = db.now;
  csp_nonce = [];
}

abbrev pub or_new : Exchange → Db → Option RequestContext → RequestContext
or_new ex db none = new_request_context ex db
or_new ex db (some rc) = rc

abbrev pub get_or_create_request_context : Exchange → Db → RequestContext
get_or_create_request_context ex db = or_new ex db ex.context

-- A change of the context that `getOrCreateRequestContext` gives: it lasts only if the request has
-- one, since a new one is put nowhere.
abbrev pub update_context :
    (RequestContext → RequestContext) → Option RequestContext → Option RequestContext
update_context f none = none
update_context f (some rc) = some (f rc)

abbrev pub modify_context : (RequestContext → RequestContext) → Exchange → Exchange
modify_context f ex = record ex { context = update_context f ex.context }

abbrev pub user_in : Option RequestContext → Option User
user_in none = none
user_in (some rc) = rc.user

-- `getUser`
abbrev pub get_user : Exchange → Option User
get_user ex = user_in ex.context

abbrev request_id_in : Option RequestContext → Text
request_id_in none = []
request_id_in (some rc) = rc.request_id

unfoldable pub get_request_id : Exchange → Text
get_request_id ex = request_id_in ex.context

abbrev trace_id_in : Option RequestContext → Text
trace_id_in none = []
trace_id_in (some rc) = rc.trace_id

unfoldable pub get_trace_id : Exchange → Text
get_trace_id ex = trace_id_in ex.context

abbrev is_there : Option User → Bool
is_there none = false
is_there (some u) = true

abbrev pub is_authenticated : Exchange → Bool
is_authenticated ex = is_there (get_user ex)

abbrev pub admin_flag : Option User → Bool
admin_flag none = false
admin_flag (some u) = u.is_admin

abbrev pub is_admin : Exchange → Bool
is_admin ex = admin_flag (get_user ex)

abbrev pub same_method : Method → Method → Bool
same_method Method.get Method.get = true
same_method Method.post Method.post = true
same_method Method.put Method.put = true
same_method Method.patch Method.patch = true
same_method Method.delete Method.delete = true
same_method _ _ = false

unfoldable pub has_method : List Method → Exchange → Bool
has_method [] ex = false
has_method (m ∷ ms) ex = same_method ex.request.method m || has_method ms ex

unfoldable pub has_path_prefix : Text → Exchange → Bool
unfolding has_prefix
has_path_prefix prefix ex = has_prefix ex.request.path prefix

module _ {L : Type 0} where
  unfoldable pub request_context_middleware : Middleware L
  request_context_middleware next ex w =
      next (record ex { context = some (new_request_context ex w.db) }) w
