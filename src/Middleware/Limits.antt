-- ===== src/Middleware/Limits.antt =====
-- middleware/middleware_ratelimit.go: who a visitor is, which limits a path has, and the visitors.
pub mod Laws
pub mod Requests
pub mod Serial
pub mod Shared
use tdiscuss.Base.{
  ℕ, ◌+◌, ◌-◌, ◌*◌, ◌/◌, ◌==◌, String, Bool, true, false, not, ◌&&◌, List, [], ◌∷◌, ◌++◌, ltb,
  if◌then◌else◌, Option, none, some, ℤ, pos, suc, ◌||◌,
}
use tdiscuss.Text.{Text, codes, text_eq, is_empty, cut, has_prefix, has_suffix, trim_space}
use tdiscuss.Text.Decimal.{decimal, format_int}
use tdiscuss.Store.Tables.{Db}
use tdiscuss.Web.{User, Request, Response, message, value_of}
use tdiscuss.Middleware.Outside.{RateLibrary}
use tdiscuss.Middleware.{
  Exchange, Visitor, Visitors, World, Reply, Event, Headers, Handler, Middleware, answered,
  get_user, answer, set_header, put_header, rate_limit_exceeded,
}

-- Rates and the multiplier are thousandths.
pub record EndpointLimit : Type 0 where
  pub pattern : Text
  pub rate : ℕ
  pub burst : ℕ

-- `endpoint_limits` is in the order in which the loop over the map meets them.
pub record RateLimitConfig : Type 0 where
  pub requests_per_second : ℕ
  pub burst : ℕ
  pub endpoint_limits : List EndpointLimit
  pub enable_user_rate_limit : Bool
  pub user_rate_multiplier : ℕ
  pub enable_ip_rate_limit : Bool
  pub cleanup_interval : ℕ
  pub include_headers : Bool

abbrev pub default_rate_limit_config : RateLimitConfig
default_rate_limit_config = record {
  requests_per_second = 10000;
  burst = 20;
  endpoint_limits =
      record { pattern = codes "/thread/new"; rate = 500; burst = 2 }
      ∷ record { pattern = codes "/thread/*/reply"; rate = 2000; burst = 5 }
      ∷ record { pattern = codes "/member/edit"; rate = 500; burst = 2 }
      ∷ record { pattern = codes "/admin"; rate = 200; burst = 1 }
      ∷ [];
  enable_user_rate_limit = true;
  user_rate_multiplier = 5000;
  enable_ip_rate_limit = true;
  cleanup_interval = 300000000;
  include_headers = true;
}

-- What stands before the last `c` (`strings.LastIndex`).
unfoldable pub before_last : ℕ → Text → Option Text
before_last c [] = none
before_last c (x ∷ s) = elim (before_last c s) [
  | some t ↦ some (x ∷ t)
  | none ↦ if x == c then some [] else none
]

abbrev pub or_whole : Text → Option Text → Text
or_whole s none = s
or_whole s (some t) = t

abbrev pub first_part : Text → Option (Text × Text) → Text
first_part s none = s
first_part s (some (before, after)) = before

unfoldable pub get_client_ip : Request → Text
unfolding value_of cut trim_space before_last
get_client_ip r =
    let xff = value_of "X-Forwarded-For" r.headers in
    let xri = value_of "X-Real-IP" r.headers in
    if not (is_empty xff)
    then trim_space (first_part xff (cut b',' xff))
    else if not (is_empty xri)
    then xri
    else or_whole r.remote_addr (before_last b':' r.remote_addr)

-- Split once more, for a pattern with more than one star.
abbrev one_star : Text → Option (Text × Text) → Bool
one_star path none = false
one_star path (some (prefix, suffix)) = elim (cut b'*' suffix) [
  | none ↦ has_prefix path prefix && has_suffix path suffix
  | some p ↦ false
]

abbrev star_or_equal : Text → Text → Option (Text × Text) → Bool
star_or_equal path pattern none = text_eq path pattern
star_or_equal path pattern (some p) = one_star path (some p)

unfoldable pub matches_pattern : Text → Text → Bool
unfolding cut has_prefix has_suffix
matches_pattern path pattern = star_or_equal path pattern (cut b'*' pattern)

unfoldable pub find_limit : Text → List EndpointLimit → Option EndpointLimit
unfolding matches_pattern
find_limit path [] = none
find_limit path (l ∷ ls) = if matches_pattern path l.pattern then some l else find_limit path ls

abbrev limits_of : RateLimitConfig → Option EndpointLimit → ℕ × ℕ
limits_of config none = (config.requests_per_second, config.burst)
limits_of config (some l) = (l.rate, l.burst)

unfoldable pub get_limits_for_path : RateLimitConfig → Text → ℕ × ℕ
unfolding find_limit
get_limits_for_path config path = limits_of config (find_limit path config.endpoint_limits)

abbrev pub user_key : User → Text
user_key u = codes "user:" ++ format_int u.id

abbrev pub ip_key : RateLimitConfig → Request → Text
ip_key config r =
    if config.enable_ip_rate_limit then codes "ip:" ++ get_client_ip r else codes "global"

abbrev key_for : RateLimitConfig → Request → Option User → Text
key_for config r none = ip_key config r
key_for config r (some u) = if config.enable_user_rate_limit then user_key u else ip_key config r

unfoldable pub get_visitor_key : RateLimitConfig → Exchange → Text
unfolding get_client_ip format_int
get_visitor_key config ex = key_for config ex.request (get_user ex)

unfoldable pub get_visitor_type : Text → Text
unfolding has_prefix
get_visitor_type key =
    if has_prefix key (codes "user:")
    then codes "user"
    else if has_prefix key (codes "ip:")
    then codes "ip"
    else codes "global"

abbrev pub too_many_requests : Response
too_many_requests = message 429 (codes "Rate limit exceeded. Please try again later.")

module _ {L : Type 0} (lib : RateLibrary L) where
  -- The multiplier holds for users; a burst is cut to an integer.
  abbrev pub make_visitor : RateLimitConfig → Text → ℕ → ℕ → ℕ → Visitor L
  make_visitor config key limit burst now =
      if has_prefix key (codes "user:") && ltb 0 config.user_rate_multiplier
      then record {
        limiter =
            lib.new_limiter (limit * config.user_rate_multiplier / 1000)
              (burst * config.user_rate_multiplier / 1000) now;
        last_seen = now;
      }
      else record { limiter = lib.new_limiter limit burst now; last_seen = now }

  unfoldable pub find_visitor : Text → Visitors L → Option (Visitor L)
  find_visitor key [] = none
  find_visitor key ((k, v) ∷ vs) = if text_eq k key then some v else find_visitor key vs

  -- `rl.visitors[key] = v`: the list stands for the map, a key once.
  unfoldable pub put_visitor : Text → Visitor L → Visitors L → Visitors L
  put_visitor key v [] = (key, v) ∷ []
  put_visitor key v ((k, old) ∷ vs) =
      let rest = put_visitor key v vs in if text_eq k key then (k, v) ∷ vs else (k, old) ∷ rest

  abbrev pub seen_or_new : RateLimitConfig → Text → ℕ → ℕ → ℕ → Option (Visitor L) → Visitor L
  seen_or_new config key limit burst now none = make_visitor config key limit burst now
  seen_or_new config key limit burst now (some v) = record v { last_seen = now }

  -- The visitor, and the map with it.
  unfoldable pub get_visitor :
      RateLimitConfig → Text → ℕ → ℕ → ℕ → Visitors L → Visitor L × Visitors L
  unfolding find_visitor put_visitor has_prefix
  get_visitor config key limit burst now vs =
      let v = seen_or_new config key limit burst now (find_visitor key vs) in
      (v, put_visitor key v vs)

  -- `limiter.Allow()` changes the limiter that the map holds.
  unfoldable pub allow_visitor : Text → ℕ → Visitor L → Visitors L → Bool × Visitor L × Visitors L
  unfolding put_visitor
  allow_visitor key now v vs =
      let (allowed, limiter) = lib.allow now v.limiter in
      let v' = record v { limiter = limiter } in (allowed, v', put_visitor key v' vs)

  -- One round of `cleanupVisitors`.
  unfoldable pub cleanup_visitors : ℕ → ℕ → Visitors L → Visitors L
  cleanup_visitors interval now [] = []
  cleanup_visitors interval now ((k, v) ∷ vs) =
      let rest = cleanup_visitors interval now vs in
      if ltb interval (now - v.last_seen) then rest else (k, v) ∷ rest

  abbrev pub add_rate_limit_headers : ℕ → L → Headers → Headers
  add_rate_limit_headers now l hs = put_header "X-RateLimit-Policy" (lib.policy l) (
      put_header "X-RateLimit-Reset" (decimal ((now + 1000000) / 1000000)) (
        put_header "X-RateLimit-Remaining" (format_int (lib.tokens now l))
          (put_header "X-RateLimit-Limit" (decimal (lib.burst l)) hs)))

  abbrev pub retry_header : Option ℕ → Headers → Headers
  retry_header none hs = hs
  retry_header (some delay) hs = put_header "Retry-After" (decimal (suc delay)) hs

  abbrev pub handle_rate_limit_exceeded : RateLimitConfig → Exchange → L → World L → Reply × World L
  handle_rate_limit_exceeded config ex l w =
      let now = w.db.now in
      answer too_many_requests (record w {
        log = w.log ++ rate_limit_exceeded (get_visitor_key config ex) ex.request.path ∷ [];
        headers =
            if config.include_headers
            then retry_header (lib.retry_after now l) (add_rate_limit_headers now l w.headers)
            else w.headers;
      })

  -- What `next` is called with.
  abbrev pub limited : RateLimitConfig → L → World L → World L
  limited config l w = record w {
    headers =
        if config.include_headers then add_rate_limit_headers w.db.now l w.headers else w.headers;
  }

  -- The visit of a request: whether it is allowed, its visitor and the visitors after it.
  unfoldable pub visit : RateLimitConfig → Exchange → ℕ → Visitors L → Bool × Visitor L × Visitors L
  unfolding get_visitor_key get_limits_for_path get_visitor allow_visitor
  visit config ex now vs =
      let key = get_visitor_key config ex in
      let (limit, burst) = get_limits_for_path config ex.request.path in
      let (v, vs') = get_visitor config key limit burst now vs in allow_visitor key now v vs'

  abbrev pub pass_or_refuse :
      RateLimitConfig → Handler L → Exchange → Bool → L → World L → Reply × World L
  pass_or_refuse config next ex true l w = next ex (limited config l w)
  pass_or_refuse config next ex false l w = handle_rate_limit_exceeded config ex l w

  -- Each chain has a limiter of its own: `read` and `write` say which.
  unfoldable pub rate_limit_middleware :
      (World L → Visitors L) → (Visitors L → World L → World L) → RateLimitConfig → Middleware L
  unfolding visit decimal format_int put_header
  rate_limit_middleware read write config next ex w =
      let (allowed, v, vs) = visit config ex w.db.now (read w) in
      pass_or_refuse config next ex allowed v.limiter (write vs w)

abbrev pub listed : Text → List Text → Bool
listed ip [] = false
listed ip (a ∷ as') = text_eq a ip || listed ip as'

-- Whether or not the address is listed, the request goes on.
module _ {L : Type 0} where
  unfoldable pub ip_whitelist_middleware : List Text → Middleware L
  unfolding get_client_ip
  ip_whitelist_middleware whitelist next ex w =
      if listed (get_client_ip ex.request) whitelist
      then next ex (set_header "X-RateLimit-Whitelisted" (codes "true") w)
      else next ex w
