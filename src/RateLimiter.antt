-- ===== src/RateLimiter.antt =====
-- ratelimit.go: the limiter of the root package, alone and one for each pattern of paths.
pub mod Laws
pub mod Alone
use tdiscuss.Base.{
  ℕ, ◌+◌, ◌/◌, Bool, true, false, List, [], ◌∷◌, ◌++◌, if◌then◌else◌, Option, none, some,
}
use tdiscuss.Text.{Text, codes, text_eq}
use tdiscuss.Text.Decimal.{decimal, format_int}
use tdiscuss.Web.{User, Request, Response, message}
use tdiscuss.Middleware.Outside.{RateLibrary}
use tdiscuss.Middleware.{Visitor, Visitors, Headers, put_header}
use tdiscuss.Middleware.Limits.{find_visitor, put_visitor, allow_visitor, cleanup_visitors}

-- The rate is in thousandths of a request each second. The loop of the cleanup and the lock have no
-- field: each operation is one step.
pub record RateLimiter (L : Type 0) : Type 0 where
  pub visitors : Visitors L
  pub limit : ℕ
  pub burst : ℕ

unfoldable pub new_rate_limiter : {L : Type 0} → ℕ → ℕ → RateLimiter L
new_rate_limiter requests_per_second burst = record {
  visitors = [];
  limit = requests_per_second;
  burst = burst;
}

-- A user by the number; a request without one by its address, which holds the port.
abbrev pub id_of : Text → Option User → Text
id_of remote_addr none = remote_addr
id_of remote_addr (some u) = codes "user:" ++ format_int u.id

unfoldable pub user_id : Request → Text
unfolding format_int
user_id r = id_of r.remote_addr r.user

abbrev warning_of : Option User → Text
warning_of none = codes "rate limit exceeded (IP)"
warning_of (some u) = codes "rate limit exceeded (user)"

abbrev pub an_hour : ℕ
an_hour = 3600000000

module _ {L : Type 0} (lib : RateLibrary L) where
  abbrev pub seen_or_made : RateLimiter L → ℕ → Option (Visitor L) → Visitor L
  seen_or_made rl now none = record {
    limiter = lib.new_limiter rl.limit rl.burst now;
    last_seen = now;
  }
  seen_or_made rl now (some v) = record v { last_seen = now }

  unfoldable pub get_visitor : Text → ℕ → RateLimiter L → Visitor L × RateLimiter L
  unfolding find_visitor put_visitor
  get_visitor key now rl =
      let v = seen_or_made rl now (find_visitor lib key rl.visitors) in
      (v, record rl { visitors = put_visitor lib key v rl.visitors })

  -- One round of `cleanupVisitors`.
  unfoldable pub cleanup : ℕ → RateLimiter L → RateLimiter L
  unfolding cleanup_visitors
  cleanup now rl = record rl { visitors = cleanup_visitors lib an_hour now rl.visitors }

  -- The visitor of a key, and then `Allow` of its limiter.
  unfoldable pub admit : Text → ℕ → RateLimiter L → Bool × RateLimiter L
  unfolding get_visitor allow_visitor
  admit key now rl =
      let (v, rl') = get_visitor key now rl in
      let (allowed, v', vs) = allow_visitor lib key now v rl'.visitors in
      (allowed, record rl' { visitors = vs })

abbrev pub Handler : Type 0 → Type 0
Handler W = Request → Headers → W → (Response × Headers) × W

-- Where a limiter is kept.
pub record Place (L W : Type 0) : Type 0 where
  pub read : W → RateLimiter L
  pub write : RateLimiter L → W → W

-- The clock and the log. `met` is the order in which a loop meets the entries of a map.
pub record Site (L W : Type 0) : Type 0 where
  pub clock : W → ℕ
  pub warn : Text → Text → Text → W → W
  pub met : W → List (Text × RateLimiter L) → List (Text × RateLimiter L)

abbrev pub too_many : Response
too_many = message 429 (codes "Rate limit exceeded. Please try again later.")

abbrev pub with_limit_headers : ℕ → ℕ → Headers → Headers
with_limit_headers burst now hs =
    put_header "X-RateLimit-Reset" (decimal ((now + 1000000) / 1000000))
      (put_header "X-RateLimit-Limit" (decimal burst) hs)

module _ {L W : Type 0} (lib : RateLibrary L) (site : Site L W) where
  unfoldable pub rate_limit_middleware : Place L W → Handler W → Handler W
  unfolding user_id admit decimal put_header
  rate_limit_middleware place next r hs w =
      let now = site.clock w in
      let (allowed, rl) = admit lib (user_id r) now (place.read w) in
      let w' = place.write rl w in
      if allowed
      then next r (with_limit_headers rl.burst now hs) w'
      else ((too_many, hs), site.warn (warning_of r.user) (user_id r) r.path w')

  -- `wait` is `Wait` of a limiter with a deadline: whether it is granted, and how long it takes;
  -- `pass` lets time go by.
  module _ (wait : ℕ → ℕ → L → Bool × ℕ × L) (pass : ℕ → W → W) where
    unfoldable pub wait_rate_limit_middleware : ℕ → Place L W → Handler W → Handler W
    unfolding user_id get_visitor put_visitor
    wait_rate_limit_middleware timeout place next r hs w =
        let now = site.clock w in
        let key = user_id r in
        let (v, rl) = get_visitor lib key now (place.read w) in
        let (granted, time, limiter) = wait timeout now v.limiter in
        let vs = put_visitor lib key (record v { limiter = limiter }) rl.visitors in
        let w' = pass time (place.write (record rl { visitors = vs }) w) in
        if granted
        then next r hs w'
        else ((too_many, hs), site.warn (codes "rate limit wait timeout") key r.path w')

-- `EndpointRateLimiter`: a map from patterns to limiters.
abbrev pub Endpoints : Type 0 → Type 0
Endpoints L = List (Text × RateLimiter L)

abbrev pub new_endpoint_rate_limiter : {L : Type 0} → Endpoints L
new_endpoint_rate_limiter = []

unfoldable pub add_endpoint : {L : Type 0} → Text → ℕ → ℕ → Endpoints L → Endpoints L
unfolding new_rate_limiter
add_endpoint pattern rate burst [] = (pattern, new_rate_limiter rate burst) ∷ []
add_endpoint pattern rate burst ((p, rl) ∷ ls) =
    let rest = add_endpoint pattern rate burst ls in
    if text_eq p pattern then (p, new_rate_limiter rate burst) ∷ ls else (p, rl) ∷ rest

-- `path.Match` fails on a malformed pattern; the error is dropped, with a false match.
abbrev matched : Option Bool → Bool
matched none = false
matched (some b) = b

module _ {L W : Type 0} (lib : RateLibrary L) (site : Site L W)
    (path_match : Text → Text → Option Bool) (put : Endpoints L → W → W) where
  -- The loop over the endpoints, of which `before` did not match.
  unfoldable pub serve_first : Endpoints L → Endpoints L → Handler W → Handler W
  unfolding rate_limit_middleware
  serve_first before [] next r hs w = next r hs w
  serve_first before ((p, rl) ∷ after) next r hs w =
      let rest = serve_first (before ++ (p, rl) ∷ []) after next r hs w in
      let here : Place L W = record {
        read = λ w. rl;
        write = λ rl' w. put (before ++ (p, rl') ∷ after) w;
      } in
      if matched (path_match p r.path)
      then rate_limit_middleware lib site here next r hs w
      else rest

  unfoldable pub endpoint_middleware : (W → Endpoints L) → Handler W → Handler W
  unfolding serve_first
  endpoint_middleware get next r hs w = serve_first [] (site.met w (get w)) next r hs w
