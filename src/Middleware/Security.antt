-- ===== src/Middleware/Security.antt =====
-- middleware/middleware_security.go: the headers of every answer, cross-origin requests and the
-- size of a body. The maps of the configuration are lists, in the order in which the loops meet
-- them.
use tdiscuss.Base.{
  ℕ, String, Bool, true, false, ◌||◌, List, [], ◌∷◌, ◌++◌, if◌then◌else◌, Option, none, some, ℤ,
  ltb_ℤ, map,
}
use tdiscuss.Text.{Text, codes, is_empty, text_eq, cut_prefix, trim_space}
use tdiscuss.Text.Decimal.{decimal, format_int}
use tdiscuss.Web.{Method, message, value_of}
use tdiscuss.Middleware.Outside.{Outside}
use tdiscuss.Middleware.{
  Exchange, RequestContext, Middleware, Headers, answer, put_header, modify_context, same_method,
}

-- A map, in the order in which the loop over it meets its entries.
abbrev pub Directives : Type 0
Directives = List (Text × Text)

pub record SecurityConfig : Type 0 where
  pub csp_directives : Directives
  pub generate_nonce : Bool
  pub hsts_max_age : ℕ
  pub hsts_include_sub_domains : Bool
  pub hsts_preload : Bool
  pub permissions_policy : List (Text × List Text)
  pub frame_options : Text
  pub content_type_options : Text
  pub referrer_policy : Text
  pub custom_headers : List (String × Text)

abbrev pub default_security_config : SecurityConfig
default_security_config = record {
  csp_directives =
      (codes "default-src", codes "'self'")
      ∷ (codes "script-src", codes "'self'")
      ∷ (codes "style-src", codes "'self' 'unsafe-inline'")
      ∷ (codes "img-src", codes "'self' data: https:")
      ∷ (codes "font-src", codes "'self'")
      ∷ (codes "connect-src", codes "'self'")
      ∷ (codes "frame-ancestors", codes "'none'")
      ∷ (codes "base-uri", codes "'self'")
      ∷ (codes "form-action", codes "'self'")
      ∷ (codes "upgrade-insecure-requests", [])
      ∷ [];
  generate_nonce = false;
  hsts_max_age = 63072000;
  hsts_include_sub_domains = true;
  hsts_preload = true;
  permissions_policy =
      (codes "geolocation", [])
      ∷ (codes "microphone", [])
      ∷ (codes "camera", [])
      ∷ (codes "payment", [])
      ∷ (codes "usb", [])
      ∷ [];
  frame_options = codes "DENY";
  content_type_options = codes "nosniff";
  referrer_policy = codes "strict-origin-when-cross-origin";
  custom_headers = [];
}

-- `strings.Join`
unfoldable pub join : Text → List Text → Text
join sep [] = []
join sep (p ∷ []) = p
join sep (p ∷ q ∷ ps) = p ++ (sep ++ join sep (q ∷ ps))

abbrev pub directive_text : Text × Text → Text
directive_text (directive, value) =
    if is_empty value then directive else directive ++ (codes " " ++ value)

unfoldable pub build_csp : Directives → Text
unfolding join
build_csp directives = join (codes "; ") (map directive_text directives)

-- `strings.Replace(s, old, "", 1)`
unfoldable pub remove_first : Text → Text → Text
unfolding cut_prefix
remove_first old [] = []
remove_first old (c ∷ s) = elim (cut_prefix old (c ∷ s)) [
  | some rest ↦ rest
  | none ↦ c ∷ remove_first old s
]

abbrev nonce_source : Text → Text
nonce_source nonce = codes " 'nonce-" ++ (nonce ++ codes "'")

abbrev pub with_nonce : Text → Text × Text → Text × Text
with_nonce nonce (directive, value) =
    if text_eq directive (codes "script-src")
    then (directive, value ++ nonce_source nonce)
    else if text_eq directive (codes "style-src")
    then (
      directive,
      trim_space (remove_first (codes "'unsafe-inline'") value) ++ nonce_source nonce,
    )
    else (directive, value)

unfoldable pub build_csp_with_nonce : Directives → Text → Text
unfolding build_csp
build_csp_with_nonce directives nonce = build_csp (map (with_nonce nonce) directives)

abbrev part_if : Bool → Text → List Text → List Text
part_if b part parts = if b then parts ++ part ∷ [] else parts

unfoldable pub build_hsts : SecurityConfig → Text
unfolding join decimal
build_hsts config =
    let parts = (codes "max-age=" ++ decimal config.hsts_max_age) ∷ [] in
    let parts = part_if config.hsts_include_sub_domains (codes "includeSubDomains") parts in
    join (codes "; ") (part_if config.hsts_preload (codes "preload") parts)

abbrev pub policy_text : Text × List Text → Text
policy_text (feature, []) = feature ++ codes "=()"
policy_text (feature, a ∷ allowed) =
    feature ++ (codes "=(" ++ (join (codes " ") (a ∷ allowed) ++ codes ")"))

unfoldable pub build_permissions_policy : List (Text × List Text) → Text
unfolding join
build_permissions_policy policies = join (codes ", ") (map policy_text policies)

abbrev pub is_https : (Text → Text → Bool) → Exchange → Bool
is_https equal_fold ex =
    ex.is_tls
    || equal_fold (value_of "X-Forwarded-Proto" ex.request.headers) (codes "https")
    || equal_fold ex.scheme (codes "https")

-- `getCSPNonce`
abbrev nonce_in : Option RequestContext → Text
nonce_in none = []
nonce_in (some rc) = rc.csp_nonce

unfoldable pub get_csp_nonce : Exchange → Text
get_csp_nonce ex = nonce_in ex.context

abbrev pub basic_headers : SecurityConfig → Headers → Headers
basic_headers config hs = put_header "X-XSS-Protection" (codes "0") (
    put_header "Referrer-Policy" config.referrer_policy (
      put_header "X-Frame-Options" config.frame_options
        (put_header "X-Content-Type-Options" config.content_type_options hs)))

abbrev pub policy_header : Text → Headers → Headers
policy_header policy hs = if is_empty policy then hs else put_header "Permissions-Policy" policy hs

abbrev pub hsts_header : Bool → SecurityConfig → Headers → Headers
hsts_header https config hs =
    if https then put_header "Strict-Transport-Security" (build_hsts config) hs else hs

unfoldable pub put_headers : List (String × Text) → Headers → Headers
unfolding put_header
put_headers [] hs = hs
put_headers ((k, v) ∷ more) hs = put_headers more (put_header k v hs)

abbrev pub policy_with : SecurityConfig → Text → Headers → Headers
policy_with config csp hs =
    put_headers config.custom_headers (put_header "Content-Security-Policy" csp hs)

abbrev set_nonce : Text → RequestContext → RequestContext
set_nonce nonce rc = record rc { csp_nonce = nonce }

abbrev pub has_body : Method → Bool
has_body m = same_method m Method.post || same_method m Method.put || same_method m Method.patch

module _ {L : Type 0} (out : Outside L) where
  -- The headers before the nonce.
  unfoldable pub fixed_headers : SecurityConfig → Exchange → Headers → Headers
  unfolding build_permissions_policy build_hsts put_header
  fixed_headers config ex hs =
      hsts_header (is_https out.equal_fold ex) config (
        policy_header (build_permissions_policy config.permissions_policy)
          (basic_headers config hs))

  unfoldable pub security_headers_middleware : SecurityConfig → Middleware L
  unfolding fixed_headers build_csp build_csp_with_nonce put_headers
  security_headers_middleware config next ex w =
      let hs = fixed_headers config ex w.headers in
      if config.generate_nonce
      then next (modify_context (set_nonce ex.nonce) ex) (record w {
        headers = policy_with config (build_csp_with_nonce config.csp_directives ex.nonce) hs;
      })
      else next ex (record w { headers = policy_with config (build_csp config.csp_directives) hs })

  unfoldable pub csrf_protection_middleware : Middleware L
  csrf_protection_middleware next ex w =
      if out.is_same_origin ex.request
      then next ex w
      else answer (message 403 (codes "Cross-origin request rejected")) w

  -- A body that turns out longer makes `ParseForm` fail, which is part of the request.
  unfoldable pub request_size_limit_middleware : ℤ → Middleware L
  unfolding format_int
  request_size_limit_middleware max_size next ex w =
      if has_body ex.request.method
      then (if ltb_ℤ max_size ex.request.content_length
          then answer
              (message 413 (
                codes "Request body too large. Maximum size: "
                ++ (format_int max_size ++ codes " bytes")))
              w
          else next ex w)
      else next ex w
