-- ===== src/Middleware/Writers.antt =====
-- The wrappers of `http.ResponseWriter`: of middleware_core.go, middleware_setup.go, routes.go and
-- handlers.go. A wrapper is its fields with the calls that it has made of what it wraps.
pub mod Laws
use tdiscuss.Base.{
  ℕ, ◌+◌, Bool, true, false, not, ◌&&◌, List, [], ◌∷◌, ◌++◌, leb, if◌then◌else◌, Option, none, some,
}
use tdiscuss.Text.{Text, codes}

-- What a wrapper calls: `WriteHeader` with a status, `Write` with a number of bytes, and the
-- setting of a `Content-Type` or of another header.
pub data Call : Type 0 where
  header : ℕ → Call
  body : ℕ → Call
  typed : Text → Call
  headed : (name value : Text) → Call

-- What a handler calls: `Write` is given a number of bytes, of which `accepted` are written.
pub data Op : Type 0 where
  write_header : ℕ → Op
  write : (bytes accepted : ℕ) → Op

-- `middlewareResponseWriter`, without its `Flush`: no handler calls it, and the writer of the outermost
-- `RecoveryMiddleware`, which it would ask, is no `http.Flusher`.
pub record Tracked : Type 0 where
  pub calls : List Call
  pub status : ℕ
  pub written : ℕ
  pub wrote_header : Bool

abbrev pub new_response_writer : Tracked
new_response_writer = record { calls = []; status = 200; written = 0; wrote_header = false }

abbrev pub tracked_header : ℕ → Tracked → Tracked
tracked_header code w =
    if w.wrote_header
    then w
    else record w { calls = w.calls ++ header code ∷ []; status = code; wrote_header = true }

abbrev pub tracked_write : ℕ → ℕ → Tracked → Tracked
tracked_write bytes accepted w =
    let w = if w.wrote_header then w else tracked_header 200 w in
    record w { calls = w.calls ++ body bytes ∷ []; written = w.written + accepted }

abbrev pub tracked_step : Op → Tracked → Tracked
tracked_step (write_header code) w = tracked_header code w
tracked_step (write bytes accepted) w = tracked_write bytes accepted w

unfoldable pub tracked_run : List Op → Tracked → Tracked
tracked_run [] w = w
tracked_run (op ∷ ops) w = tracked_run ops (tracked_step op w)

-- `recoveryResponseWriter`
pub record Recovering : Type 0 where
  pub calls : List Call
  pub headers_sent : Bool

abbrev pub recovering_header : ℕ → Recovering → Recovering
recovering_header code w =
    if w.headers_sent
    then w
    else record { calls = w.calls ++ header code ∷ []; headers_sent = true }

abbrev pub recovering_write : ℕ → Recovering → Recovering
recovering_write bytes w = record { calls = w.calls ++ body bytes ∷ []; headers_sent = true }

abbrev pub recovering_step : Op → Recovering → Recovering
recovering_step (write_header code) w = recovering_header code w
recovering_step (write bytes accepted) w = recovering_write bytes w

unfoldable pub recovering_run : List Op → Recovering → Recovering
recovering_run [] w = w
recovering_run (op ∷ ops) w = recovering_run ops (recovering_step op w)

-- The deferred function of `RecoveryMiddleware`: `page` is the size of the error's page.
abbrev recover : ℕ → Bool → Recovering → List Call
recover page false w = w.calls
recover page true w =
    if w.headers_sent
    then w.calls
    else w.calls
      ++ headed (codes "X-Content-Type-Options") (codes "nosniff")
        ∷ headed (codes "X-Frame-Options") (codes "DENY")
        ∷ typed (codes "text/html; charset=utf-8")
        ∷ header 500
        ∷ body page
        ∷ []

-- A handler that makes the calls `ops` and then panics or returns.
unfoldable pub recovery_middleware : ℕ → List Op → Bool → List Call
unfolding recovering_run
recovery_middleware page ops panics =
    recover page panics (recovering_run ops (record { calls = []; headers_sent = false }))

-- `handlerResponseWriter`: every call of `WriteHeader` is passed on.
pub record Handling : Type 0 where
  pub calls : List Call
  pub status_code : ℕ

abbrev pub handling_step : Op → Handling → Handling
handling_step (write_header code) w = record {
  calls = w.calls ++ header code ∷ [];
  status_code = code;
}
handling_step (write bytes accepted) w = record w { calls = w.calls ++ body bytes ∷ [] }

-- `jsonErrorResponseWriter`
pub record JsonError : Type 0 where
  pub calls : List Call
  pub wrote : Bool

abbrev json_type : ℕ → JsonError → List Call
json_type code w = if not w.wrote && leb 400 code then typed (codes "application/json") ∷ [] else []

abbrev pub json_header : ℕ → JsonError → JsonError
json_header code w = record {
  calls = w.calls ++ (json_type code w ++ header code ∷ []);
  wrote = true;
}

abbrev pub json_step : Op → JsonError → JsonError
json_step (write_header code) w = json_header code w
json_step (write bytes accepted) w =
    let w = if w.wrote then w else json_header 200 w in
    record w { calls = w.calls ++ body bytes ∷ [] }
