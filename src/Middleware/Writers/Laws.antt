-- ===== src/Middleware/Writers/Laws.antt =====
-- What the client is sent through the wrappers, against a description of it by the handler's calls.
use tdiscuss.Base.{ℕ, ◌+◌, ◌≡◌, refl, ◌∙◌, Bool, true, false, List, [], ◌∷◌, ◌++◌, arith}
use mathlib.Core.List.{append_assoc, append-nil}
use native.Mathlib.Nat.{add_assoc, add-zero}
use tdiscuss.Text.{codes}
use tdiscuss.Middleware.Writers.{
  Call, header, body, typed, headed, Op, write_header, write, new_response_writer, tracked_run,
  recovering_run, recovery_middleware,
}

-- The status of the first call.
abbrev pub first_status : List Op → ℕ
first_status [] = 200
first_status (write_header code ∷ ops) = code
first_status (write bytes accepted ∷ ops) = 200

abbrev pub bodies : List Op → List Call
bodies [] = []
bodies (write_header code ∷ ops) = bodies ops
bodies (write bytes accepted ∷ ops) = body bytes ∷ bodies ops

abbrev pub accepted_bytes : List Op → ℕ
accepted_bytes [] = 0
accepted_bytes (write_header code ∷ ops) = accepted_bytes ops
accepted_bytes (write bytes accepted ∷ ops) = accepted + accepted_bytes ops

-- One header, that of the first call, and then the bodies.
abbrev pub sent : List Op → List Call
sent [] = []
sent (op ∷ ops) = header (first_status (op ∷ ops)) ∷ bodies (op ∷ ops)

tracked_after :
    (ops : List Op) (calls : List Call) (status written : ℕ)
    → tracked_run ops
        (record { calls = calls; status = status; written = written; wrote_header = true })
      ≡ record {
        calls = calls ++ bodies ops;
        status = status;
        written = written + accepted_bytes ops;
        wrote_header = true;
      }
unfolding tracked_run
tracked_after [] calls status written = simp (append-nil, add-zero)
tracked_after (write_header code ∷ ops) calls status written =
    tracked_after ops calls status written
tracked_after (write bytes accepted ∷ ops) calls status written =
    tracked_after ops (calls ++ body bytes ∷ []) status (written + accepted)
    ∙ simp (append_assoc, add_assoc)

-- Whatever a handler calls, in whatever order, what is sent through the tracking wrapper is nothing
-- if it calls nothing, and else one header with the status of the first call and then the bodies;
-- the recorded status is that of the header, and the recorded bytes are all that were accepted.
pub tracked_run_lem :
    (ops : List Op)
    → ((tracked_run ops new_response_writer).calls ≡ sent ops)
      × ((tracked_run ops new_response_writer).status ≡ first_status ops)
      × ((tracked_run ops new_response_writer).written ≡ accepted_bytes ops)
unfolding tracked_run
tracked_run_lem [] = (refl, refl, refl)
tracked_run_lem (write_header code ∷ ops) =
    rw (tracked_after ops (header code ∷ []) code 0) (refl, refl, omega arith)
tracked_run_lem (write bytes accepted ∷ ops) =
    rw (tracked_after ops (header 200 ∷ body bytes ∷ []) 200 (0 + accepted))
      (refl, refl, omega arith)

recovering_after :
    (ops : List Op) (calls : List Call)
    → recovering_run ops (record { calls = calls; headers_sent = true })
      ≡ record { calls = calls ++ bodies ops; headers_sent = true }
unfolding recovering_run
recovering_after [] calls = simp (append-nil)
recovering_after (write_header code ∷ ops) calls = recovering_after ops calls
recovering_after (write bytes accepted ∷ ops) calls =
    recovering_after ops (calls ++ body bytes ∷ []) ∙ simp (append_assoc)

-- What a handler sends that makes the calls: the header of a first `WriteHeader`, and the bodies.
abbrev pub passed_on : List Op → List Call
passed_on [] = []
passed_on (write_header code ∷ ops) = header code ∷ bodies ops
passed_on (write bytes accepted ∷ ops) = body bytes ∷ bodies ops

abbrev pub error_page : ℕ → List Call
error_page page =
    headed (codes "X-Content-Type-Options") (codes "nosniff")
    ∷ headed (codes "X-Frame-Options") (codes "DENY")
    ∷ typed (codes "text/html; charset=utf-8")
    ∷ header 500
    ∷ body page
    ∷ []

-- The page of the error, where nothing has been sent before a panic.
abbrev pub recovered : ℕ → List Op → Bool → List Call
recovered page [] true = error_page page
recovered page ops panics = passed_on ops

-- A handler that panics before its first call is answered by a 500 with the page of the error and
-- three headers, against sniffing and framing and for the type;
-- after its first call, and without a panic, the client has what the handler sent: at most one
-- header, before the bodies.
pub recovery_middleware_lem :
    (page : ℕ) (ops : List Op) (panics : Bool)
    → recovery_middleware page ops panics ≡ recovered page ops panics
unfolding recovery_middleware
recovery_middleware_lem page [] true = refl
recovery_middleware_lem page [] false = refl
recovery_middleware_lem page (write_header code ∷ ops) true =
    rw (recovering_after ops (header code ∷ [])) refl
recovery_middleware_lem page (write_header code ∷ ops) false =
    rw (recovering_after ops (header code ∷ [])) refl
recovery_middleware_lem page (write bytes accepted ∷ ops) true =
    rw (recovering_after ops (body bytes ∷ [])) refl
recovery_middleware_lem page (write bytes accepted ∷ ops) false =
    rw (recovering_after ops (body bytes ∷ [])) refl
