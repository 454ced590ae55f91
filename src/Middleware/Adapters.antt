-- ===== src/Middleware/Adapters.antt =====
-- middleware_adapters.go: what stands between the interfaces of the root package and those of the
-- package middleware, and `GetTailscaleUserEmail` of handlers.go, which asks without them.
use tdiscuss.Base.{
  ◌≡◌, ◌↔◌, refl, Bool, false, ◌||◌, if◌then◌else◌, Option, none, some, Option-cases, ap, inl, inr,
  Bool-cases,
}
use tdiscuss.Text.{Text, codes, text_eq, is_empty}
use tdiscuss.Store.Tables.{Db, Board, Answer, row, no_rows, db_error, Query}
use tdiscuss.Store.Members.{CreateOrReturnIdRow, create_or_return_id, get_board_data}
use tdiscuss.Web.{Request, value_of}
use tdiscuss.Middleware.Outside.{Outside}
use tdiscuss.Middleware.Auth.{get_user_email}

-- A profile of Tailscale, of which the code reads `login_name`. The answer for an address is an
-- error or a response, whose profile may be nil.
module _ {P : Type 0} (login_name : P → Text) where
  abbrev pub adapt_profile : Option P → Option Text
  adapt_profile none = none
  adapt_profile (some p) = some (login_name p)

  abbrev adapt_response : Option (Option P) → Option (Option Text)
  adapt_response none = none
  adapt_response (some profile) = some (adapt_profile profile)

  -- `TailscaleClientAdapter.WhoIs`
  unfoldable pub adapted_who_is : (Text → Option (Option P)) → Text → Option (Option Text)
  adapted_who_is client remote_addr = adapt_response (client remote_addr)

  -- Behind the adapter, the user of a request has an address exactly when the client knows a profile
  -- for where the request comes from, and its login name is not empty; it is that name.
  pub adapted_who_is_iff :
      {L : Type 0} (out : Outside L) (client : Text → Option (Option P)) (r : Request)
      (email : Text)
      → (get_user_email (record out { who_is = adapted_who_is client }) r ≡ some email) ↔ (
          (p : P) × (client r.remote_addr ≡ some (some p))
          × (login_name p ≡ email)
          × (is_empty email ≡ false))
  unfolding get_user_email adapted_who_is
  adapted_who_is_iff out client r email = (elim (Option-cases (client r.remote_addr)) [
    | inl unknown ↦ rw unknown (λ e. cc, λ h. cc)
    | inr (none, found) ↦ rw found (λ e. cc, λ h. cc)
    | inr (some p, found) ↦ rw found (elim (Bool-cases (is_empty (login_name p))) [
      | inl empty ↦ rw empty (λ e. cc, λ h. cc)
      | inr full ↦ rw full (λ e. (p, refl, cc, cc), λ h. cc)
    ])
  ])

  pub data Email : Type 0 where
    named : Text → Email
    failed crashed : Email

  -- The profile is read without a check.
  abbrev email_of : Option (Option P) → Email
  email_of none = failed
  email_of (some none) = crashed
  email_of (some (some p)) = named (login_name p)

  abbrev is_local : Text → Bool
  is_local addr = text_eq addr (codes "127.0.0.1") || text_eq addr (codes "::1")

  abbrev asked_for : Text → Text → Text
  asked_for addr forwarded_for =
      if is_local addr then (if is_empty forwarded_for then addr else forwarded_for) else addr

  abbrev email_at : (Text → Option (Option P)) → Request → Option Text → Email
  email_at client r none = failed
  email_at client r (some addr) =
      email_of (client (asked_for addr (value_of "X-Forwarded-For" r.headers)))

  -- `split` is the host of `net.SplitHostPort`, or none for an error.
  unfoldable pub get_tailscale_user_email :
      Bool → (Text → Option Text) → (Text → Option (Option P)) → Request → Email
  unfolding text_eq value_of
  get_tailscale_user_email dev_mode split client r =
      if dev_mode then named (codes "dev@example.com") else email_at client r (split r.remote_addr)

  -- A request from the host itself is whoever the header of a proxy names.
  get_tailscale_user_email-forwarded :
      (split : Text → Option Text) (client : Text → Option (Option P)) (r : Request) (p : P)
      → split r.remote_addr ≡ some (codes "127.0.0.1")
      → is_empty (value_of "X-Forwarded-For" r.headers) ≡ false
      → client (value_of "X-Forwarded-For" r.headers) ≡ some (some p)
      → get_tailscale_user_email false split client r ≡ named (login_name p)
  unfolding get_tailscale_user_email text_eq
  get_tailscale_user_email-forwarded split client r p here given known =
      rw here (rw given (rw known refl))

-- The rows of the two packages have the same fields.
abbrev adapt_row : Answer CreateOrReturnIdRow → Answer CreateOrReturnIdRow
adapt_row (row r) = row (record { id = r.id; is_admin = r.is_admin; is_blocked = r.is_blocked })
adapt_row no_rows = no_rows
adapt_row db_error = db_error

-- `QuerierAdapter.CreateOrReturnID`
unfoldable pub adapted_create_or_return_id : (Text → Text) → Text → Query CreateOrReturnIdRow
unfolding create_or_return_id
adapted_create_or_return_id lower email db =
    let (a, db') = create_or_return_id lower email db in (adapt_row a, db')

abbrev adapt_board : Answer Board → Answer Board
adapt_board (row b) = row b
adapt_board no_rows = no_rows
adapt_board db_error = db_error

-- `QuerierAdapter.GetBoardData`
unfoldable pub adapted_get_board_data : Query Board
unfolding get_board_data
adapted_get_board_data db = let (a, db') = get_board_data db in (adapt_board a, db')

adapt_row_same : (a : Answer CreateOrReturnIdRow) → adapt_row a ≡ a
adapt_row_same (row r) = refl
adapt_row_same no_rows = refl
adapt_row_same db_error = refl

adapt_board_same : (a : Answer Board) → adapt_board a ≡ a
adapt_board_same (row b) = refl
adapt_board_same no_rows = refl
adapt_board_same db_error = refl

-- The adapters change nothing of what the queries answer.
pub adapted_same :
    (lower : Text → Text) (email : Text) (db : Db)
    → (adapted_create_or_return_id lower email db ≡ create_or_return_id lower email db)
      × (adapted_get_board_data db ≡ get_board_data db)
unfolding adapted_create_or_return_id adapted_get_board_data
adapted_same lower email db = (
  ap (λ a. (a, (create_or_return_id lower email db).1))
      (adapt_row_same (create_or_return_id lower email db).0),
  ap (λ a. (a, (get_board_data db).1)) (adapt_board_same (get_board_data db).0),
)

-- `ConvertTelemetryConfig`: the three instruments that the middleware reads are copied; `nil` stays
-- `nil`.
pub record TelemetryMetrics (I : Type 0) : Type 0 where
  pub request_counter : Option I
  pub request_duration : Option I
  pub error_counter : Option I

module _ {I : Type 0} where
  abbrev pub convert_telemetry_config : Option (TelemetryMetrics I) → Option (TelemetryMetrics I)
  convert_telemetry_config none = none
  convert_telemetry_config (some tc) = some (record {
    request_counter = tc.request_counter;
    request_duration = tc.request_duration;
    error_counter = tc.error_counter;
  })
