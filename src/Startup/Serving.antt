-- ===== src/Startup/Serving.antt =====
-- Exactly when the start reaches the servers.
use tdiscuss.Base.{
  ℕ, ◌≡◌, ◌≢◌, ◌↔◌, refl, Bool, true, false, if◌then◌else◌, Option, none, some, Bool-cases, inl,
  inr,
}
use tdiscuss.Text.{Text, codes, text_eq}
use tdiscuss.Startup.{
  Connection, no_url, bad_config, unreachable, no_ping, connected, setup_database, Readiness, ready,
  failed, crashed, check_tailscale_ready,
}
use tdiscuss.Startup.Telemetry.{
  Metrics, make_all, initialize_metrics, metric_exporter, setup_telemetry, version_gauge,
}
use tdiscuss.Startup.Boot.{
  Flags, Surroundings, Boot, exits, panics, serves, create_config_dir, start_listeners, when_ready,
  with_database, is_set, with_telemetry, boot,
}

if_iff :
    (b : Bool) (x y : Option Boot) {P : Type 0}
    → y ≢ some serves
    → (x ≡ some serves) ↔ P
    → ((if b then x else y) ≡ some serves) ↔ ((b ≡ true) × P)
if_iff true x y ne (to, from) = (λ e. (refl, to e), λ h. from h.1)
if_iff false x y ne (to, from) = (λ e. elim (ne e) [ ], λ h. cc)

exits_ne : (n : ℕ) → some (exits n) ≢ some serves
exits_ne n e = cc

panics_ne : some panics ≢ some serves
panics_ne e = cc

-- The instruments without which the gauge of the version is nil.
abbrev pub Instruments : (Text → Bool) → Type 0
Instruments create =
    (create (codes "http_requests_total") ≡ true)
    × (create (codes "http_errors_total") ≡ true)
    × (create version_gauge ≡ true)

set_iff :
    (create : Text → Bool)
    → (is_set version_gauge (initialize_metrics create).1 ≡ true) ↔ Instruments create
unfolding initialize_metrics make_all text_eq
set_iff create = elim (Bool-cases (create (codes "http_requests_total"))) [
  | inr none_made ↦ rw none_made (λ e. cc, λ h. cc)
  | inl one ↦ rw one (elim (Bool-cases (create (codes "http_errors_total"))) [
    | inr stopped ↦ rw stopped (λ e. cc, λ h. cc)
    | inl two ↦ rw two (elim (Bool-cases (create version_gauge)) [
      | inr unset ↦ rw unset (λ e. cc, λ h. cc)
      | inl three ↦ rw three (λ e. (refl, refl, refl), λ h. refl)
    ])
  ])
]

module _ {C : Type 0} (at : Surroundings C) where
  listeners_iff :
      (some (start_listeners at) ≡ some serves)
      ↔ ((at.listen (codes ":80") ≡ true) × (at.listen_tls (codes ":443") ≡ true))
  listeners_iff = elim (Bool-cases (at.listen (codes ":80"))) [
    | inr taken ↦ rw taken (λ e. cc, λ h. cc)
    | inl free ↦ rw free (elim (Bool-cases (at.listen_tls (codes ":443"))) [
      | inr taken ↦ rw taken (λ e. cc, λ h. cc)
      | inl too ↦ rw too (λ e. (refl, refl), λ h. refl)
    ])
  ]

  -- The wait for Tailscale ends well, and both listeners start.
  abbrev pub Reachable : Option (Readiness × ℕ) → Type 0
  Reachable o =
      ((slept : ℕ) × (o ≡ some (ready, slept)))
      × ((at.listen (codes ":80") ≡ true) × (at.listen_tls (codes ":443") ≡ true))

  ready_iff : (o : Option (Readiness × ℕ)) → (when_ready at o ≡ some serves) ↔ Reachable o
  ready_iff none = (λ e. cc, λ h. cc)
  ready_iff (some (ready, slept)) =
      (λ e. ((slept, refl), listeners_iff.0 e), λ h. listeners_iff.1 h.1)
  ready_iff (some (failed, slept)) = (λ e. cc, λ h. cc)
  ready_iff (some (crashed, slept)) = (λ e. cc, λ h. cc)

  -- A pool that answers, both directories, the templates, a client of Tailscale and the listeners.
  abbrev pub Connected : Text → ℕ → Connection C → Type 0
  Connected dir fuel conn =
      ((c : C) × (conn ≡ connected c))
      × ((create_config_dir at dir ≡ true)
          × ((at.parsed ≡ true)
              × ((at.local_client ≡ true)
                  × Reachable (check_tailscale_ready at.status at.peers fuel 0))))

  database_iff :
      (flags : Flags) (fuel : ℕ) (conn : Connection C)
      → (with_database at flags fuel conn ≡ some serves) ↔ Connected flags.data_dir fuel conn
  database_iff flags fuel no_url = (λ e. cc, λ h. cc)
  database_iff flags fuel bad_config = (λ e. cc, λ h. cc)
  database_iff flags fuel unreachable = (λ e. cc, λ h. cc)
  database_iff flags fuel no_ping = (λ e. cc, λ h. cc)
  database_iff flags fuel (connected c) =
      let (to, from) = if_iff (create_config_dir at flags.data_dir) _ _ (exits_ne 1) (
        if_iff at.parsed _ _ panics_ne (
          if_iff at.local_client _ _ panics_ne
            (ready_iff (check_tailscale_ready at.status at.peers fuel 0)))) in
      (λ e. ((c, refl), to e), λ h. from h.1)

  module _ (flags : Flags) (fuel : ℕ) where
    exporter_iff :
        (b : Bool) (o : Option Metrics) {P : Type 0}
        → (with_telemetry at flags fuel o ≡ some serves) ↔ P
        → (with_telemetry at flags fuel (if b then o else none) ≡ some serves) ↔ ((b ≡ true) × P)
    exporter_iff true o (to, from) = (λ e. (refl, to e), λ h. from h.1)
    exporter_iff false o h = (λ e. cc, λ h. cc)

    -- The exporters and the instruments that the start needs.
    abbrev pub Measured : Type 0
    Measured =
        (at.exporters.resource ≡ true)
        × ((metric_exporter flags.otlp at.exporters ≡ true)
            × ((at.exporters.otlp_logs ≡ true)
                × ((at.exporters.otlp_traces ≡ true) × Instruments at.exporters.create)))

    abbrev database : Connection C
    database = (setup_database at.database_url at.config_ok at.connect at.ping).0

    gauge_iff :
        (made : Metrics)
        → (with_telemetry at flags fuel (some made) ≡ some serves)
          ↔ ((is_set version_gauge made ≡ true) × Connected flags.data_dir fuel database)
    gauge_iff made =
        if_iff (is_set version_gauge made) _ _ panics_ne (database_iff flags fuel database)

    telemetry_iff :
        (with_telemetry at flags fuel (setup_telemetry flags.otlp at.exporters) ≡ some serves) ↔ (
          (at.exporters.resource ≡ true)
          × ((metric_exporter flags.otlp at.exporters ≡ true)
              × ((at.exporters.otlp_logs ≡ true)
                  × ((at.exporters.otlp_traces ≡ true)
                      × ((is_set version_gauge (initialize_metrics at.exporters.create).1 ≡ true)
                          × Connected flags.data_dir fuel database)))))
    unfolding setup_telemetry
    telemetry_iff = exporter_iff at.exporters.resource _ (
        exporter_iff (metric_exporter flags.otlp at.exporters) _ (
          exporter_iff at.exporters.otlp_logs _ (
            exporter_iff at.exporters.otlp_traces _
              (gauge_iff (initialize_metrics at.exporters.create).1))))

    shown_iff :
        (b : Bool) (o : Option Boot) {P : Type 0}
        → (o ≡ some serves) ↔ P
        → ((if b then some (exits 0) else o) ≡ some serves) ↔ ((b ≡ false) × P)
    shown_iff true o h = (λ e. cc, λ h. cc)
    shown_iff false o (to, from) = (λ e. (refl, to e), λ h. from h.1)

    -- The start reaches the servers exactly when the flag of the version is not given, the exporters
    -- and the instruments up to the gauge of the version can be made, the database is connected,
    -- both directories and the templates are there, Tailscale has a client and becomes ready within
    -- the fuel, and both listeners start.
    pub boot_iff :
        (boot at flags fuel ≡ some serves)
        ↔ ((flags.show_version ≡ false) × (Measured × Connected flags.data_dir fuel database))
    unfolding boot
    boot_iff =
        let (to, from) = shown_iff flags.show_version _ telemetry_iff in
        let (set, unset) = set_iff at.exporters.create in
        (
          λ e.
              let (shown, (res, (met, (logs, (traces, (gauge, rest)))))) = to e in
              (shown, ((res, (met, (logs, (traces, set gauge)))), rest)),
          λ h.
              let (shown, ((res, (met, (logs, (traces, made)))), rest)) = h in
              from (shown, (res, (met, (logs, (traces, (unset made, rest)))))),
        )
