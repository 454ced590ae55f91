-- ===== src/Startup/Boot.antt =====
-- main.go, with what it calls of helpers.go and server.go: from the flags to the servers.
use tdiscuss.Base.{ℕ, Bool, false, [], ◌∷◌, ◌||◌, if◌then◌else◌, Option, none, some}
use tdiscuss.Text.{Text, codes, text_eq}
use tdiscuss.Startup.{
  Connection, no_url, bad_config, unreachable, no_ping, connected, setup_database, BackendState,
  Readiness, ready, failed, crashed, check_tailscale_ready,
}
use tdiscuss.Startup.Telemetry.{Exporters, Metrics, setup_telemetry, version_gauge}

pub record Flags : Type 0 where
  pub show_version : Bool
  pub otlp : Bool
  pub data_dir : Text

-- What the start finds outside: the exporters, the database, the file system, Tailscale. `make_dir`
-- is `os.MkdirAll`, `join` is `filepath.Join`, `parsed` whether the templates parse, `local_client`
-- whether `LocalClient` succeeds, `listen` and `listen_tls` whether an address is free.
pub record Surroundings (C : Type 0) : Type 0 where
  pub exporters : Exporters
  pub database_url : Text
  pub config_ok : Bool
  pub connect : ℕ → Option C
  pub ping : C → Bool
  pub make_dir : Text → Bool
  pub join : Text → Text → Text
  pub parsed : Bool
  pub local_client : Bool
  pub status : ℕ → Option BackendState
  pub peers : ℕ → Bool
  pub listen : Text → Bool
  pub listen_tls : Text → Bool

-- The process exits with a code, panics, or goes on to serve.
pub data Boot : Type 0 where
  exits : ℕ → Boot
  panics serves : Boot

abbrev pub is_set : Text → Metrics → Bool
is_set name [] = false
is_set name (n ∷ ns) = text_eq n name || is_set name ns

module _ {C : Type 0} (at : Surroundings C) where
  unfoldable pub create_config_dir : Text → Bool
  create_config_dir dir =
      if at.make_dir dir then at.make_dir (at.join dir (codes "tsnet")) else false

  abbrev pub start_listeners : Boot
  start_listeners =
      if at.listen (codes ":80")
      then if at.listen_tls (codes ":443") then serves else exits 1
      else exits 1

  -- None is a wait that has not ended.
  abbrev pub when_ready : Option (Readiness × ℕ) → Option Boot
  when_ready none = none
  when_ready (some (ready, slept)) = some start_listeners
  when_ready (some (failed, slept)) = some (exits 1)
  when_ready (some (crashed, slept)) = some panics

  -- Without a local client, the first call of its status is a call through nil.
  abbrev pub with_client : ℕ → Option Boot
  with_client fuel =
      if at.local_client
      then when_ready (check_tailscale_ready at.status at.peers fuel 0)
      else some panics

  abbrev pub with_database : Flags → ℕ → Connection C → Option Boot
  with_database flags fuel no_url = some (exits 1)
  with_database flags fuel bad_config = some (exits 1)
  with_database flags fuel unreachable = some (exits 1)
  with_database flags fuel no_ping = some (exits 1)
  with_database flags fuel (connected c) =
      if create_config_dir flags.data_dir
      then if at.parsed then with_client fuel else some panics
      else some (exits 1)

  -- The gauge of the version is written before anything else is tried.
  abbrev pub with_telemetry : Flags → ℕ → Option Metrics → Option Boot
  with_telemetry flags fuel none = some panics
  with_telemetry flags fuel (some made) =
      if is_set version_gauge made
      then with_database flags fuel
          (setup_database at.database_url at.config_ok at.connect at.ping).0
      else some panics

  -- The fuel bounds the rounds of the wait for Tailscale.
  unfoldable pub boot : Flags → ℕ → Option Boot
  unfolding create_config_dir check_tailscale_ready setup_database setup_telemetry text_eq
  boot flags fuel =
      if flags.show_version
      then some (exits 0)
      else with_telemetry flags fuel (setup_telemetry flags.otlp at.exporters)
