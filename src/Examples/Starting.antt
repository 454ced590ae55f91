-- ===== src/Examples/Starting.antt =====
-- The theorems about the start and the end, at answers of a database and of Tailscale.
use tdiscuss.Base.{
  zero, suc, ℕ, ◌+◌, ◌*◌, ◌≤◌, ◌≡◌, ◌⊎◌, inl, refl, true, false, Bool, leb, ◌&&◌, ◌↔◌, ◌++◌, List,
  [], ◌∷◌, Option, none, some, arith,
}
use tdiscuss.Text.{codes}
use tdiscuss.Startup.{
  setup_database, BackendState, Readiness, check_tailscale_ready, Signal, number, Moment, dial,
}
use tdiscuss.Startup.Boot.{Flags, Surroundings, serves, boot, create_config_dir}
use tdiscuss.Startup.Process.{exited, main, main-ends}
use tdiscuss.Startup.Settings.{log_processor, log_processor-debug}
use tdiscuss.Startup.Telemetry.{setup_telemetry, initialize_metrics, make_all}
use tdiscuss.Text.{text_eq}
use tdiscuss.Startup.Serving.{Measured, Connected, boot_iff}
use tdiscuss.Startup.Laws.{setup_database-slept, check_tailscale_ready-ends}

-- The second attempt succeeds.
abbrev second : ℕ → Option ℕ
second zero = none
second (suc zero) = none
second (suc (suc zero)) = some 7
second (suc (suc (suc n))) = none

setup_database-slept_example :
    (setup_database (codes "postgres://db") true second (λ c. true)).1 ≤ 6
setup_database-slept_example = setup_database-slept second (codes "postgres://db") true (λ c. true)

-- Two rounds of waiting, and then Tailscale runs.
abbrev third : ℕ → Option BackendState
third zero = some BackendState.needs_login
third (suc zero) = some BackendState.no_state
third (suc (suc n)) = some BackendState.running

check_tailscale_ready-ends_example :
    (p : Readiness × ℕ) × (check_tailscale_ready third (λ n. true) 3 0 ≡ some p) × (p.1 ≤ 30 * 2)
check_tailscale_ready-ends_example =
    check_tailscale_ready-ends third (λ n. true) 2 3 Readiness.ready refl (omega arith)

abbrev slow_end : List Moment
slow_end = Moment.server_done ∷ Moment.signalled Signal.interrupt ∷ Moment.timeout ∷ []

abbrev quiet : Flags
quiet = record { show_version = false; otlp = false; data_dir = codes "/data" }

-- Everything is there, and the third round of the wait finds Tailscale running.
abbrev all_there : Surroundings ℕ
all_there = record {
  exporters = record {
    resource = true;
    prometheus = true;
    otlp_metrics = false;
    otlp_logs = true;
    otlp_traces = true;
    create = λ name. true;
  };
  database_url = codes "postgres://db";
  config_ok = true;
  connect = second;
  ping = λ c. true;
  make_dir = λ dir. true;
  join = λ a b. a ++ (codes "/" ++ b);
  parsed = true;
  local_client = true;
  status = third;
  peers = λ n. true;
  listen = λ address. true;
  listen_tls = λ address. true;
}

boot_iff_example : (boot all_there quiet 3 ≡ some serves) ↔ (
    (quiet.show_version ≡ false)
    × (Measured all_there quiet 3
        × Connected all_there
            (codes "/data")
            3
            (setup_database (codes "postgres://db") true second (λ c. true)).0))
boot_iff_example = boot_iff all_there quiet 3

reaches : boot all_there quiet 3 ≡ some serves
unfolding boot setup_telemetry initialize_metrics make_all text_eq setup_database dial
    create_config_dir check_tailscale_ready
reaches = refl

main-ends_example :
    (main all_there quiet 3 Signal.terminate slow_end ≡ some (exited 130, []))
    ⊎ (main all_there quiet 3 Signal.terminate slow_end
        ≡ some (exited (128 + number Signal.terminate), []))
main-ends_example = main-ends all_there quiet 3 Signal.terminate slow_end reaches (inl refl)

-- A processor is the severities that it lets through.
abbrev wrapped : (ℕ → Bool) → ℕ → ℕ → Bool
wrapped p least severity = leb least severity && p severity

log_processor-debug_example :
    log_processor wrapped 5 9 true (λ severity. true) 5
    ≡ log_processor wrapped 5 9 false (λ severity. true) 5
log_processor-debug_example =
    log_processor-debug wrapped 5 9 (λ p severity. p severity) (λ severity. true) 5
      (λ p least severity. refl) (omega arith)
