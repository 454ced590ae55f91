-- ===== src/Startup/Process.antt =====
-- main.go and `waitForShutdown` of server.go: the process to its end, with the deferred calls of
-- `main`, and the `cleanup` of otel.go.
use tdiscuss.Base.{
  ℕ, ◌+◌, ◌≡◌, ◌⊎◌, inl, inr, refl, Bool, true, false, List, [], ◌∷◌, if◌then◌else◌, Option, none,
  some, Bool-cases, Option-cases, ◌↔◌, ◌≤◌, ◌++◌,
}
use tdiscuss.Startup.{Signal, Moment, number, wait_for_shutdown}
use tdiscuss.Startup.Laws.{has_timeout, count_done, wait_for_shutdown-ends}
use tdiscuss.Startup.Telemetry.{Metrics, setup_telemetry, version_gauge}
use tdiscuss.Startup.Boot.{Flags, Surroundings, Boot, exits, panics, serves, is_set, boot}

pub data Provider : Type 0 where
  meters traces logs : Provider

-- The providers that `cleanup` shuts down, by what `Shutdown` answers, and whether it returns nil.
unfoldable pub shut_down : (Provider → Bool) → List Provider × Bool
shut_down ok =
    if ok meters
    then if ok traces
      then if ok logs then (meters ∷ traces ∷ logs ∷ [], true) else (meters ∷ traces ∷ [], false)
      else (meters ∷ [], false)
    else ([], false)

-- The deferred calls of `main`.
pub data Deferred : Type 0 where
  cancel flush close_pool close_node close_listener close_tls_listener : Deferred

pub data Ending : Type 0 where
  exited : ℕ → Ending
  panicked returned : Ending

-- `os.Exit` does not run what is deferred; a panic and a return do, the last first.
abbrev pub run_deferred : Ending → List Deferred → List Deferred
run_deferred (exited code) ds = []
run_deferred panicked ds = ds
run_deferred returned ds = ds

-- What is deferred when the telemetry has been set up.
abbrev early : List Deferred
early = flush ∷ cancel ∷ []

-- What is deferred when the node of Tailscale has been set up.
abbrev late : List Deferred
late = close_node ∷ close_pool ∷ early

abbrev serving : List Deferred
serving = close_tls_listener ∷ close_listener ∷ late

-- What is deferred where the start panics: at the gauge of the version, or after the node.
abbrev registered : Option Metrics → List Deferred
registered none = early
registered (some made) = if is_set version_gauge made then late else early

abbrev ends : Ending → List Deferred → Ending × List Deferred
ends e ds = (e, run_deferred e ds)

-- `waitForShutdown` is the last call of `main`, and it exits.
abbrev exit_with : Option ℕ → Option (Ending × List Deferred)
exit_with none = none
exit_with (some code) = some (ends (exited code) serving)

module _ {C : Type 0} (at : Surroundings C) where
  abbrev after_boot : Flags → Signal → List Moment → Option Boot → Option (Ending × List Deferred)
  after_boot flags sig es none = none
  after_boot flags sig es (some (exits code)) = some (exited code, [])
  after_boot flags sig es (some panics) =
      some (ends panicked (registered (setup_telemetry flags.otlp at.exporters)))
  after_boot flags sig es (some serves) = exit_with (wait_for_shutdown sig es)

  -- How the process ends, and which deferred calls it makes; none while it runs. The signals and
  -- what the servers do are those after the start.
  unfoldable pub main : Flags → ℕ → Signal → List Moment → Option (Ending × List Deferred)
  unfolding boot wait_for_shutdown setup_telemetry
  main flags fuel sig es = after_boot flags sig es (boot at flags fuel)

  -- A process that has reached the servers ends, when both are done or the time is over, with the
  -- code of the first signal or with 130, and makes none of its deferred calls: neither the cleanup
  -- of the telemetry nor the closing of the pool, the node and the listeners.
  pub main-ends :
      (flags : Flags) (fuel : ℕ) (sig : Signal) (es : List Moment)
      → boot at flags fuel ≡ some serves
      → (has_timeout es ≡ true) ⊎ (2 ≤ count_done es)
      → (main flags fuel sig es ≡ some (exited 130, []))
        ⊎ (main flags fuel sig es ≡ some (exited (128 + number sig), []))
  unfolding main
  main-ends flags fuel sig es served over = elim (wait_for_shutdown-ends sig es over) [
    | inl forced_out ↦ inl (rw served (rw forced_out refl))
    | inr signalled_out ↦ inr (rw served (rw signalled_out refl))
  ]

  -- Where the start panics, the cleanup is called all the same, also where there is none to call.
  main-panics :
      (flags : Flags) (fuel : ℕ) (sig : Signal) (es : List Moment)
      → boot at flags fuel ≡ some panics
      → (ds : List Deferred) × (main flags fuel sig es ≡ some (panicked, ds ++ flush ∷ cancel ∷ []))
  unfolding main
  main-panics flags fuel sig es panicking =
      elim (Option-cases (setup_telemetry flags.otlp at.exporters)) [
        | inl unset ↦ ([], rw panicking (rw unset refl))
        | inr (made, set) ↦ elim (Bool-cases (is_set version_gauge made)) [
          | inl gauge ↦ (close_node ∷ close_pool ∷ [], rw panicking (rw set (rw gauge refl)))
          | inr none_set ↦ ([], rw panicking (rw set (rw none_set refl)))
        ]
      ]

-- The cleanup succeeds exactly when it has shut all three providers down.
shut_down_iff :
    (ok : Provider → Bool)
    → ((shut_down ok).1 ≡ true) ↔ ((shut_down ok).0 ≡ meters ∷ traces ∷ logs ∷ [])
unfolding shut_down
shut_down_iff ok = elim (Bool-cases (ok meters)) [
  | inr first ↦ rw first (λ e. cc, λ e. cc)
  | inl one ↦ rw one (elim (Bool-cases (ok traces)) [
    | inr second ↦ rw second (λ e. cc, λ e. cc)
    | inl two ↦ rw two (elim (Bool-cases (ok logs)) [
      | inr third ↦ rw third (λ e. cc, λ e. cc)
      | inl three ↦ rw three (λ e. refl, λ e. refl)
    ])
  ])
]
