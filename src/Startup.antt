-- ===== src/Startup.antt =====
-- helpers.go and server.go: the connection to the database at the start, the wait for Tailscale, and
-- the wait for the servers at the end.
pub mod Laws
pub mod Telemetry
pub mod Boot
pub mod Serving
pub mod Process
pub mod Settings
use tdiscuss.Base.{
  ℕ, zero, suc, ◌+◌, Bool, true, false, List, [], ◌∷◌, if◌then◌else◌, Option, none, some, leb,
}
use tdiscuss.Text.{Text, is_empty}

-- What `setupDatabase` returns: one of its errors, or the pool `C`.
pub data Connection (C : Type 0) : Type 0 where
  no_url bad_config unreachable no_ping : Connection C
  connected : C → Connection C

module _ {C : Type 0} where
  abbrev pub or_next : Option C → (attempt : ℕ) → Option C × ℕ → Option C × ℕ
  or_next (some c) attempt rest = (some c, 0)
  or_next none attempt rest = (rest.0, attempt + rest.1)

  -- The loop over the attempts: `left` are to come, and `attempt` is next. The second component is
  -- the seconds slept, which follow every failure.
  unfoldable pub dial : (ℕ → Option C) → (left attempt : ℕ) → Option C × ℕ
  dial connect zero attempt = (none, 0)
  dial connect (suc left) attempt =
      or_next (connect attempt) attempt (dial connect left (suc attempt))

  abbrev pinged : (C → Bool) → Option C → Connection C
  pinged ping none = unreachable
  pinged ping (some c) = if ping c then connected c else no_ping

  -- `config_ok` is whether the address parses, `connect` the answer to each attempt.
  unfoldable pub setup_database :
      Text → (config_ok : Bool) → (ℕ → Option C) → (C → Bool) → Connection C × ℕ
  unfolding dial
  setup_database url config_ok connect ping =
      if is_empty url
      then (no_url, 0)
      else if config_ok
      then (let (found, slept) = dial connect 3 1 in (pinged ping found, slept))
      else (bad_config, 0)

pub data BackendState : Type 0 where
  no_state needs_login needs_machine_auth stopped starting running other : BackendState

-- `checkTailscaleReady` returns nil or an error, or reads through a nil pointer.
pub data Readiness : Type 0 where
  ready failed crashed : Readiness

-- What one round of the loop does: it returns, or sleeps for some seconds and goes on.
pub data Round : Type 0 where
  returns : Readiness → Round
  again : (seconds : ℕ) → Round

-- The status, or none for an error, and whether `StatusWithoutPeers` succeeds.
abbrev pub round : Option BackendState → Bool → Round
round none peers = returns failed
round (some BackendState.no_state) peers = again 5
round (some BackendState.needs_login) peers = again 30
round (some BackendState.needs_machine_auth) peers = again 0
round (some BackendState.stopped) peers = returns ready
round (some BackendState.starting) peers = again 0
round (some BackendState.running) peers = returns (if peers then ready else crashed)
round (some BackendState.other) peers = again 0

abbrev pub or_again : Round → Option (Readiness × ℕ) → Option (Readiness × ℕ)
or_again (returns r) rest = some (r, 0)
or_again (again seconds) none = none
or_again (again seconds) (some (r, slept)) = some (r, seconds + slept)

-- The loop, from the call `n` on; the fuel bounds its rounds. The result has the seconds slept.
unfoldable pub check_tailscale_ready :
    (ℕ → Option BackendState) → (ℕ → Bool) → (fuel n : ℕ) → Option (Readiness × ℕ)
check_tailscale_ready status peers zero n = none
check_tailscale_ready status peers (suc fuel) n =
    or_again (round (status n) (peers n)) (check_tailscale_ready status peers fuel (suc n))

pub data Signal : Type 0 where
  interrupt terminate quit hangup : Signal

abbrev pub number : Signal → ℕ
number interrupt = 2
number terminate = 15
number quit = 3
number hangup = 1

-- What the `select` of `waitForShutdown` receives.
pub data Moment : Type 0 where
  server_done timeout : Moment
  signalled : Signal → Moment

pub data Wait : Type 0 where
  waiting complete forced : Wait

unfoldable pub wait : (done : ℕ) → List Moment → Wait
wait done [] = waiting
wait done (server_done ∷ es) =
    let rest = wait (suc done) es in if leb 2 (suc done) then complete else rest
wait done (timeout ∷ es) = complete
wait done (signalled interrupt ∷ es) = wait done es
wait done (signalled hangup ∷ es) = wait done es
wait done (signalled terminate ∷ es) = forced
wait done (signalled quit ∷ es) = forced

abbrev pub exit_code : Signal → Wait → Option ℕ
exit_code sig waiting = none
exit_code sig complete = some (128 + number sig)
exit_code sig forced = some 130

-- The code of the exit, after the first signal and what follows it.
unfoldable pub wait_for_shutdown : Signal → List Moment → Option ℕ
unfolding wait
wait_for_shutdown sig es = exit_code sig (wait 0 es)
