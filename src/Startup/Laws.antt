-- ===== src/Startup/Laws.antt =====
-- The loops of the start and of the end come to an end, and how.
use tdiscuss.Base.{
  ℕ, zero, suc, ◌+◌, ◌*◌, ◌≤◌, ◌<◌, ◌≡◌, ◌≢◌, ◌⊎◌, inl, inr, refl, Bool, true, false, List, [], ◌∷◌,
  Option, none, some, arith, Bool-cases,
}
use tdiscuss.Text.{Text, is_empty}
use tdiscuss.Startup.{
  connected, dial, setup_database, BackendState, Readiness, Round, returns, again, round,
  check_tailscale_ready, Signal, number, interrupt, hangup, terminate, quit, Moment, server_done,
  timeout, signalled, wait, waiting, complete, forced, wait_for_shutdown, or_next, or_again,
  exit_code, Wait,
}
use mathlib.Core.Path.{subst}

module _ {C : Type 0} (connect : ℕ → Option C) where
  or_next-slept :
      (o : Option C) (attempt : ℕ) (rest : Option C × ℕ)
      → (or_next o attempt rest).1 ≤ attempt + rest.1
  or_next-slept none attempt rest = omega arith
  or_next-slept (some c) attempt rest = omega arith

  dial-slept : (dial connect 3 1).1 ≤ 6
  unfolding dial
  dial-slept = omega (
    arith,
    or_next-slept (connect 1) 1 (dial connect 2 2),
    or_next-slept (connect 2) 2 (dial connect 1 3),
    or_next-slept (connect 3) 3 (none, 0),
  )

  -- The start of the database sleeps for at most six seconds, whatever the answers are.
  pub setup_database-slept :
      (url : Text) (config_ok : Bool) (ping : C → Bool)
      → (setup_database url config_ok connect ping).1 ≤ 6
  unfolding setup_database
  setup_database-slept url config_ok ping = elim (Bool-cases (is_empty url)) [
    | inl e ↦ rw e (omega arith)
    | inr u ↦ rw u (elim (Bool-cases config_ok) [
      | inl good ↦ rw good dial-slept
      | inr bad ↦ rw bad (omega arith)
    ])
  ]

  -- The first attempt of three that succeeds gives `c`.
  abbrev pub FirstOf : C → Type 0
  FirstOf c =
      (connect 1 ≡ some c)
      ⊎ (((connect 1 ≡ none) × (connect 2 ≡ some c))
          ⊎ ((connect 1 ≡ none) × (connect 2 ≡ none) × (connect 3 ≡ some c)))

  dial-FirstOf : (c : C) → FirstOf c → (dial connect 3 1).0 ≡ some c
  unfolding dial
  dial-FirstOf c (inl e) = rw e refl
  dial-FirstOf c (inr (inl (e, f))) = rw e (rw f refl)
  dial-FirstOf c (inr (inr (e, f, g))) = rw e (rw f (rw g refl))

  -- With an address that is not empty and parses, the pool of the first attempt of three that
  -- succeeds is returned if it answers the ping.
  pub setup_database-FirstOf :
      (url : Text) (ping : C → Bool) (c : C)
      → is_empty url ≡ false
      → FirstOf c
      → ping c ≡ true
      → (setup_database url true connect ping).0 ≡ connected c
  unfolding setup_database
  setup_database-FirstOf url ping c u first p = rw u (rw (dial-FirstOf c first) (rw p refl))

abbrev Answered : Round → Type 0
Answered r = (x : Readiness) × (r ≡ returns x)

module _ (status : ℕ → Option BackendState) (peers : ℕ → Bool) where
  again_le : (o : Option BackendState) (b : Bool) (s : ℕ) → round o b ≡ again s → s ≤ 30
  again_le none b s e = ground arith
  again_le (some BackendState.no_state) b s e = ground arith
  again_le (some BackendState.needs_login) b s e = ground arith
  again_le (some BackendState.needs_machine_auth) b s e = ground arith
  again_le (some BackendState.stopped) b s e = ground arith
  again_le (some BackendState.starting) b s e = ground arith
  again_le (some BackendState.running) b s e = ground arith
  again_le (some BackendState.other) b s e = ground arith

  abbrev Ended : ℕ → Option (Readiness × ℕ) → Type 0
  Ended k o = (p : Readiness × ℕ) × (o ≡ some p) × (p.1 ≤ 30 * k)

  or_again-Ended :
      (k : ℕ) (o : Round) (rest : Option (Readiness × ℕ))
      → ((s : ℕ) → o ≡ again s → s ≤ 30)
      → Ended k rest
      → Ended (suc k) (or_again o rest)
  or_again-Ended k (returns r) rest le h = ((r, 0), refl, omega arith)
  or_again-Ended k (again s) rest le ((r, slept), e, short) =
      ((r, s + slept), rw e refl, omega (arith, le s refl))

  now_at : (n m : ℕ) → m ≡ n + 0 → m ≡ n
  now_at n m at = omega (arith, at)

  ends_from :
      (k fuel n m : ℕ) (x : Readiness)
      → m ≡ n + k
      → round (status m) (peers m) ≡ returns x
      → k < fuel
      → Ended k (check_tailscale_ready status peers fuel n)
  unfolding check_tailscale_ready
  ends_from k zero n m x at e h = elim h [ ]
  ends_from zero (suc fuel) n m x at e h = (
    (x, 0),
    rw (subst (λ j. round (status j) (peers j) ≡ returns x) (now_at n m at) e) refl,
    omega arith,
  )
  ends_from (suc k) (suc fuel) n m x at e h =
      or_again-Ended k (round (status n) (peers n)) _ (again_le (status n) (peers n))
        (ends_from k fuel (suc n) m x (omega (arith, at)) e (omega arith))

  -- If some call of the status makes the loop return, then the loop has returned by then, and has
  -- slept for at most thirty seconds for each call before: fuel for one round more than these calls
  -- is enough.
  pub check_tailscale_ready-ends :
      (m fuel : ℕ) (x : Readiness)
      → round (status m) (peers m) ≡ returns x
      → m < fuel
      → (p : Readiness × ℕ) × (check_tailscale_ready status peers fuel 0 ≡ some p) × (p.1 ≤ 30 * m)
  check_tailscale_ready-ends m fuel x e h = ends_from m fuel 0 m x (omega arith) e h

abbrev pub has_timeout : List Moment → Bool
has_timeout [] = false
has_timeout (timeout ∷ es) = true
has_timeout (server_done ∷ es) = has_timeout es
has_timeout (signalled s ∷ es) = has_timeout es

abbrev pub count_done : List Moment → ℕ
count_done [] = 0
count_done (timeout ∷ es) = count_done es
count_done (server_done ∷ es) = suc (count_done es)
count_done (signalled s ∷ es) = count_done es

wait-ends :
    (done : ℕ) (es : List Moment)
    → (has_timeout es ≡ true) ⊎ (2 ≤ done + count_done es)
    → done < 2
    → wait done es ≢ waiting
unfolding wait
wait-ends done [] (inl e) few w = cc
wait-ends done [] (inr many) few w = omega arith
wait-ends done (timeout ∷ es) h few w = cc
wait-ends done (signalled interrupt ∷ es) h few w = wait-ends done es h few w
wait-ends done (signalled hangup ∷ es) h few w = wait-ends done es h few w
wait-ends done (signalled terminate ∷ es) h few w = cc
wait-ends done (signalled quit ∷ es) h few w = cc
wait-ends zero (server_done ∷ es) h few w =
    wait-ends 1 es (elim h [ inl e ↦ inl e | inr many ↦ inr (omega arith) ]) (omega arith) w
wait-ends (suc zero) (server_done ∷ es) h few w = cc
wait-ends (suc (suc done)) (server_done ∷ es) h few w = omega arith

exit_code_cases :
    (sig : Signal) (w : Wait)
    → w ≢ waiting
    → (exit_code sig w ≡ some 130) ⊎ (exit_code sig w ≡ some (128 + number sig))
exit_code_cases sig waiting ne = elim (ne refl) [ ]
exit_code_cases sig complete ne = inr refl
exit_code_cases sig forced ne = inl refl

-- The shutdown ends: when both servers are done, or the time is over, the process exits, with the
-- code of the first signal or with 130.
pub wait_for_shutdown-ends :
    (sig : Signal) (es : List Moment)
    → (has_timeout es ≡ true) ⊎ (2 ≤ count_done es)
    → (wait_for_shutdown sig es ≡ some 130) ⊎ (wait_for_shutdown sig es ≡ some (128 + number sig))
unfolding wait_for_shutdown
wait_for_shutdown-ends sig es h =
    exit_code_cases sig (wait 0 es)
      (wait-ends 0 es (elim h [ inl e ↦ inl e | inr many ↦ inr (omega arith) ]) (omega arith))
