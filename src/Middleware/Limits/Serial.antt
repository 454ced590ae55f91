-- ===== src/Middleware/Limits/Serial.antt =====
-- The visits of requests at the same time, at the limiter of middleware_ratelimit.go, against one
-- limiter for each key.
use tdiscuss.Base.{
  true, false, ℕ, Bool, ltb, ◌*◌, ◌/◌, ◌&&◌, ◌∙◌, ◌≡◌, ◌≢◌, refl, List, [], ◌∷◌, Option, none, some,
  Bool-cases, inl, inr, arith, if◌then◌else◌,
}
use mathlib.Core.Path.{subst, sym, ap}
use tdiscuss.Text.{Text, text_eq, text_eq_iff, codes, has_prefix}
use tdiscuss.Middleware.Outside.{RateLibrary}
use tdiscuss.Middleware.{Exchange, Visitor}
use tdiscuss.Middleware.Limits.{RateLimitConfig, get_visitor_key, get_limits_for_path}
use tdiscuss.Middleware.Limits.Shared.{
  Shared, Move, takes, asks, pointer_of, entry, write, no_requests, made_for, take_visitor, asked,
  run,
}
use tdiscuss.Middleware.Limits.Requests.{
  Limiters, set, made_once, shown, wrote_other, Sound, Matches, Waits, entry-Waits, held-Matches,
}

module _ {L : Type 0} (lib : RateLibrary L) (config : RateLimitConfig) where
  -- The multiplier of a key, in thousandths: that of the configuration for a user, if it has one.
  abbrev pub share : Text → ℕ
  share key =
      if has_prefix key (codes "user:") && ltb 0 config.user_rate_multiplier
      then config.user_rate_multiplier
      else 1000

  -- A full limiter with the limits of the path, times the multiplier.
  abbrev pub first_limiter : Exchange → ℕ → L
  first_limiter ex now =
      let (limit, burst) = get_limits_for_path config ex.request.path in
      let n = share (get_visitor_key config ex) in
      lib.new_limiter (limit * n / 1000) (burst * n / 1000) now

  all_of : (n : ℕ) → n * 1000 / 1000 ≡ n
  all_of n = omega arith

  either-made :
      (for_user : Bool) (n limit burst now : ℕ)
      → let m = if for_user then n else 1000 in
        let user_made : Visitor L = record {
          limiter = lib.new_limiter (limit * n / 1000) (burst * n / 1000) now;
          last_seen = now;
        } in
        let made : Visitor L = record {
          limiter = lib.new_limiter limit burst now;
          last_seen = now;
        } in
        lib.new_limiter (limit * m / 1000) (burst * m / 1000) now
        ≡ (if for_user then user_made else made).limiter
  either-made true n limit burst now = refl
  either-made false n limit burst now = rw (all_of limit) (rw (all_of burst) refl)

  first-made :
      (ex : Exchange) (now : ℕ) → first_limiter ex now ≡ (made_for lib config ex now).limiter
  first-made ex now =
      either-made
        (has_prefix (get_visitor_key config ex) (codes "user:")
          && ltb 0 config.user_rate_multiplier)
        config.user_rate_multiplier _ _ now

  -- One limiter for each key, made for the first request that takes its visitor, and asked in the
  -- order of the questions. No pointers, and no visitors.
  unfoldable pub serial : List Move → List (ℕ × Text) → Limiters L → List (ℕ × Bool)
  unfolding entry
  serial [] pending ls = []
  serial (takes id ex now ∷ ms) pending ls =
      let key = get_visitor_key config ex in
      serial ms ((id, key) ∷ pending) (made_once key (first_limiter ex now) ls)
  serial (asks id now ∷ ms) pending ls = elim (entry id pending) [
    | none ↦ serial ms pending ls
    | some key ↦ elim (ls key) [
      | none ↦ serial ms pending ls
      | some l ↦
          (let (allowed, l') = lib.allow now l in (id, allowed) ∷ serial ms pending (set key l' ls))
    ]
  ]

  -- Asking changes the limiter of the key, here and there, and no other.
  asked-shown :
      (key k : Text) (now p : ℕ) (s : Shared L)
      → Sound s.table s.next
      → pointer_of key s.table ≡ some p
      → shown (asked lib config p now s).1 k
        ≡ set key (lib.allow now (s.objects p).limiter).1 (shown s) k
  unfolding shown
  asked-shown key k now p s sound known = elim (Bool-cases (text_eq key k)) [
    | inl hit ↦
        (let here : pointer_of k s.table ≡ some p =
            subst (λ j. pointer_of j s.table ≡ some p) ((text_eq_iff key k).0 hit) known in
          rw hit (rw here (unfold write in ground arith)))
    | inr miss ↦
        (let other : key ≢ k = ground (arith, miss, text_eq_iff key k) in
          rw miss (
            wrote_other p _ s.objects (pointer_of k s.table)
              (λ e. other (sound.apart key k p known e))))
  ]

  asked-Matches :
      (key : Text) (now p : ℕ) (s : Shared L) (pending : List (ℕ × Text)) (ls : Limiters L)
      → pointer_of key s.table ≡ some p
      → Matches s pending ls
      → Matches
          (asked lib config p now s).1
          pending
          (set key (lib.allow now (s.objects p).limiter).1 ls)
  asked-Matches key now p s pending ls known m = record {
    limiters = λ k.
        asked-shown key k now p s m.sound known
        ∙ ap (λ o. if text_eq key k then some (lib.allow now (s.objects p).limiter).1 else o)
            (m.limiters k);
    sound = m.sound;
    requests = m.requests;
  }

  key-shown :
      (key : Text) (p : ℕ) (s : Shared L)
      → pointer_of key s.table ≡ some p
      → shown s key ≡ some (s.objects p).limiter
  unfolding shown
  key-shown key p s known = rw known refl

  abbrev run_asks : ℕ → ℕ → List Move → Shared L → Option ℕ → List (ℕ × Bool)
  run_asks id now ms s none = run lib config ms s
  run_asks id now ms s (some p) =
      (id, (asked lib config p now s).0) ∷ run lib config ms (asked lib config p now s).1

  abbrev serial_at :
      ℕ → ℕ → List Move → List (ℕ × Text) → Limiters L → Text → Option L → List (ℕ × Bool)
  serial_at id now ms pending ls key none = serial ms pending ls
  serial_at id now ms pending ls key (some l) =
      (id, (lib.allow now l).0) ∷ serial ms pending (set key (lib.allow now l).1 ls)

  abbrev serial_asks :
      ℕ → ℕ → List Move → List (ℕ × Text) → Limiters L → Option Text → List (ℕ × Bool)
  serial_asks id now ms pending ls none = serial ms pending ls
  serial_asks id now ms pending ls (some key) = serial_at id now ms pending ls key (ls key)

  asks-Matches :
      (id now : ℕ) (ms : List Move) (s : Shared L) (pending : List (ℕ × Text)) (ls : Limiters L)
      (o : Option ℕ) (o' : Option Text)
      → Waits s.table o o'
      → Matches s pending ls
      → ((s' : Shared L) (ls' : Limiters L)
          → Matches s' pending ls'
          → run lib config ms s' ≡ serial ms pending ls')
      → run_asks id now ms s o ≡ serial_asks id now ms pending ls o'
  asks-Matches id now ms s pending ls none none w m rest = rest s ls m
  asks-Matches id now ms s pending ls none (some key) w m rest = elim w [ ]
  asks-Matches id now ms s pending ls (some p) none w m rest = elim w [ ]
  asks-Matches id now ms s pending ls (some p) (some key) known m rest =
      rw (sym (m.limiters key) ∙ key-shown key p s known) (
        ap (λ answers. (id, (asked lib config p now s).0) ∷ answers)
          (rest _ _ (asked-Matches key now p s pending ls known m)))

  run-Matches :
      (ms : List Move) (s : Shared L) (pending : List (ℕ × Text)) (ls : Limiters L)
      → Matches s pending ls
      → run lib config ms s ≡ serial ms pending ls
  unfolding run serial take_visitor
  run-Matches [] s pending ls m = refl
  run-Matches (takes id ex now ∷ ms) s pending ls m =
      let key = get_visitor_key config ex in
      rw (first-made ex now) (
        run-Matches ms (take_visitor lib config id ex now s) ((id, key) ∷ pending)
          (made_once key (made_for lib config ex now).limiter ls)
          (held-Matches id key now (made_for lib config ex now) s pending ls m))
  run-Matches (asks id now ∷ ms) s pending ls m =
      asks-Matches id now ms s pending ls _ _ (entry-Waits id s.table s.held pending m.requests) m
        (λ s' ls'. run-Matches ms s' pending ls')

  no_requests-Matches : (v : Visitor L) → Matches (no_requests v) [] (λ k. none)
  unfolding shown pointer_of
  no_requests-Matches v = record {
    limiters = λ k. refl;
    sound = record { made = λ k p e. cc; apart = λ k k' p e e'. cc };
    requests = tt;
  }

  -- From a limiter with no visitors, and with no round of the cleanup: however requests of whatever
  -- paths take their visitors and ask them in between one another, they are answered as by one limiter
  -- for each key, made for the first request that takes its visitor, with the limits
  -- of that request's path times the multiplier of a user, and asked once for each question, in the order of the questions.
  pub run-serial :
      (ms : List Move) (v : Visitor L)
      → run lib config ms (no_requests v) ≡ serial ms [] (λ k. none)
  run-serial ms v = run-Matches ms (no_requests v) [] (λ k. none) (no_requests-Matches v)
