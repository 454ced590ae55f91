-- ===== src/Middleware/Limits/Shared.antt =====
-- The limiter of middleware_ratelimit.go under requests at the same time: the visitors are objects
-- that the map and the requests point to, and `getVisitor` and `Allow` are two steps, between which
-- other requests take theirs.
use tdiscuss.Base.{ℕ, suc, ◌==◌, Bool, List, [], ◌∷◌, if◌then◌else◌, Option, none, some}
use tdiscuss.Text.{Text, text_eq}
use tdiscuss.Middleware.Outside.{RateLibrary}
use tdiscuss.Middleware.{Exchange, Visitor}
use tdiscuss.Middleware.Limits.{RateLimitConfig, make_visitor, get_visitor_key, get_limits_for_path}

-- `objects` is the heap, with `next` the address of the next object; `table` is the map of the
-- limiter; `held` has the requests that have their visitor, by their number.
pub record Shared (L : Type 0) : Type 0 where
  pub objects : ℕ → Visitor L
  pub next : ℕ
  pub table : List (Text × ℕ)
  pub held : List (ℕ × ℕ)

-- A request calls `getVisitor`, or asks its visitor's limiter.
pub data Move : Type 0 where
  takes : (id : ℕ) → Exchange → (now : ℕ) → Move
  asks : (id now : ℕ) → Move

unfoldable pub pointer_of : Text → List (Text × ℕ) → Option ℕ
pointer_of key [] = none
pointer_of key ((k, p) ∷ table) = if text_eq k key then some p else pointer_of key table

unfoldable pub entry : {A : Type 0} → ℕ → List (ℕ × A) → Option A
entry id [] = none
entry id ((i, a) ∷ as') = if i == id then some a else entry id as'

module _ {L : Type 0} where
  unfoldable pub write : ℕ → Visitor L → (ℕ → Visitor L) → ℕ → Visitor L
  write p v objects q = if q == p then v else objects q

  -- The visitor of the map is written through its pointer, or a new one is made.
  abbrev pub held_or_made : ℕ → Text → ℕ → (made : Visitor L) → Option ℕ → Shared L → Shared L
  held_or_made id key now made (some p) s = record s {
    objects = write p (record (s.objects p) { last_seen = now }) s.objects;
    held = (id, p) ∷ s.held;
  }
  held_or_made id key now made none s = record {
    objects = write s.next made s.objects;
    next = suc s.next;
    table = (key, s.next) ∷ s.table;
    held = (id, s.next) ∷ s.held;
  }

  abbrev pub no_requests : Visitor L → Shared L
  no_requests v = record { objects = λ p. v; next = 0; table = []; held = [] }

module _ {L : Type 0} (lib : RateLibrary L) (config : RateLimitConfig) where
  abbrev pub made_for : Exchange → ℕ → Visitor L
  made_for ex now =
      let (limit, burst) = get_limits_for_path config ex.request.path in
      make_visitor lib config (get_visitor_key config ex) limit burst now

  unfoldable pub take_visitor : ℕ → Exchange → ℕ → Shared L → Shared L
  unfolding pointer_of write
  take_visitor id ex now s =
      let key = get_visitor_key config ex in
      held_or_made id key now (made_for ex now) (pointer_of key s.table) s

  -- `Allow` changes the limiter that the visitor points to.
  abbrev pub asked : ℕ → ℕ → Shared L → Bool × Shared L
  asked p now s =
      let (allowed, limiter) = lib.allow now (s.objects p).limiter in
      (
        allowed,
        record s { objects = write p (record (s.objects p) { limiter = limiter }) s.objects },
      )

  -- The answers, in the order in which they are given. A request that holds no visitor does not ask.
  unfoldable pub run : List Move → Shared L → List (ℕ × Bool)
  unfolding take_visitor entry write
  run [] s = []
  run (takes id ex now ∷ ms) s = run ms (take_visitor id ex now s)
  run (asks id now ∷ ms) s = elim (entry id s.held) [
    | none ↦ run ms s
    | some p ↦ (let (allowed, s') = asked p now s in (id, allowed) ∷ run ms s')
  ]
