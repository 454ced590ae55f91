-- ===== src/Middleware/Limits/Requests.antt =====
-- When the objects and pointers of the limiter of middleware_ratelimit.go, and the requests that hold
-- a visitor, stand for one limiter of each key and for the requests that wait.
use tdiscuss.Base.{
  ℕ, suc, ◌==◌, ◌≡◌, ◌≢◌, ◌<◌, refl, List, [], ◌∷◌, Option, none, some, Bool-cases, Option-cases,
  inl, inr, arith, if◌then◌else◌, ◌∙◌,
}
use mathlib.Core.Path.{ap}
use tdiscuss.Text.{Text, text_eq, text_eq_iff, text_eq_refl}
use tdiscuss.Middleware.{Visitor}
use tdiscuss.Middleware.Limits.Shared.{Shared, pointer_of, entry, write, held_or_made}

-- A limiter for each key, or none.
abbrev pub Limiters : Type 0 → Type 0
Limiters L = Text → Option L

-- Those who hold a visitor, and the requests that wait: the same, in the same order, each at the
-- visitor of its key.
abbrev pub SameRequests : List (Text × ℕ) → List (ℕ × ℕ) → List (ℕ × Text) → Type 0
SameRequests table [] [] = Unit
SameRequests table [] (w ∷ ws) = ⊥
SameRequests table (h ∷ hs) [] = ⊥
SameRequests table ((i, p) ∷ held) ((j, key) ∷ pending) =
    (i ≡ j) × (pointer_of key table ≡ some p) × SameRequests table held pending

-- Every pointer of the map is to an object that was made, and no two keys share one.
pub record Sound (table : List (Text × ℕ)) (next : ℕ) : Type 0 where
  pub made : (k : Text) (p : ℕ) → pointer_of k table ≡ some p → p < next
  pub apart :
      (k k' : Text) (p : ℕ) → pointer_of k table ≡ some p → pointer_of k' table ≡ some p → k ≡ k'

Sound-cons :
    (key : Text) (table : List (Text × ℕ)) (next : ℕ)
    → Sound table next
    → Sound ((key, next) ∷ table) (suc next)
unfolding pointer_of
Sound-cons key table next sound = record {
  made = λ k p e. elim (Bool-cases (text_eq key k)) [
    | inl hit ↦ ground (arith, rw hit at e)
    | inr miss ↦ ground (arith, sound.made k p (rw miss at e))
  ];
  apart = λ k k' p e e'. ground (
    arith,
    e,
    e',
    text_eq_iff key k,
    text_eq_iff key k',
    sound.made k p,
    sound.made k' p,
    sound.apart k k' p,
  );
}

pointer_of_self :
    (key : Text) (q : ℕ) (table : List (Text × ℕ)) → pointer_of key ((key, q) ∷ table) ≡ some q
unfolding pointer_of
pointer_of_self key q table = rw (text_eq_refl key)

pointer_of-cons :
    (key k : Text) (q p : ℕ) (table : List (Text × ℕ))
    → pointer_of key table ≡ none
    → pointer_of k table ≡ some p
    → pointer_of k ((key, q) ∷ table) ≡ some p
unfolding pointer_of
pointer_of-cons key k q p table absent e = elim (Bool-cases (text_eq key k)) [
  | inl hit ↦ (let same = (text_eq_iff key k).0 hit in cc)
  | inr miss ↦ rw miss e
]

SameRequests-cons :
    (key : Text) (q : ℕ) (table : List (Text × ℕ)) (held : List (ℕ × ℕ)) (pending : List (ℕ × Text))
    → pointer_of key table ≡ none
    → SameRequests table held pending
    → SameRequests ((key, q) ∷ table) held pending
SameRequests-cons key q table [] [] absent same = tt
SameRequests-cons key q table [] (w ∷ ws) absent same = elim same [ ]
SameRequests-cons key q table (h ∷ hs) [] absent same = elim same [ ]
SameRequests-cons key q table ((i, p) ∷ held) ((j, k) ∷ pending) absent same = (
  same.0,
  pointer_of-cons key k q p table absent same.1,
  SameRequests-cons key q table held pending absent same.2,
)

-- A request that waits, and its visitor, or neither.
abbrev pub Waits : List (Text × ℕ) → Option ℕ → Option Text → Type 0
Waits table none none = Unit
Waits table none (some key) = ⊥
Waits table (some p) none = ⊥
Waits table (some p) (some key) = pointer_of key table ≡ some p

pub entry-Waits :
    (id : ℕ) (table : List (Text × ℕ)) (held : List (ℕ × ℕ)) (pending : List (ℕ × Text))
    → SameRequests table held pending
    → Waits table (entry id held) (entry id pending)
unfolding entry
entry-Waits id table [] [] same = tt
entry-Waits id table [] (w ∷ ws) same = elim same [ ]
entry-Waits id table (h ∷ hs) [] same = elim same [ ]
entry-Waits id table ((i, p) ∷ held) ((j, key) ∷ pending) same =
    rw (← same.0) (elim (Bool-cases (i == id)) [
      | inl hit ↦ rw hit same.1
      | inr miss ↦ rw miss (entry-Waits id table held pending same.2)
    ])

module _ {L : Type 0} where
  abbrev pub set : Text → L → Limiters L → Limiters L
  set key l ls k = if text_eq key k then some l else ls k

  abbrev pub unless_there : Text → L → Limiters L → Option L → Limiters L
  unless_there key l ls none = set key l ls
  unless_there key l ls (some old) = ls

  -- The first who takes the limiter of a key makes it.
  abbrev pub made_once : Text → L → Limiters L → Limiters L
  made_once key l ls = unless_there key l ls (ls key)

  abbrev pub at_pointer : (ℕ → Visitor L) → Option ℕ → Option L
  at_pointer objects none = none
  at_pointer objects (some p) = some (objects p).limiter

  -- The limiter that a key's pointer leads to.
  unfoldable pub shown : Shared L → Text → Option L
  unfolding pointer_of
  shown s k = at_pointer s.objects (pointer_of k s.table)

  -- Writing the time of an object changes no limiter.
  pub touched-shown :
      (p now : ℕ) (objects : ℕ → Visitor L) (o : Option ℕ)
      → at_pointer (write p (record (objects p) { last_seen = now }) objects) o
        ≡ at_pointer objects o
  unfolding write
  touched-shown p now objects none = refl
  touched-shown p now objects (some q) = ground arith

  pub old-shown :
      (next : ℕ) (v : Visitor L) (objects : ℕ → Visitor L) (o : Option ℕ)
      → ((p : ℕ) → o ≡ some p → p < next)
      → at_pointer (write next v objects) o ≡ at_pointer objects o
  unfolding write
  old-shown next v objects none old = refl
  old-shown next v objects (some q) old = ground (arith, old q refl)

  pub wrote_other :
      (p : ℕ) (l : L) (objects : ℕ → Visitor L) (o : Option ℕ)
      → o ≢ some p
      → at_pointer (write p (record (objects p) { limiter = l }) objects) o ≡ at_pointer objects o
  unfolding write
  wrote_other p l objects none h = refl
  wrote_other p l objects (some q) h = ground (arith, h)

  pub record Matches (s : Shared L) (pending : List (ℕ × Text)) (ls : Limiters L) : Type 0 where
    pub limiters : (k : Text) → shown s k ≡ ls k
    pub sound : Sound s.table s.next
    pub requests : SameRequests s.table s.held pending

  -- A new object is the limiter of its key, and of no other.
  made-shown :
      (key k : Text) (v : Visitor L) (s : Shared L)
      → Sound s.table s.next
      → at_pointer (write s.next v s.objects) (pointer_of k ((key, s.next) ∷ s.table))
        ≡ set key v.limiter (shown s) k
  unfolding shown write pointer_of
  made-shown key k v s sound = elim (Bool-cases (text_eq key k)) [
    | inl hit ↦ rw hit (ground arith)
    | inr miss ↦ rw miss (old-shown s.next v s.objects (pointer_of k s.table) (λ p. sound.made k p))
  ]

  -- The visitor of the map is found, or a new one is made, whose limiter is then the key's.
  taken-known :
      (id : ℕ) (key : Text) (now p : ℕ) (made : Visitor L) (s : Shared L)
      (pending : List (ℕ × Text)) (ls : Limiters L)
      → pointer_of key s.table ≡ some p
      → Matches s pending ls
      → Matches
          (held_or_made id key now made (some p) s)
          ((id, key) ∷ pending)
          (made_once key made.limiter ls)
  unfolding shown
  taken-known id key now p made s pending ls known m = record {
    limiters = λ k.
        touched-shown p now s.objects (pointer_of k s.table)
        ∙ m.limiters k
        ∙ (rw (← m.limiters key) (rw known refl));
    sound = m.sound;
    requests = (refl, known, m.requests);
  }

  taken-new :
      (id : ℕ) (key : Text) (now : ℕ) (made : Visitor L) (s : Shared L) (pending : List (ℕ × Text))
      (ls : Limiters L)
      → pointer_of key s.table ≡ none
      → Matches s pending ls
      → Matches
          (held_or_made id key now made none s)
          ((id, key) ∷ pending)
          (made_once key made.limiter ls)
  unfolding shown
  taken-new id key now made s pending ls absent m = record {
    limiters = λ k.
        made-shown key k made s m.sound
        ∙ ap (λ o. if text_eq key k then some made.limiter else o) (m.limiters k)
        ∙ (rw (← m.limiters key) (rw absent refl));
    sound = Sound-cons key s.table s.next m.sound;
    requests = (
      refl,
      pointer_of_self key s.next s.table,
      SameRequests-cons key s.next s.table s.held pending absent m.requests,
    );
  }

  pub held-Matches :
      (id : ℕ) (key : Text) (now : ℕ) (made : Visitor L) (s : Shared L) (pending : List (ℕ × Text))
      (ls : Limiters L)
      → Matches s pending ls
      → Matches
          (held_or_made id key now made (pointer_of key s.table) s)
          ((id, key) ∷ pending)
          (made_once key made.limiter ls)
  held-Matches id key now made s pending ls m = elim (Option-cases (pointer_of key s.table)) [
    | inl absent ↦ rw absent (taken-new id key now made s pending ls absent m)
    | inr (p, known) ↦ rw known (taken-known id key now p made s pending ls known m)
  ]
