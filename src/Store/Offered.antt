-- ===== src/Store/Offered.antt =====
-- Which threads the list offers for editing, and which the update accepts.
use tdiscuss.Base.{
  ◌≡◌, ◌≢◌, refl, sym, ◌∙◌, Bool, true, false, List, [], ◌∷◌, map, if◌then◌else◌, Option, none,
  some, ℤ, eq_ℤ, eq_ℤ_iff, eq_ℤ_refl, All, Bool-cases, inl, inr,
}
use mathlib.Core.Path.{subst, ap}
use tdiscuss.Text.{Text, text_eq, text_eq_iff}
use tdiscuss.Store.Tables.{Member, Thread, Db, find, is_some, member_by_id, thread_by_id}
use tdiscuss.Store.Threads.{thread_matches}
use tdiscuss.Store.Reads.{threads_row, email_is}
use tdiscuss.Web.{User}
use tdiscuss.Consistency.{Apart, Consistent}

abbrev with_id : ℤ → Member → Bool
with_id i m = eq_ℤ m.id i

module _ {A : Type 0} where
  abbrev or_else : A → Option A → A
  or_else x none = x
  or_else x (some y) = y

  find-hit : (p : A → Bool) (x y : A) (xs : List A) → p x ≡ true → find p (x ∷ xs) ≡ some y → x ≡ y
  unfolding find
  find-hit p x y xs hit e =
      ap (or_else x) (subst (λ b. (if b then some x else find p xs) ≡ some y) hit e)

  find-miss :
      (p : A → Bool) (x y : A) (xs : List A)
      → p x ≡ false
      → find p (x ∷ xs) ≡ some y
      → find p xs ≡ some y
  unfolding find
  find-miss p x y xs miss e = subst (λ b. (if b then some x else find p xs) ≡ some y) miss e

  All-find :
      (P : A → Type 0) (p : A → Bool) (xs : List A) (y : A)
      → All P xs
      → find p xs ≡ some y
      → P y × (p y ≡ true)
  unfolding find
  All-find P p [] y h e = cc
  All-find P p (x ∷ xs) y h e = elim (Bool-cases (p x)) [
    | inl hit ↦
        let same = find-hit p x y xs hit e in (subst P same h.0, subst (λ z. p z ≡ true) same hit)
    | inr miss ↦ All-find P p xs y h.1 (find-miss p x y xs miss e)
  ]

-- An address that differs from all differs from that of a member who is found.
differs-found :
    (p : Member → Bool) (e : Text) (ms : List Member) (m : Member)
    → All (λ f. e ≢ f) (map (λ m. m.email) ms)
    → find p ms ≡ some m
    → e ≢ m.email
unfolding find
differs-found p e [] m h found = cc
differs-found p e (x ∷ ms) m h found = elim (Bool-cases (p x)) [
  | inl hit ↦ subst (λ y. e ≢ y.email) (find-hit p x m ms hit found) h.0
  | inr miss ↦ differs-found p e ms m h.1 (find-miss p x m ms miss found)
]

-- Where addresses are different, members of one address have one number.
one_address :
    (i j : ℤ) (ms : List Member) (m n : Member)
    → Apart (map (λ m. m.email) ms)
    → find (with_id i) ms ≡ some m
    → find (with_id j) ms ≡ some n
    → m.email ≡ n.email
    → i ≡ j
unfolding find
one_address i j [] m n a e f same = cc
one_address i j (x ∷ ms) m n a e f same = elim (Bool-cases (with_id i x)) [
  | inl hit ↦ elim (Bool-cases (with_id j x)) [
    | inl also ↦ sym ((eq_ℤ_iff x.id i).0 hit) ∙ (eq_ℤ_iff x.id j).0 also
    | inr miss ↦ absurd (
        differs-found (with_id j) x.email ms n a.0 (find-miss (with_id j) x n ms miss f)
          (ap (λ y. y.email) (find-hit (with_id i) x m ms hit e) ∙ same))
  ]
  | inr miss ↦ elim (Bool-cases (with_id j x)) [
    | inl hit ↦ absurd (
        differs-found (with_id i) x.email ms m a.0 (find-miss (with_id i) x m ms miss e)
          (ap (λ y. y.email) (find-hit (with_id j) x n ms hit f) ∙ sym same))
    | inr other ↦
        one_address i j ms m n a.1 (find-miss (with_id i) x m ms miss e)
          (find-miss (with_id j) x n ms other f) same
  ]
]

clash : (b : Bool) → b ≡ true → b ≡ false → ⊥
clash b yes_b no_b = cc

found-same :
    (i j : ℤ) (ms : List Member) (m n : Member)
    → find (with_id i) ms ≡ some m
    → find (with_id j) ms ≡ some n
    → i ≡ j
    → m ≡ n
found-same i j ms m n e f same =
    ap (or_else m) (sym e ∙ subst (λ k. find (with_id k) ms ≡ some n) (sym same) f)

module _ (email : Text) (i j : ℤ) (ms : List Member) (me : Member)
    (apart : Apart (map (λ m. m.email) ms)) (mine : find (with_id j) ms ≡ some me)
    (named : me.email ≡ email) where
  -- The member of one number has the address exactly if it is the number of the user.
  email_is-owner :
      (o : Option Member) → find (with_id i) ms ≡ o → is_some o ≡ true → email_is email o ≡ eq_ℤ i j
  email_is-owner none e h = cc
  email_is-owner (some m) e h = elim (Bool-cases (text_eq m.email email)) [
    | inl own ↦
        let same =
          one_address i j ms m me apart e mine ((text_eq_iff m.email email).0 own ∙ sym named) in
        own ∙ sym ((eq_ℤ_iff i j).1 same)
    | inr other ↦ elim (Bool-cases (eq_ℤ i j)) [
      | inl same ↦
          let named' =
            ap (λ m. m.email) (found-same i j ms m me e mine ((eq_ℤ_iff i j).0 same)) ∙ named in
          absurd (clash (text_eq m.email email) ((text_eq_iff m.email email).1 named') other)
      | inr apart' ↦ other ∙ sym apart'
    ]
  ]

-- In consistent tables, the list offers a thread that is there to a user, who is there with the
-- address of the sign-in, for editing exactly if the update of the thread by this user would match
-- the thread now.
pub threads_row-can_edit :
    (u : User) (me : Member) (id : ℤ) (t : Thread) (subject : Text) (db : Db)
    → Consistent db
    → member_by_id u.id db ≡ some me
    → me.email ≡ u.email
    → thread_by_id id db ≡ some t
    → (threads_row u.email db t).can_edit
      ≡ thread_matches db.now (record { subject = subject; id = t.id; member_id = u.id }) t
unfolding member_by_id thread_by_id
threads_row-can_edit u me id t subject db c mine named there =
    let (owner, found) = All-find _ _ db.threads t c.owners there in
    rw (email_is-owner u.email t.member_id u.id db.members me c.addresses mine named _ refl owner)
      (rw (eq_ℤ_refl t.id) refl)
