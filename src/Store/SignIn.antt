-- ===== src/Store/SignIn.antt =====
-- What a sign-in finds of the sign-ins and the blocks before it.
use tdiscuss.Base.{
  ℕ, suc, ◌≡◌, ◌≢◌, refl, Bool, true, false, List, [], ◌∷◌, ◌++◌, if◌then◌else◌, Option, none, some,
  ℤ, pos, eq_ℤ, eq_ℤ_iff, arith, Bool-cases, inl, inr, sym,
}
use mathlib.Core.Path.{subst}
use tdiscuss.Text.{Text, text_eq, text_eq_refl}
use tdiscuss.Store.Tables.{
  Member, Db, Answer, row, no_rows, db_error, spent, next_fault, call, find, update_where,
}
use tdiscuss.Store.Members.{
  block, block_member, CreateOrReturnIdRow, described, new_member, insert_member, may_insert,
  return_or_insert, create_or_return_id,
}
use tdiscuss.Consistency.{IsTaken}

find-snoc :
    {A : Type 0} (p : A → Bool) (xs : List A) (y : A)
    → find p xs ≡ none
    → p y ≡ true
    → find p (xs ++ y ∷ []) ≡ some y
unfolding find
find-snoc p [] y absent h = rw h refl
find-snoc p (x ∷ xs) y absent h = ground (arith, find-snoc p xs y, h)

module _ (lower : Text → Text) (email : Text) where
  abbrev has_email : Member → Bool
  has_email m = text_eq m.email email

  abbrev found : Db → Option Member
  found db = find has_email db.members

  -- The answer of a call that does not fail.
  answered :
      (db : Db)
      → next_fault db.faults ≡ false
      → create_or_return_id lower email db ≡ return_or_insert lower email (found db) (spent db)
  unfolding create_or_return_id call
  answered db fine = rw fine refl

  failed :
      (db : Db)
      → next_fault db.faults ≡ true
      → create_or_return_id lower email db ≡ (db_error, spent db)
  unfolding create_or_return_id call
  failed db broken = rw broken refl

  -- The next call gives this answer and adds no member.
  abbrev Again : Answer CreateOrReturnIdRow → Db → Type 0
  Again a db =
      next_fault db.faults ≡ false
      → ((create_or_return_id lower email db).0 ≡ a)
        × ((create_or_return_id lower email db).1.members ≡ db.members)

  found-Again : (m : Member) (db : Db) → found db ≡ some m → Again (row (described m)) db
  found-Again m db there fine = rw (answered db fine) (rw there (refl, refl))

  abbrev Lasting : CreateOrReturnIdRow → Answer CreateOrReturnIdRow × Db → Type 0
  Lasting r x = x.0 ≡ row r → Again (row r) x.1

  inserted-Lasting :
      (db : Db) (r : CreateOrReturnIdRow) (allowed : Bool)
      → found db ≡ none
      → Lasting r (
          if allowed
          then (row (described (new_member email db)), insert_member email db)
          else (db_error, record db { next_member = suc db.next_member }))
  inserted-Lasting db r true absent e =
      subst (λ a. Again a (insert_member email db)) e
        (found-Again (new_member email db) (insert_member email db)
          (find-snoc has_email db.members (new_member email db) absent (text_eq_refl email)))
  inserted-Lasting db r false absent e = cc

  returned-Lasting :
      (db : Db) (r : CreateOrReturnIdRow) (o : Option Member)
      → found db ≡ o
      → Lasting r (return_or_insert lower email o db)
  returned-Lasting db r (some m) there e = subst (λ a. Again a db) e (found-Again m db there)
  returned-Lasting db r none absent e = inserted-Lasting db r (may_insert lower email db) absent e

  call-Lasting :
      (db : Db) (r : CreateOrReturnIdRow) → Lasting r (create_or_return_id lower email db)
  call-Lasting db r = elim (Bool-cases (next_fault db.faults)) [
    | inl broken ↦ subst (Lasting r) (sym (failed db broken)) (λ e. cc)
    | inr fine ↦
        subst (Lasting r) (sym (answered db fine)) (returned-Lasting (spent db) r (found db) refl)
  ]

  -- Who has signed in, for the first time or not, signs in again, if the next call does not fail, as
  -- the same member with the same flags, and no member is added.
  pub create_or_return_id-again :
      (db : Db) (r : CreateOrReturnIdRow)
      → (create_or_return_id lower email db).0 ≡ row r
      → next_fault (create_or_return_id lower email db).1.faults ≡ false
      → ((create_or_return_id lower email (create_or_return_id lower email db).1).0 ≡ row r)
        × ((create_or_return_id lower email (create_or_return_id lower email db).1).1.members
            ≡ (create_or_return_id lower email db).1.members)
  create_or_return_id-again db r e fine = call-Lasting db r e fine

abbrev IsBlockedIf : ℤ → Option Member → Type 0
IsBlockedIf id none = Unit
IsBlockedIf id (some m) = m.id ≡ id → m.is_blocked ≡ true

find-block :
    (p : Member → Bool) (id : ℤ) (ms : List Member)
    → IsBlockedIf id (find p (update_where (λ m. eq_ℤ m.id id) block ms))
unfolding find update_where
find-block p id [] = tt
find-block p id (m ∷ ms) = elim (Bool-cases (eq_ℤ m.id id)) [
  | inl hit ↦ rw hit (elim (Bool-cases (p (block m))) [
    | inl it ↦ rw it (λ e. refl)
    | inr other ↦ rw other (find-block p id ms)
  ])
  | inr miss ↦ rw miss (elim (Bool-cases (p m)) [
    | inl it ↦ rw it (λ e. ground (arith, eq_ℤ_iff m.id id))
    | inr other ↦ rw other (find-block p id ms)
  ])
]

module _ (lower : Text → Text) (email : Text) (id : ℤ) where
  abbrev Refused : Answer CreateOrReturnIdRow → Type 0
  Refused (row r) = r.id ≡ id → r.is_blocked ≡ true
  Refused no_rows = Unit
  Refused db_error = Unit

  -- A new member has another number.
  fresh : (next : ℕ) → IsTaken next id → pos next ≢ id
  fresh next (n, e, below) same = ground arith

  found-Refused :
      (db : Db) (o : Option Member)
      → IsBlockedIf id o
      → IsTaken db.next_member id
      → Refused (return_or_insert lower email o db).0
  found-Refused db (some m) h taken = h
  found-Refused db none h taken = elim (Bool-cases (may_insert lower email db)) [
    | inl good ↦ rw good (λ e. elim (fresh db.next_member taken e) [ ])
    | inr bad ↦ rw bad tt
  ]

  sign_in-Refused :
      (db : Db)
      → IsBlockedIf id (found lower email db)
      → IsTaken db.next_member id
      → Refused (create_or_return_id lower email db).0
  sign_in-Refused db h taken = elim (Bool-cases (next_fault db.faults)) [
    | inl broken ↦ subst (λ x. Refused x.0) (sym (failed lower email db broken)) tt
    | inr fine ↦
        subst (λ x. Refused x.0) (sym (answered lower email db fine))
          (found-Refused (spent db) (found lower email db) h taken)
  ]

  abbrev Effective : Answer Unit × Db → Type 0
  Effective x = x.0 ≡ row tt → Refused (create_or_return_id lower email x.1).0

  block-Effective : (db : Db) → IsTaken db.next_member id → Effective (block_member id db)
  unfolding block_member call
  block-Effective db taken = elim (Bool-cases (next_fault db.faults)) [
    | inl broken ↦ rw broken (λ e. cc)
    | inr fine ↦ rw fine (λ e. sign_in-Refused _ (find-block _ id db.members) taken)
  ]

  -- Once the block of a number that a member was given has succeeded, a sign-in that gives this
  -- number says that the member is blocked.
  pub block_member-sign_in :
      (db : Db)
      → IsTaken db.next_member id
      → (block_member id db).0 ≡ row tt
      → (r : CreateOrReturnIdRow)
      → (create_or_return_id lower email (block_member id db).1).0 ≡ row r
      → r.id ≡ id
      → r.is_blocked ≡ true
  block_member-sign_in db taken e r e' = subst Refused e' (block-Effective db taken e)
