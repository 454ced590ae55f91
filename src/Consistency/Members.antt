-- ===== src/Consistency/Members.antt =====
-- The sign-in keeps the tables consistent.
use tdiscuss.Base.{
  ℕ, suc, ◌+◌, ◌≡◌, ◌≢◌, ◌∙◌, ap, refl, map, pos, All, All-append, List, [], ◌∷◌, ◌++◌, ℤ,
  if◌then◌else◌, Option, none, some, length-append, arith, Bool-cases, inl, inr, sym,
}
use mathlib.Core.Path.{subst}
use tdiscuss.Text.{Text, text_eq, text_eq_iff}
use tdiscuss.Store.Tables.{Profile, Member, Board, Db, map_board, find}
use tdiscuss.Store.Members.{
  count_member, insert_member, new_member, new_profile, return_or_insert, create_or_return_id,
  may_insert,
}
use tdiscuss.Web.Keeps.{KeepsQuery, Keeps-call}
use tdiscuss.Consistency.{Ascending, IsMember, Apart, Totals, Advances}
use tdiscuss.Consistency.Counts.{Ascending-snoc, map-append, All-map}
use tdiscuss.Consistency.Sequences.{Consistent-later, Advances-same, Advances-faults}

Totals-member :
    (b : Option Board) (m t p : ℕ) → Totals b m t p → Totals (map_board count_member b) (m + 1) t p
Totals-member none m t p h = tt
Totals-member (some b) m t p h = (omega (arith, h.0), h.1, h.2)

-- Who was a member is still one when another is added.
IsMember-snoc :
    (ms : List Member) (new : Member) (id : ℤ) → IsMember ms id → IsMember (ms ++ new ∷ []) id
unfolding find
IsMember-snoc [] new id h = ground arith
IsMember-snoc (m ∷ ms) new id h = ground (arith, IsMember-snoc ms new id)

Apart-snoc : (e : Text) (es : List Text) → All (λ f. f ≢ e) es → Apart es → Apart (es ++ e ∷ [])
Apart-snoc e [] h a = (tt, tt)
Apart-snoc e (f ∷ es) h a =
    (All-append (λ g. f ≢ g) es (e ∷ []) a.0 (h.0, tt), Apart-snoc e es h.1 a.1)

-- An address that is not found differs from all.
absent-differ :
    (email : Text) (ms : List Member)
    → find (λ m. text_eq m.email email) ms ≡ none
    → All (λ f. f ≢ email) (map (λ m. m.email) ms)
unfolding find
absent-differ email [] h = tt
absent-differ email (m ∷ ms) h = elim (Bool-cases (text_eq m.email email)) [
  | inl hit ↦ ground (arith, hit)
  | inr miss ↦ (
    λ e. ground (arith, text_eq_iff m.email email),
    absent-differ email ms
        (subst (λ b. (if b then some m else find (λ n. text_eq n.email email) ms) ≡ none) miss h),
  )
]

inserted-member :
    (email : Text) (db : Db)
    → find (λ m. text_eq m.email email) db.members ≡ none
    → Advances db (insert_member email db)
inserted-member email db absent = record {
  next_member = omega arith;
  next_thread = omega arith;
  next_post = omega arith;
  consistent = λ c.
      let new = new_member email db in
      record {
        members =
            subst (Ascending 0 (suc db.next_member))
              (sym (map-append (λ (m : Member). m.id) db.members (new ∷ [])))
              (Ascending-snoc 0 db.next_member _ (omega arith) c.members);
        threads = c.threads;
        posts = c.posts;
        parents = c.parents;
        addresses =
            subst Apart (sym (map-append (λ (m : Member). m.email) db.members (new ∷ [])))
              (Apart-snoc email _ (absent-differ email db.members absent) c.addresses);
        profiles =
            map-append (λ (q : Profile). q.member_id) db.profiles (new_profile db ∷ [])
            ∙ ap (λ ids. ids ++ pos db.next_member ∷ []) c.profiles
            ∙ sym (map-append (λ (m : Member). m.id) db.members (new ∷ []));
        owners = All-map _ _ (λ t. IsMember-snoc db.members new t.member_id) db.threads c.owners;
        authors = All-map _ _ (λ p. IsMember-snoc db.members new p.member_id) db.posts c.authors;
        counted = c.counted;
        totals = rw (length-append db.members (new ∷ [])) (Totals-member db.board _ _ _ c.totals);
      };
}

refused-member : (db : Db) → Advances db (record db { next_member = suc db.next_member })
refused-member db = record {
  next_member = omega arith;
  next_thread = omega arith;
  next_post = omega arith;
  consistent =
      Consistent-later db (record db { next_member = suc db.next_member }) (omega arith)
        (omega arith) (omega arith);
}

returned :
    (lower : Text → Text) (email : Text) (o : Option Member) (db : Db)
    → find (λ m. text_eq m.email email) db.members ≡ o
    → Advances db (return_or_insert lower email o db).1
returned lower email (some m) db e = Advances-same db
returned lower email none db e = elim (Bool-cases (may_insert lower email db)) [
  | inl good ↦ rw good (inserted-member email db e)
  | inr bad ↦ rw bad (refused-member db)
]

pub create_or_return_id-Advances :
    (lower : Text → Text) (email : Text) → KeepsQuery Advances (create_or_return_id lower email)
unfolding create_or_return_id
create_or_return_id-Advances lower email =
    let found = λ (db : Db). find (λ (m : Member). text_eq m.email email) db.members in
    Keeps-call Advances-faults (λ db. return_or_insert lower email (found db) db)
      λ db. returned lower email (found db) db refl
