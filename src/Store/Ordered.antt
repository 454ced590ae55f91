-- ===== src/Store/Ordered.antt =====
-- What `ORDER BY` gives: the same rows, in order.
use tdiscuss.Base.{◌≡◌, refl, Bool, true, false, List, [], ◌∷◌, All, Bool-cases, inl, inr}
use mathlib.Core.List.{Perm}
use mathlib.Core.List.Perm
use tdiscuss.Store.Reads.{insert_row, order_by}

-- Each row may stand before all that follow.
abbrev pub IsSorted : {A : Type 0} → (A → A → Bool) → List A → Type 0
IsSorted before [] = Unit
IsSorted before (x ∷ xs) = All (λ y. before x y ≡ true) xs × IsSorted before xs

module _ {A : Type 0} (before : A → A → Bool) where
  insert_row_first :
      (x y : A) (ys : List A) → before x y ≡ true → insert_row before x (y ∷ ys) ≡ x ∷ y ∷ ys
  unfolding insert_row
  insert_row_first x y ys e = rw e refl

  insert_row_later :
      (x y : A) (ys : List A)
      → before x y ≡ false
      → insert_row before x (y ∷ ys) ≡ y ∷ insert_row before x ys
  unfolding insert_row
  insert_row_later x y ys e = rw e refl

  insert_row-Perm : (x : A) (ys : List A) → Perm (insert_row before x ys) (x ∷ ys)
  unfolding insert_row
  insert_row-Perm x [] = Perm.refl (x ∷ [])
  insert_row-Perm x (y ∷ ys) = elim (Bool-cases (before x y)) [
    | inl first ↦ rw (insert_row_first x y ys first) (Perm.refl (x ∷ y ∷ ys))
    | inr later ↦
        rw (insert_row_later x y ys later)
          (Perm.trans (Perm.cons y (insert_row-Perm x ys)) (Perm.swap x y ys))
  ]

  pub order_by-Perm : (xs : List A) → Perm (order_by before xs) xs
  unfolding order_by
  order_by-Perm [] = Perm.refl []
  order_by-Perm (x ∷ xs) =
      Perm.trans (insert_row-Perm x (order_by before xs)) (Perm.cons x (order_by-Perm xs))

  All-insert_row :
      (P : A → Type 0) (x : A) (ys : List A) → P x → All P ys → All P (insert_row before x ys)
  unfolding insert_row
  All-insert_row P x [] h hs = (h, tt)
  All-insert_row P x (y ∷ ys) h hs = elim (Bool-cases (before x y)) [
    | inl first ↦ rw (insert_row_first x y ys first) (h, hs)
    | inr later ↦ rw (insert_row_later x y ys later) (hs.0, All-insert_row P x ys h hs.1)
  ]

  All-before :
      ((a b c : A) → before a b ≡ true → before b c ≡ true → before a c ≡ true)
      → (x y : A) (ys : List A) → before x y ≡ true
      → All (λ z. before y z ≡ true) ys
      → All (λ z. before x z ≡ true) ys
  All-before trans x y [] h hs = tt
  All-before trans x y (z ∷ ys) h hs = (trans x y z h hs.0, All-before trans x y ys h hs.1)

  module _ (total : (a b : A) → before a b ≡ false → before b a ≡ true)
      (trans : (a b c : A) → before a b ≡ true → before b c ≡ true → before a c ≡ true) where
    insert_row-IsSorted :
        (x : A) (ys : List A) → IsSorted before ys → IsSorted before (insert_row before x ys)
    unfolding insert_row
    insert_row-IsSorted x [] h = (tt, tt)
    insert_row-IsSorted x (y ∷ ys) h = elim (Bool-cases (before x y)) [
      | inl first ↦
          rw (insert_row_first x y ys first) ((first, All-before trans x y ys first h.0), h)
      | inr later ↦ rw (insert_row_later x y ys later) (
        All-insert_row (λ z. before y z ≡ true) x ys (total x y later) h.0,
        insert_row-IsSorted x ys h.1,
      )
    ]

    pub order_by-IsSorted : (xs : List A) → IsSorted before (order_by before xs)
    unfolding order_by
    order_by-IsSorted [] = tt
    order_by-IsSorted (x ∷ xs) = insert_row-IsSorted x (order_by before xs) (order_by-IsSorted xs)
