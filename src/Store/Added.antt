-- ===== src/Store/Added.antt =====
-- A row that is added at the end of its table, as the triggers and the later statements meet it.
use tdiscuss.Base.{
  ℕ, ◌≡◌, refl, Bool, true, false, List, [], ◌∷◌, ◌++◌, map, some, ℤ, pos, eq_ℤ, eq_ℤ_iff, All,
  arith,
}
use tdiscuss.Store.Tables.{Post, find, is_some, update_where}
use tdiscuss.Store.Threads.{earliest, latest}
use tdiscuss.Consistency.{Ascending, IsTaken}

module _ {A : Type 0} (p : A → Bool) where
  pub is_some-find-snoc :
      (xs : List A) (y : A) → p y ≡ true → is_some (find p (xs ++ y ∷ [])) ≡ true
  unfolding find
  is_some-find-snoc [] y h = rw h refl
  is_some-find-snoc (x ∷ xs) y h = ground (arith, is_some-find-snoc xs y h)

  pub update_where-snoc :
      (f : A → A) (xs : List A) (y : A)
      → All (λ x. p x ≡ false) xs
      → p y ≡ true
      → update_where p f (xs ++ y ∷ []) ≡ xs ++ f y ∷ []
  unfolding update_where
  update_where-snoc f [] y h e = rw e refl
  update_where-snoc f (x ∷ xs) y (miss, h) e = rw miss (rw (update_where-snoc f xs y h e) refl)

-- The number that a sequence gives next is that of no row.
pub Ascending-next :
    {A : Type 0} (id : A → ℤ) (lo next : ℕ) (xs : List A)
    → Ascending lo next (map id xs)
    → All (λ x. eq_ℤ (id x) (pos next) ≡ false) xs
Ascending-next id lo next [] a = tt
Ascending-next id lo next (x ∷ xs) (n, e, l, below, a) =
    (ground (arith, eq_ℤ_iff (id x) (pos next)), Ascending-next id _ next xs a)

module _ (tid : ℤ) where
  abbrev pub Elsewhere : List Post → Type 0
  Elsewhere = All (λ p. eq_ℤ p.thread_id tid ≡ false)

  pub earliest-first :
      (ps : List Post) (p : Post)
      → Elsewhere ps
      → eq_ℤ p.thread_id tid ≡ true
      → earliest tid (ps ++ p ∷ []) ≡ some p
  unfolding earliest
  earliest-first [] p h e = rw e refl
  earliest-first (q ∷ ps) p (miss, h) e = rw miss (earliest-first ps p h e)

  pub latest-first :
      (ps : List Post) (p : Post)
      → Elsewhere ps
      → eq_ℤ p.thread_id tid ≡ true
      → latest tid (ps ++ p ∷ []) ≡ some p
  unfolding latest
  latest-first [] p h e = rw e refl
  latest-first (q ∷ ps) p (miss, h) e = rw miss (latest-first ps p h e)

pub IsTaken-Elsewhere :
    (next : ℕ) (ps : List Post) → All (λ p. IsTaken next p.thread_id) ps → Elsewhere (pos next) ps
IsTaken-Elsewhere next [] h = tt
IsTaken-Elsewhere next (p ∷ ps) ((n, e, below), h) =
    (ground (arith, eq_ℤ_iff p.thread_id (pos next)), IsTaken-Elsewhere next ps h)
