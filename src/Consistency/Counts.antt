-- ===== src/Consistency/Counts.antt =====
-- Ascending numbers and counts as rows are added and changed.
use tdiscuss.Base.{
  ℕ, suc, ◌≤◌, ◌≡◌, refl, Bool, true, false, List, [], ◌∷◌, ◌++◌, map, if◌then◌else◌, ℤ, pos, eq_ℤ,
  All, length, arith, Bool-cases, inl, inr, ap,
}
use tdiscuss.Store.Tables.{Post, update_where}
use tdiscuss.Consistency.{Ascending, count_in}

pub Ascending-weaken :
    (lo hi hi' : ℕ) (zs : List ℤ) → hi ≤ hi' → Ascending lo hi zs → Ascending lo hi' zs
Ascending-weaken lo hi hi' [] le a = tt
Ascending-weaken lo hi hi' (z ∷ zs) le (n, e, l, h, a) =
    (n, e, l, omega arith, Ascending-weaken (suc n) hi hi' zs le a)

pub Ascending-snoc :
    (lo hi : ℕ) (zs : List ℤ)
    → lo ≤ hi
    → Ascending lo hi zs
    → Ascending lo (suc hi) (zs ++ pos hi ∷ [])
Ascending-snoc lo hi [] le a = (hi, refl, le, omega arith, tt)
Ascending-snoc lo hi (z ∷ zs) le (n, e, l, h, a) =
    (n, e, l, omega arith, Ascending-snoc (suc n) hi zs (omega arith) a)

pub map-append :
    {A B : Type 0} (f : A → B) (xs ys : List A) → map f (xs ++ ys) ≡ map f xs ++ map f ys
map-append f [] ys = refl
map-append f (x ∷ xs) ys = ap (λ l. f x ∷ l) (map-append f xs ys)

module _ {A : Type 0} (p : A → Bool) (f : A → A) where
  pub map-update_where :
      {B : Type 0} (g : A → B)
      → ((x : A) → g (f x) ≡ g x)
      → (xs : List A) → map g (update_where p f xs) ≡ map g xs
  unfolding update_where
  map-update_where g same [] = refl
  map-update_where g same (x ∷ xs) = elim (Bool-cases (p x)) [
    | inl hit ↦ rw hit (rw (same x) (ap (λ l. g x ∷ l) (map-update_where g same xs)))
    | inr miss ↦ rw miss (ap (λ l. g x ∷ l) (map-update_where g same xs))
  ]

  pub length-update_where : (xs : List A) → length (update_where p f xs) ≡ length xs
  unfolding update_where
  length-update_where [] = refl
  length-update_where (x ∷ xs) = ap suc (length-update_where xs)

  -- `P` of each row before gives `Q` of the row after it.
  pub All-update_where :
      (P Q : A → Type 0)
      → ((x : A) → p x ≡ true → P x → Q (f x))
      → ((x : A) → p x ≡ false → P x → Q x)
      → (xs : List A) → All P xs
      → All Q (update_where p f xs)
  unfolding update_where
  All-update_where P Q changed same [] h = tt
  All-update_where P Q changed same (x ∷ xs) h = elim (Bool-cases (p x)) [
    | inl hit ↦ rw hit (changed x hit h.0, All-update_where P Q changed same xs h.1)
    | inr miss ↦ rw miss (same x miss h.0, All-update_where P Q changed same xs h.1)
  ]

pub All-map :
    {A : Type 0} (P Q : A → Type 0) → ((x : A) → P x → Q x) → (xs : List A) → All P xs → All Q xs
All-map P Q k [] h = tt
All-map P Q k (x ∷ xs) h = (k x h.0, All-map P Q k xs h.1)

pub count_in-snoc :
    (tid : ℤ) (ps : List Post) (p : Post)
    → count_in tid (ps ++ p ∷ [])
      ≡ (if eq_ℤ p.thread_id tid then suc (count_in tid ps) else count_in tid ps)
unfolding count_in
count_in-snoc tid [] p = refl
count_in-snoc tid (q ∷ ps) p = ground (arith, count_in-snoc tid ps p)
