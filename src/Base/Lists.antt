-- ===== src/Base/Lists.antt =====
-- Lists measured by native numbers, predicates over lists, and lists that grow at the end.
use Prim.Native.Nat.{ℕ, zero, suc, ◌+◌, ◌≤◌}
use mathlib.Core.Path.{◌≡◌, refl, ap}
use mathlib.Core.List.{List, [], ◌∷◌, ◌++◌, map}
use mathlib.Core.Bool.{Bool, true, ◌&&◌}
use native.Mathlib.Omega.{arith}

module _ {ℓ} {A : Type ℓ} where
  abbrev pub length : List A → ℕ
  length [] = 0
  length (x ∷ xs) = suc (length xs)

  abbrev pub take : ℕ → List A → List A
  take zero xs = []
  take (suc n) [] = []
  take (suc n) (x ∷ xs) = x ∷ take n xs

  abbrev pub all : (A → Bool) → List A → Bool
  all p [] = true
  all p (x ∷ xs) = p x && all p xs

  pub length-append : (xs ys : List A) → length (xs ++ ys) ≡ length xs + length ys
  length-append [] ys = omega arith
  length-append (x ∷ xs) ys = omega (arith, length-append xs ys)

  pub length-take_le : (n : ℕ) (xs : List A) → length (take n xs) ≤ n
  length-take_le zero xs = omega arith
  length-take_le (suc n) [] = omega arith
  length-take_le (suc n) (x ∷ xs) = omega (arith, length-take_le n xs)

pub length-map {ℓ κ} :
    {A : Type ℓ} {B : Type κ} (f : A → B) (xs : List A) → length (map f xs) ≡ length xs
length-map f [] = refl
length-map f (x ∷ xs) = ap suc (length-map f xs)

module _ {ℓ κ} {A : Type ℓ} (P : A → Type κ) where
  abbrev pub All : List A → Type κ
  All [] = Unit
  All (x ∷ xs) = P x × All xs

  pub All-append : (xs ys : List A) → All xs → All ys → All (xs ++ ys)
  All-append [] ys hx hy = hy
  All-append (x ∷ xs) ys hx hy = (hx.0, All-append xs ys hx.1 hy)

-- `ys` is `xs` with each element moved along `R`, followed by new elements that meet `S`.
module _ {ℓ} {A : Type ℓ} (R : A → A → Type 0) (S : A → Type 0) where
  abbrev pub Grows : List A → List A → Type 0
  Grows [] ys = All S ys
  Grows (x ∷ xs) [] = ⊥
  Grows (x ∷ xs) (y ∷ ys) = R x y × Grows xs ys

  pub Grows-refl : ((x : A) → R x x) → (xs : List A) → Grows xs xs
  Grows-refl r [] = tt
  Grows-refl r (x ∷ xs) = (r x, Grows-refl r xs)

  pub Grows-map : (f : A → A) → ((x : A) → R x (f x)) → (xs : List A) → Grows xs (map f xs)
  Grows-map f r [] = tt
  Grows-map f r (x ∷ xs) = (r x, Grows-map f r xs)

  pub Grows-snoc : ((x : A) → R x x) → (xs : List A) (y : A) → S y → Grows xs (xs ++ y ∷ [])
  Grows-snoc r [] y s = (s, tt)
  Grows-snoc r (x ∷ xs) y s = (r x, Grows-snoc r xs y s)

  module _ (R_trans : (x y z : A) → R x y → R y z → R x z)
      (S_step : (x y : A) → S x → R x y → S y) where
    All-Grows : (xs ys : List A) → All S xs → Grows xs ys → All S ys
    All-Grows [] ys h g = g
    All-Grows (x ∷ xs) [] h g = elim g [ ]
    All-Grows (x ∷ xs) (y ∷ ys) h g = (S_step x y h.0 g.0, All-Grows xs ys h.1 g.1)

    pub Grows-trans : (xs ys zs : List A) → Grows xs ys → Grows ys zs → Grows xs zs
    Grows-trans [] ys zs h g = All-Grows ys zs h g
    Grows-trans (x ∷ xs) [] zs h g = elim h [ ]
    Grows-trans (x ∷ xs) (y ∷ ys) [] h g = elim g [ ]
    Grows-trans (x ∷ xs) (y ∷ ys) (z ∷ zs) h g =
        (R_trans x y z h.0 g.0, Grows-trans xs ys zs h.1 g.1)
