-- ===== src/Prelude/Lists.antt =====
-- Lists over the native numbers: how often a number occurs, and where it stands.
use Prim.Native.Nat.{ℕ, suc, ◌+◌, ◌<◌}
use mathlib.Core.Path.{◌≡◌, refl, ap}
use mathlib.Core.Logic.{◌≢◌, ◌⊎◌, inl, inr}
use mathlib.Core.List.{List, [], ◌∷◌, ◌++◌}
use native.Mathlib.Omega.{arith}
use malloc_for_c.Prelude.Tests.{◌==◌, if◌then◌else◌, Bool-cases, ==→≡}

module _ {ℓ} {A : Type ℓ} where
  abbrev pub length : List A → ℕ
  length [] = 0
  length (x ∷ xs) = suc (length xs)

  pub length-append : (xs ys : List A) → length (xs ++ ys) ≡ length xs + length ys
  length-append [] ys = omega arith
  length-append (x ∷ xs) ys = omega (arith, length-append xs ys)

-- How often `x` stands in the list.
abbrev pub count : ℕ → List ℕ → ℕ
count x [] = 0
count x (y ∷ ys) = (if x == y then 1 else 0) + count x ys

pub count-append : (x : ℕ) (xs ys : List ℕ) → count x (xs ++ ys) ≡ count x xs + count x ys
count-append x [] ys = omega arith
count-append x (y ∷ xs) ys = omega (arith, count-append x xs ys)

pub count_self : (x : ℕ) (xs : List ℕ) → count x (x ∷ xs) ≡ 1 + count x xs
count_self x xs = ground arith

pub count_other : (x y : ℕ) (xs : List ℕ) → x ≢ y → count x (y ∷ xs) ≡ count x xs
count_other x y xs h = ground arith

-- A number that occurs splits the list.
pub count-split :
    (x : ℕ) (xs : List ℕ) → 0 < count x xs → (l : List ℕ) × (r : List ℕ) × (xs ≡ l ++ x ∷ r)
count-split x [] h = absurd (omega arith)
count-split x (y ∷ ys) h = elim (Bool-cases (x == y)) [
  | inl e ↦ ([], ys, ap (λ z. z ∷ ys) (ground (arith, ==→≡ x y e)))
  | inr e ↦ let (l, r, p) = count-split x ys (ground arith) in (y ∷ l, r, ap (λ zs. y ∷ zs) p)
]

-- What does not occur is none of those that do.
pub count-single : (x p : ℕ) (xs : List ℕ) → count p xs ≡ 0 → 0 < count x xs → count x (p ∷ []) ≡ 0
count-single x p xs none h = elim (Bool-cases (x == p)) [
  | inl e ↦ let q : x ≡ p = ==→≡ x p e in absurd (omega (arith, ap (λ z. count z xs) q))
  | inr e ↦ rw e (omega arith)
]

-- A list is empty or has a last element.
pub snoc_cases {ℓ} :
    {A : Type ℓ} (xs : List A) → (xs ≡ []) ⊎ ((ys : List A) × (y : A) × (xs ≡ ys ++ y ∷ []))
snoc_cases [] = inl refl
snoc_cases (x ∷ xs) = elim (snoc_cases xs) [
  | inl e ↦ inr ([], x, ap (λ w. x ∷ w) e)
  | inr (ys, y, e) ↦ inr (x ∷ ys, y, ap (λ w. x ∷ w) e)
]
