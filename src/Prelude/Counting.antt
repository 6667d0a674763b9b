-- ===== src/Prelude/Counting.antt =====
-- How many elements of a list pass a test. Two lists hold the same elements, as often, when
-- every test counts the same in both.
use agentic_analyst.Prelude.Tests.{if◌then◌else◌}
use agentic_analyst.Prelude.Lists.{insert_by, sort_by, length}
use Prim.Native.Nat.{ℕ, suc, ◌+◌}
use mathlib.Core.Path.{◌≡◌, refl}
use mathlib.Core.Bool.{Bool}
use mathlib.Core.List.{List, [], ◌∷◌, ◌++◌, map}
use native.Mathlib.Omega.{arith}

module _ {ℓ} {A : Type ℓ} where
  abbrev pub count_if : (A → Bool) → List A → ℕ
  count_if p [] = 0
  count_if p (x ∷ xs) = (if p x then 1 else 0) + count_if p xs

  pub count_if-append :
      (p : A → Bool) (xs ys : List A) → count_if p (xs ++ ys) ≡ count_if p xs + count_if p ys
  count_if-append p [] ys = omega arith
  count_if-append p (x ∷ xs) ys = omega (arith, count_if-append p xs ys)

  pub count_if-insert_by :
      (p : A → Bool) (le : A → A → Bool) (a : A) (xs : List A)
      → count_if p (insert_by le a xs) ≡ (if p a then 1 else 0) + count_if p xs
  count_if-insert_by p le a [] = refl
  count_if-insert_by p le a (x ∷ xs) = ground (arith, count_if-insert_by p le a xs)

module _ {ℓ} {A : Type ℓ} where
  pub count_if-sort_by :
      (p : A → Bool) (le : A → A → Bool) (xs : List A) → count_if p (sort_by le xs) ≡ count_if p xs
  unfolding sort_by
  count_if-sort_by p le [] = refl
  count_if-sort_by p le (x ∷ xs) =
      omega (arith, count_if-insert_by p le x (sort_by le xs), count_if-sort_by p le xs)

  pub count_if-map {κ} :
      {B : Type κ} (p : B → Bool) (f : A → B) (xs : List A)
      → count_if p (map f xs) ≡ count_if (λ x. p (f x)) xs
  count_if-map p f [] = refl
  count_if-map p f (x ∷ xs) = omega (arith, count_if-map p f xs)

module _ {ℓ} {A : Type ℓ} (f : A → ℕ) where
  abbrev pub sum_of : List A → ℕ
  sum_of [] = 0
  sum_of (x ∷ xs) = f x + sum_of xs

  pub sum_of-insert_by :
      (le : A → A → Bool) (a : A) (xs : List A) → sum_of (insert_by le a xs) ≡ f a + sum_of xs
  sum_of-insert_by le a [] = refl
  sum_of-insert_by le a (x ∷ xs) = ground (arith, sum_of-insert_by le a xs)

  pub sum_of-sort_by : (le : A → A → Bool) (xs : List A) → sum_of (sort_by le xs) ≡ sum_of xs
  unfolding sort_by
  sum_of-sort_by le [] = refl
  sum_of-sort_by le (x ∷ xs) =
      omega (arith, sum_of-insert_by le x (sort_by le xs), sum_of-sort_by le xs)

module _ {ℓ} {A : Type ℓ} where
  pub length-insert_by :
      (le : A → A → Bool) (a : A) (xs : List A) → length (insert_by le a xs) ≡ suc (length xs)
  length-insert_by le a [] = refl
  length-insert_by le a (x ∷ xs) = ground (arith, length-insert_by le a xs)

module _ {ℓ} {A : Type ℓ} where
  pub length-sort_by : (le : A → A → Bool) (xs : List A) → length (sort_by le xs) ≡ length xs
  unfolding sort_by
  length-sort_by le [] = refl
  length-sort_by le (x ∷ xs) =
      omega (arith, length-insert_by le x (sort_by le xs), length-sort_by le xs)
