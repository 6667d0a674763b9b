-- ===== src/Prelude/Sorting.antt =====
-- What `sort_by` and `select` promise together: an ordered list of exactly what passes the test.
use agentic_analyst.Prelude.Tests.{Bool-cases}
use agentic_analyst.Prelude.Lists.{insert_by, sort_by, select, All, All-map, All-insert_by}
use agentic_analyst.Prelude.Counting.{count_if, count_if-sort_by}
use mathlib.Core.Path.{◌≡◌, refl, ◌∙◌}
use mathlib.Core.Logic.{inl, inr}
use mathlib.Core.Bool.{Bool, true, false, ◌&&◌}
use mathlib.Core.List.{List, [], ◌∷◌}
use native.Mathlib.Omega.{arith}

module _ {ℓ} {A : Type ℓ} (le : A → A → Bool) where
  -- Every element stands before those that it is no greater than.
  abbrev pub IsSorted : List A → Type 0
  IsSorted [] = Unit
  IsSorted (x ∷ xs) = All (λ y. le x y ≡ true) xs × IsSorted xs

  pub record IsOrder : Type ℓ where
    pub total : (a b : A) → le a b ≡ false → le b a ≡ true
    pub trans : (a b c : A) → le a b ≡ true → le b c ≡ true → le a c ≡ true

module _ {ℓ} {A : Type ℓ} (le : A → A → Bool) (order : IsOrder le) where
  insert_by-IsSorted : (a : A) (xs : List A) → IsSorted le xs → IsSorted le (insert_by le a xs)
  insert_by-IsSorted a [] h = (tt, tt)
  insert_by-IsSorted a (x ∷ xs) h = elim (Bool-cases (le a x)) [
    | inl before ↦
        rw before ((before, All-map (λ y after. order.trans a x y before after) xs h.0), h)
    | inr behind ↦ rw behind (
      All-insert_by (λ y. le x y ≡ true) le a xs (order.total a x behind) h.0,
      insert_by-IsSorted a xs h.1,
    )
  ]

  pub sort_by-IsSorted : (xs : List A) → IsSorted le (sort_by le xs)
  unfolding sort_by
  sort_by-IsSorted [] = tt
  sort_by-IsSorted (x ∷ xs) = insert_by-IsSorted x (sort_by le xs) (sort_by-IsSorted xs)

module _ {ℓ} {A : Type ℓ} where
  pub count_if-select :
      (p test : A → Bool) (xs : List A)
      → count_if p (select test xs) ≡ count_if (λ x. test x && p x) xs
  count_if-select p test [] = refl
  count_if-select p test (x ∷ xs) = elim (Bool-cases (test x)) [
    | inl passed ↦ rw (passed, count_if-select p test xs) refl
    | inr refused ↦ rw (refused, count_if-select p test xs) (omega arith)
  ]

module _ {ℓ} {A : Type ℓ} (le : A → A → Bool) (test : A → Bool) (rows : List A) where
  -- `select(...).where(test).order_by(le)` of the rows: ordered, and exactly the rows that pass,
  -- each as often as it stands in the table.
  abbrev pub Answers : List A → Type ℓ
  Answers out =
      IsSorted le out × ((p : A → Bool) → count_if p out ≡ count_if (λ x. test x && p x) rows)

  pub sort_by-Answers : IsOrder le → Answers (sort_by le (select test rows))
  sort_by-Answers order = (
    sort_by-IsSorted le order (select test rows),
    λ p. count_if-sort_by p le (select test rows) ∙ count_if-select p test rows,
  )
