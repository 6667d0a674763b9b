-- ===== src/Prelude/Reflection.antt =====
-- Boolean tests that hold exactly where a predicate does, and queries that are described by one.
use Prim.Native.Nat.{ℕ, ◌≤◌, ◌<◌}
use agentic_analyst.Prelude.Tests.{ltb, leb, Bool-cases}
use agentic_analyst.Prelude.Lists.{any, Exists, select, sort_by}
use agentic_analyst.Prelude.Sorting.{IsOrder, Answers, sort_by-Answers}
use mathlib.Core.Path.{◌≡◌, refl}
use mathlib.Core.Logic.{◌↔◌, inl, inr}
use mathlib.Core.Bool.{Bool, true, false, ◌&&◌, ◌||◌}
use mathlib.Core.List.{List, [], ◌∷◌}
use native.Mathlib.Omega.{arith}

pub leb_iff : (m n : ℕ) → (leb m n ≡ true) ↔ (m ≤ n)
leb_iff m n = (λ h. ground arith, λ h. ground arith)

pub ltb_iff : (m n : ℕ) → (ltb m n ≡ true) ↔ (m < n)
ltb_iff m n = (λ h. ground arith, λ h. ground arith)

pub &&_iff :
    {P Q : Type 0} (a b : Bool) → (a ≡ true) ↔ P → (b ≡ true) ↔ Q → (a && b ≡ true) ↔ (P × Q)
&&_iff {P} {Q} true b f g = (λ h. (f.0 refl, g.0 h), λ h. g.1 h.1)
&&_iff {P} {Q} false b f g = (λ h. cc, λ h. f.1 h.0)

pub any_iff {ℓ} :
    {A : Type ℓ} {P : A → Type 0} (test : A → Bool)
    → ((x : A) → (test x ≡ true) ↔ P x)
    → (xs : List A) → (any test xs ≡ true) ↔ Exists P xs
any_iff test exact [] = (λ h. cc, λ h. absurd h)
any_iff {P} test exact (x ∷ xs) = (there (any_iff test exact xs), back (any_iff test exact xs))
  where
    there : (any test xs ≡ true) ↔ Exists P xs → (test x || any test xs) ≡ true → Exists P (x ∷ xs)
    there others h = elim (Bool-cases (test x)) [
      | inl hit ↦ inl ((exact x).0 hit)
      | inr miss ↦ inr (others.0 (rw miss at h))
    ]

    back : (any test xs ≡ true) ↔ Exists P xs → Exists P (x ∷ xs) → (test x || any test xs) ≡ true
    back others (inl h) = rw ((exact x).1 h) refl
    back others (inr h) = let rest = others.1 h in ground arith

module _ {ℓ} {A : Type ℓ} (le : A → A → Bool) (P : A → Type 0) (rows : List A) where
  -- The rows of which the predicate holds, each as often as it stands in the table, in order.
  pub record Lists (out : List A) : Type ℓ where
    pub test : A → Bool
    pub exact : (x : A) → (test x ≡ true) ↔ P x
    pub answers : Answers le test rows out

  pub sort_by-Lists :
      (test : A → Bool)
      → ((x : A) → (test x ≡ true) ↔ P x)
      → IsOrder le
      → Lists (sort_by le (select test rows))
  sort_by-Lists test exact order = record {
    test = test;
    exact = exact;
    answers = sort_by-Answers le test rows order;
  }
