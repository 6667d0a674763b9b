-- ===== src/Prelude/Apart.antt =====
-- Lists without two elements that clash, as a unique constraint of a table keeps them.
use agentic_analyst.Prelude.Tests.{Bool-cases}
use agentic_analyst.Prelude.Lists.{any}
use mathlib.Core.Path.{◌≡◌, refl}
use mathlib.Core.Logic.{inl, inr}
use mathlib.Core.Bool.{Bool, false}
use mathlib.Core.List.{List, [], ◌∷◌, ◌++◌}
use native.Mathlib.Omega.{arith}

module _ {ℓ} {A : Type ℓ} (clash : A → A → Bool) where
  abbrev pub Apart : List A → Type 0
  Apart [] = Unit
  Apart (x ∷ xs) = (any (clash x) xs ≡ false) × Apart xs

  any-snoc :
      (x a : A) (xs : List A)
      → any (clash x) xs ≡ false
      → clash x a ≡ false
      → any (clash x) (xs ++ a ∷ []) ≡ false
  any-snoc x a [] h c = rw c refl
  any-snoc x a (y ∷ xs) h c = elim (Bool-cases (clash x y)) [
    | inl hit ↦ ground arith
    | inr miss ↦ rw miss (any-snoc x a xs (rw miss at h) c)
  ]

  -- A row that clashes with none may be added.
  pub snoc-Apart :
      ((x y : A) → clash x y ≡ false → clash y x ≡ false)
      → (a : A) (xs : List A) → Apart xs
      → any (clash a) xs ≡ false
      → Apart (xs ++ a ∷ [])
  snoc-Apart clash_sym a [] u h = (refl, tt)
  snoc-Apart clash_sym a (x ∷ xs) u h = elim (Bool-cases (clash a x)) [
    | inl hit ↦ let h' = rw hit at h in cc
    | inr miss ↦
        (any-snoc x a xs u.0 (clash_sym a x miss), snoc-Apart clash_sym a xs u.1 (rw miss at h))
  ]
