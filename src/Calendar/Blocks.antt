-- ===== src/Calendar/Blocks.antt =====
-- Days laid out in blocks, such as years or months: the block of a day and the day in its block.
use agentic_analyst.Prelude.{
  ℕ, zero, suc, ◌+◌, ◌-◌, ◌≤◌, ◌<◌, ◌≡◌, refl, ltb, Bool-cases, inl, inr, arith, if◌then◌else◌,
}

module _ (len : ℕ → ℕ) where
  -- The days in front of block `k`.
  unfoldable pub start : ℕ → ℕ
  start zero = 0
  start (suc k) = start k + len k

  -- The block, at or behind block `k`, of the day that is `n` days behind the start of block `k`.
  unfoldable pub locate : ℕ → ℕ → ℕ → ℕ × ℕ
  locate zero k n = (k, n)
  locate (suc fuel) k n =
      let rest = locate fuel (suc k) (n - len k) in if ltb n (len k) then (k, n) else rest

  -- A later block starts behind the end of an earlier one.
  pub start-lt : (j k : ℕ) → j < k → start j + len j ≤ start k
  unfolding start
  start-lt j zero h = absurd (omega arith)
  start-lt j (suc k) h = elim (Bool-cases (ltb j k)) [
    | inl before ↦ let earlier = start-lt j k (ground arith) in omega arith
    | inr last ↦ let same : j ≡ k = ground arith in rw same (omega arith)
  ]

  -- A day has one place.
  pub place_unique :
      (j k m n : ℕ) → m < len j → n < len k → start j + m ≡ start k + n → (j ≡ k) × (m ≡ n)
  place_unique j k m n hm hn same = elim (Bool-cases (ltb j k)) [
    | inl before ↦ let ends = start-lt j k (ground arith) in absurd (omega arith)
    | inr not_before ↦ elim (Bool-cases (ltb k j)) [
      | inl behind ↦ let ends = start-lt k j (ground arith) in absurd (omega arith)
      | inr not_behind ↦
          let e : j ≡ k = ground arith in (e, let same' = rw e at same in omega arith)
    ]
  ]

  -- With no empty block and enough fuel, the place that is found is the day's.
  pub locate_lem :
      (fuel k n : ℕ)
      → ((i : ℕ) → 0 < len i)
      → n < fuel
      → (start (locate fuel k n).0 + (locate fuel k n).1 ≡ start k + n)
        × ((locate fuel k n).1 < len (locate fuel k n).0)
  unfolding locate start
  locate_lem zero k n filled h = absurd (omega arith)
  locate_lem (suc fuel) k n filled h = elim (Bool-cases (ltb n (len k))) [
    | inl here ↦ rw here (refl, ground arith)
    | inr later ↦
        let some_day = filled k in
        let (found, inside) = locate_lem fuel (suc k) (n - len k) filled (ground arith) in
        rw later (ground arith, inside)
  ]
