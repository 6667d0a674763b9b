-- ===== src/Topics/Occurrences.antt =====
-- What `matches` finds: an occurrence of a keyword between two word boundaries.
use agentic_analyst.Prelude.{
  ℕ, ◌≡◌, refl, ap, Bool, true, false, not, ◌&&◌, [], ◌∷◌, ◌++◌, Text, arith, Bool-cases, inl, inr,
}
use agentic_analyst.Topics.Matcher.{is_word, starts_in_word, stands_at, search_from}

module _ (same : ℕ → ℕ → Bool) where
  -- The same length, and the same characters in each place.
  abbrev pub agrees : Text → Text → Bool
  agrees [] [] = true
  agrees (k ∷ keyword) (c ∷ s) = same k c && agrees keyword s
  agrees _ _ = false

  -- Whether a word character stands behind the text.
  abbrev pub ends_in_word : Bool → Text → Bool
  ends_in_word inside [] = inside
  ends_in_word inside (c ∷ s) = ends_in_word (is_word c) s

  -- The keyword occurs, with no word character before it and none behind it.
  abbrev pub OccursFrom : Text → Bool → Text → Type 0
  OccursFrom keyword inside s =
      (front : Text) × (middle : Text) × (back : Text) × (s ≡ front ++ (middle ++ back))
      × (agrees keyword middle ≡ true)
      × (ends_in_word inside front ≡ false)
      × (starts_in_word back ≡ false)

  stands_at-split :
      (keyword s : Text)
      → stands_at same keyword s ≡ true
      → (middle : Text) × (back : Text) × (s ≡ middle ++ back)
        × (agrees keyword middle ≡ true)
        × (starts_in_word back ≡ false)
  unfolding stands_at
  stands_at-split [] s h = ([], s, refl, refl, ground arith)
  stands_at-split (k ∷ keyword) [] h = cc
  stands_at-split (k ∷ keyword) (c ∷ s) h =
      let (middle, back, whole, agreed, free) = stands_at-split keyword s (ground arith) in
      (c ∷ middle, back, ap (λ t. c ∷ t) whole, ground arith, free)

  stands_at-join :
      (keyword middle back : Text)
      → agrees keyword middle ≡ true
      → starts_in_word back ≡ false
      → stands_at same keyword (middle ++ back) ≡ true
  unfolding stands_at
  stands_at-join [] [] back agreed free = rw free refl
  stands_at-join [] (c ∷ middle) back agreed free = cc
  stands_at-join (k ∷ keyword) [] back agreed free = cc
  stands_at-join (k ∷ keyword) (c ∷ middle) back agreed free =
      let rest = stands_at-join keyword middle back in ground arith

  pub search_from-OccursFrom :
      (keyword : Text) (inside : Bool) (s : Text)
      → search_from same keyword inside s ≡ true
      → OccursFrom keyword inside s
  unfolding search_from
  search_from-OccursFrom keyword inside [] h =
      let (middle, back, whole, agreed, free) = stands_at-split keyword [] (ground arith) in
      ([], middle, back, whole, agreed, ground arith, free)
  search_from-OccursFrom keyword inside (c ∷ s) h =
      elim (Bool-cases (not inside && stands_at same keyword (c ∷ s))) [
        | inl here ↦
            let (middle, back, whole, agreed, free) =
              stands_at-split keyword (c ∷ s) (ground arith) in
            ([], middle, back, whole, agreed, ground arith, free)
        | inr later ↦
            let (front, middle, back, whole, agreed, clear, free) =
              search_from-OccursFrom keyword (is_word c) s (rw later at h) in
            (c ∷ front, middle, back, ap (λ t. c ∷ t) whole, agreed, clear, free)
      ]

  pub search_from_complete :
      (keyword : Text) (inside : Bool) (front middle back : Text)
      → agrees keyword middle ≡ true
      → ends_in_word inside front ≡ false
      → starts_in_word back ≡ false
      → search_from same keyword inside (front ++ (middle ++ back)) ≡ true
  unfolding search_from
  search_from_complete keyword inside (c ∷ front) middle back agreed clear free =
      rw (search_from_complete keyword (is_word c) front middle back agreed clear free)
        (ground arith)
  search_from_complete keyword inside [] middle back agreed clear free =
      here (middle ++ back) (stands_at-join keyword middle back agreed free)
    where
      here : (s : Text) → stands_at same keyword s ≡ true → search_from same keyword inside s ≡ true
      here [] h = rw (clear, h) refl
      here (c ∷ s) h = rw (clear, h) refl
