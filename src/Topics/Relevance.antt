-- ===== src/Topics/Relevance.antt =====
-- `matches` accepts exactly the fields in which a keyword occurs.
use agentic_analyst.Prelude.{
  ℕ, ◌≡◌, refl, Bool, true, false, not, ◌&&◌, ◌||◌, List, [], ◌∷◌, Option, none, some, Text, any,
  ◌↔◌, Exists, arith, Bool-cases, inl, inr,
}
use agentic_analyst.Domain.Values.{is_empty}
use agentic_analyst.Topics.Matcher.{texts_of, search_from, any_match, matches}
use agentic_analyst.Topics.Occurrences.{OccursFrom, search_from-OccursFrom, search_from_complete}

module _ (same : ℕ → ℕ → Bool) where
  -- A keyword that is not empty occurs in a field that is there.
  abbrev pub OccursIn : Text → Option Text → Type 0
  OccursIn keyword none = ⊥
  OccursIn [] (some text) = ⊥
  OccursIn (k ∷ keyword) (some text) = OccursFrom same (k ∷ keyword) false text

  any-OccursIn :
      (k : ℕ) (keyword : Text) (fields : List (Option Text))
      → any (search_from same (k ∷ keyword) false) (texts_of fields) ≡ true
      → Exists (OccursIn (k ∷ keyword)) fields
  any-OccursIn k keyword [] h = cc
  any-OccursIn k keyword (none ∷ fields) h = inr (any-OccursIn k keyword fields h)
  any-OccursIn k keyword (some [] ∷ fields) h = inr (any-OccursIn k keyword fields h)
  any-OccursIn k keyword (some (c ∷ s) ∷ fields) h =
      elim (Bool-cases (search_from same (k ∷ keyword) false (c ∷ s))) [
        | inl hit ↦ inl (search_from-OccursFrom same (k ∷ keyword) false (c ∷ s) hit)
        | inr miss ↦ inr (any-OccursIn k keyword fields (rw miss at h))
      ]

  -- No keyword occurs in the empty text.
  OccursFrom-empty : (k : ℕ) (keyword : Text) → OccursFrom same (k ∷ keyword) false [] → ⊥
  OccursFrom-empty k keyword ([], [], back, whole, agreed, clear, free) = cc
  OccursFrom-empty k keyword ([], c ∷ middle, back, whole, agreed, clear, free) = cc
  OccursFrom-empty k keyword (c ∷ front, middle, back, whole, agreed, clear, free) = cc

  OccursIn-any :
      (k : ℕ) (keyword : Text) (fields : List (Option Text))
      → Exists (OccursIn (k ∷ keyword)) fields
      → any (search_from same (k ∷ keyword) false) (texts_of fields) ≡ true
  OccursIn-any k keyword [] h = absurd h
  OccursIn-any k keyword (none ∷ fields) (inl h) = absurd h
  OccursIn-any k keyword (none ∷ fields) (inr h) = OccursIn-any k keyword fields h
  OccursIn-any k keyword (some [] ∷ fields) (inl h) = absurd (OccursFrom-empty k keyword h)
  OccursIn-any k keyword (some [] ∷ fields) (inr h) = OccursIn-any k keyword fields h
  OccursIn-any k keyword (some (c ∷ s) ∷ fields) (inl h) =
      let (front, middle, back, whole, agreed, clear, free) = h in
      rw (whole, search_from_complete same (k ∷ keyword) false front middle back agreed clear free)
        refl
  OccursIn-any k keyword (some (c ∷ s) ∷ fields) (inr h) =
      let rest = OccursIn-any k keyword fields h in ground arith

  any_match-Exists :
      (keywords : List Text) (fields : List (Option Text))
      → any_match same keywords (texts_of fields) ≡ true
      → Exists (λ keyword. Exists (OccursIn keyword) fields) keywords
  any_match-Exists [] fields h = cc
  any_match-Exists ([] ∷ keywords) fields h = inr (any_match-Exists keywords fields h)
  any_match-Exists ((k ∷ keyword) ∷ keywords) fields h =
      elim (Bool-cases (any (search_from same (k ∷ keyword) false) (texts_of fields))) [
        | inl hit ↦ inl (any-OccursIn k keyword fields hit)
        | inr miss ↦ inr (any_match-Exists keywords fields (rw miss at h))
      ]

  OccursIn-empty : (fields : List (Option Text)) → Exists (OccursIn []) fields → ⊥
  OccursIn-empty [] h = h
  OccursIn-empty (none ∷ fields) (inl h) = h
  OccursIn-empty (some text ∷ fields) (inl h) = h
  OccursIn-empty (none ∷ fields) (inr h) = OccursIn-empty fields h
  OccursIn-empty (some text ∷ fields) (inr h) = OccursIn-empty fields h

  any_match_complete :
      (keywords : List Text) (fields : List (Option Text))
      → Exists (λ keyword. Exists (OccursIn keyword) fields) keywords
      → any_match same keywords (texts_of fields) ≡ true
  any_match_complete [] fields h = absurd h
  any_match_complete ([] ∷ keywords) fields (inl h) = absurd (OccursIn-empty fields h)
  any_match_complete ([] ∷ keywords) fields (inr h) = any_match_complete keywords fields h
  any_match_complete ((k ∷ keyword) ∷ keywords) fields (inl h) =
      rw (OccursIn-any k keyword fields h) refl
  any_match_complete ((k ∷ keyword) ∷ keywords) fields (inr h) =
      let rest = any_match_complete keywords fields h in ground arith

  -- The early return for missing texts or keywords changes nothing.
  no_texts : (keywords : List Text) → any_match same keywords [] ≡ false
  no_texts [] = refl
  no_texts ([] ∷ keywords) = no_texts keywords
  no_texts ((k ∷ keyword) ∷ keywords) = no_texts keywords

  matches_eq :
      (keywords : List Text) (texts : List Text)
      → (not (is_empty texts || is_empty keywords) && any_match same keywords texts)
        ≡ any_match same keywords texts
  matches_eq keywords [] = rw (no_texts keywords) refl
  matches_eq [] (t ∷ texts) = refl
  matches_eq (keyword ∷ keywords) (t ∷ texts) = refl

-- `matches` is true exactly if one of the keywords, which is not empty, occurs in one of the fields
-- that are there: character by character the same up to `same`, with no character of the word class
-- before it and none behind it.
pub matches_iff :
    (same : ℕ → ℕ → Bool) (keywords : List Text) (fields : List (Option Text))
    → (matches same keywords fields ≡ true)
      ↔ Exists (λ keyword. Exists (OccursIn same keyword) fields) keywords
unfolding matches
matches_iff same keywords fields =
    rw (matches_eq same keywords (texts_of fields))
      (any_match-Exists same keywords fields, any_match_complete same keywords fields)
