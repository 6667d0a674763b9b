-- ===== src/Summaries/Texts.antt =====
-- `_normalize_whitespace` of summarization/summarizer.py, and `in` on str.
use agentic_analyst.Prelude.{
  ◌≡◌, refl, ap, Bool, true, false, ◌&&◌, ◌||◌, [], ◌∷◌, ◌++◌, Text, ◌==◌, Bool-cases, inl, inr,
  if◌then◌else◌, arith, ==_iff,
}
use agentic_analyst.Domain.Values.{is_space, strip}

-- `re.compile(r"\s+").sub(" ", text)`, where `inside` says that a space has just been written.
unfoldable pub collapse : Bool → Text → Text
collapse inside [] = []
collapse inside (c ∷ s) =
    let rest = collapse (is_space c) s in
    if is_space c then (if inside then rest else b' ' ∷ rest) else c ∷ rest

unfoldable pub normalize_whitespace : Text → Text
normalize_whitespace text = strip (collapse false text)

abbrev pub is_prefix : Text → Text → Bool
is_prefix [] s = true
is_prefix (k ∷ t) [] = false
is_prefix (k ∷ t) (c ∷ s) = k == c && is_prefix t s

-- `needle in text`
unfoldable pub contains : Text → Text → Bool
contains needle [] = is_prefix needle []
contains needle (c ∷ s) = is_prefix needle (c ∷ s) || contains needle s

is_prefix-split :
    (needle s : Text) → is_prefix needle s ≡ true → (back : Text) × (s ≡ needle ++ back)
is_prefix-split [] s h = (s, refl)
is_prefix-split (k ∷ t) [] h = cc
is_prefix-split (k ∷ t) (c ∷ s) h =
    let (back, whole) = is_prefix-split t s (ground arith) in
    let first = (==_iff k c).0 (ground arith) in (back, cc)

-- What `in` finds is a part of the text.
pub contains-split :
    (needle s : Text)
    → contains needle s ≡ true
    → (front : Text) × (back : Text) × (s ≡ front ++ (needle ++ back))
unfolding contains
contains-split needle [] h = let (back, whole) = is_prefix-split needle [] h in ([], back, whole)
contains-split needle (c ∷ s) h = elim (Bool-cases (is_prefix needle (c ∷ s))) [
  | inl here ↦ let (back, whole) = is_prefix-split needle (c ∷ s) here in ([], back, whole)
  | inr later ↦
      let (front, back, whole) = contains-split needle s (rw later at h) in
      (c ∷ front, back, ap (λ t. c ∷ t) whole)
]
