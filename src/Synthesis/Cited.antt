-- ===== src/Synthesis/Cited.antt =====
-- What `cited_articles` keeps: each cited article, once.
use agentic_analyst.Prelude.{
  ◌≡◌, refl, ◌∙◌, Bool, false, not, ◌&&◌, ◌||◌, List, [], ◌∷◌, ◌++◌, select, any, map, concat,
  arith, ◌==◌, Bool-cases, inl, inr,
}
use agentic_analyst.Prelude.Apart.{Apart}
use agentic_analyst.Domain.Values.{Uuid}
use agentic_analyst.Domain.Articles.{Citation, BatchSummary}
use agentic_analyst.Synthesis.Frontier.{unique_first, cited_articles}

module _ {A : Type 0} (p : A → Bool) where
  any-append : (xs ys : List A) → any p (xs ++ ys) ≡ (any p xs || any p ys)
  any-append [] ys = refl
  any-append (x ∷ xs) ys = let rest = any-append xs ys in ground arith

  any-map : {B : Type 0} (f : B → A) (ys : List B) → any p (map f ys) ≡ any (λ y. p (f y)) ys
  any-map f [] = refl
  any-map f (y ∷ ys) = rw (any-map f ys) refl

  any-concat : (xss : List (List A)) → any p (concat xss) ≡ any (any p) xss
  any-concat [] = refl
  any-concat (xs ∷ xss) = any-append xs (concat xss) ∙ rw (any-concat xss) refl

  any-select : (test : A → Bool) (xs : List A) → any p xs ≡ false → any p (select test xs) ≡ false
  any-select test [] h = refl
  any-select test (x ∷ xs) h =
      let rest = any-select test xs (ground arith) in
      elim (Bool-cases (test x)) [ inl kept ↦ rw kept (ground arith) | inr left ↦ rw left rest ]

abbrev is_other : Uuid → Uuid → Bool
is_other x y = not (y == x)

any-select_other :
    (i x : Uuid) (xs : List Uuid)
    → any (λ a. a == i) (select (is_other x) xs) ≡ (any (λ a. a == i) xs && not (i == x))
any-select_other i x [] = refl
any-select_other i x (y ∷ xs) =
    let rest = any-select_other i x xs in
    elim (Bool-cases (y == x)) [
      | inl same ↦ rw same (ground arith)
      | inr other ↦ rw other (ground arith)
    ]

any-unique_first :
    (i : Uuid) (xs : List Uuid) → any (λ a. a == i) (unique_first xs) ≡ any (λ a. a == i) xs
unfolding unique_first
any-unique_first i [] = refl
any-unique_first i (x ∷ xs) =
    let rest = any-unique_first i xs in
    let others = any-select_other i x (unique_first xs) in ground arith

none_left : (x : Uuid) (xs : List Uuid) → any (λ y. x == y) (select (is_other x) xs) ≡ false
none_left x [] = refl
none_left x (y ∷ xs) =
    let rest = none_left x xs in
    elim (Bool-cases (y == x)) [ inl same ↦ rw same rest | inr other ↦ rw other (ground arith) ]

Apart-select :
    (test : Uuid → Bool) (xs : List Uuid)
    → Apart (λ x y. x == y) xs
    → Apart (λ x y. x == y) (select test xs)
Apart-select test [] h = tt
Apart-select test (x ∷ xs) h = elim (Bool-cases (test x)) [
  | inl kept ↦ rw kept (any-select (λ y. x == y) test xs h.0, Apart-select test xs h.1)
  | inr left ↦ rw left (Apart-select test xs h.1)
]

unique_first-Apart : (xs : List Uuid) → Apart (λ x y. x == y) (unique_first xs)
unfolding unique_first
unique_first-Apart [] = tt
unique_first-Apart (x ∷ xs) = (
  none_left x (unique_first xs),
  Apart-select (is_other x) (unique_first xs) (unique_first-Apart xs),
)

-- A summary of the list has a citation of this article.
abbrev pub is_cited : Uuid → List BatchSummary → Bool
is_cited i summaries =
    any (λ (s : BatchSummary). any (λ (c : Citation). c.article_id == i) s.citations) summaries

-- The citations of a summary, by the articles.
abbrev cited_in : BatchSummary → List Uuid
cited_in s = map (λ (c : Citation). c.article_id) s.citations

any-cited_in :
    (i : Uuid) (summaries : List BatchSummary)
    → any (any (λ a. a == i)) (map cited_in summaries) ≡ is_cited i summaries
any-cited_in i [] = refl
any-cited_in i (s ∷ summaries) =
    rw
      (any-map (λ a. a == i) (λ (c : Citation). c.article_id) s.citations, any-cited_in i summaries)
      refl

pub any-cited_articles :
    (i : Uuid) (summaries : List BatchSummary)
    → any (λ a. a == i) (cited_articles summaries) ≡ is_cited i summaries
unfolding cited_articles
any-cited_articles i summaries =
    any-unique_first i (concat (map cited_in summaries))
    ∙ (any-concat (λ a. a == i) (map cited_in summaries) ∙ any-cited_in i summaries)

pub cited_articles-Apart :
    (summaries : List BatchSummary) → Apart (λ x y. x == y) (cited_articles summaries)
unfolding cited_articles
cited_articles-Apart summaries = unique_first-Apart (concat (map cited_in summaries))
