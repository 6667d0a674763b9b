-- ===== src/Batching/Cohesion.antt =====
-- What holds a batch together: its size, its language, and the likeness to its first article.
use mathlib.Core.List.{Mem, mem-cons_self, mem-cons_of_mem}
use native.Mathlib.Decide.{dec_le}
use agentic_analyst.Prelude.{
  ℕ, zero, suc, ◌≤◌, ◌≡◌, refl, sym, ap, true, false, List, [], ◌∷◌, ◌++◌, Option, none, some, Text,
  text_eq_sound, length, leb, All, All-append, All-map, subst, All-sort_by, sort_by, arith,
  Bool-cases, inl, inr,
}
use agentic_analyst.Domain.Errors.{ok, Ensures, Ensures-chain, Ensures-ok}
use agentic_analyst.Domain.Articles.{Article, ArticleBatch, batch_allowed}
use agentic_analyst.Batching.Tokens.{Platform, title_tokens}
use agentic_analyst.Batching.Grouping.{
  Request, BatcherResult, start, Partition, language_eq, add_to_language, by_language, language_le,
  sort_key_le, similar, place, scan, batch_of, close_group, form_groups, each_language,
  batch_articles,
}
use agentic_analyst.Batching.Kept.{ids, scan_bounds}

All-self {ℓ} : {A : Type ℓ} (xs : List A) → All (λ a. Mem a xs) xs
All-self [] = tt
All-self (x ∷ xs) = (mem-cons_self, All-map (λ a m. mem-cons_of_mem x m) xs (All-self xs))

language_eq_sound : (k l : Option Text) → language_eq k l ≡ true → k ≡ l
language_eq_sound none none h = refl
language_eq_sound none (some t) h = cc
language_eq_sound (some s) none h = cc
language_eq_sound (some s) (some t) h = ap some (text_eq_sound s t h)

module _ (given : List Article) where
  -- An article of the language, among those that were given.
  abbrev Speaks : Option Text → Article → Type 0
  Speaks l a = (a.language ≡ l) × Mem a given

  abbrev IsPure : Partition → Type 0
  IsPure part = All (Speaks part.0) part.1

  add_to_language-IsPure :
      (a : Article) (dict : List Partition)
      → Mem a given
      → All IsPure dict
      → All IsPure (add_to_language a dict)
  unfolding add_to_language
  add_to_language-IsPure a [] m h = (((refl, m), tt), tt)
  add_to_language-IsPure a ((l, articles) ∷ rest) m h =
      elim (Bool-cases (language_eq l a.language)) [
        | inl same ↦ rw same (
          All-append (Speaks l) (a ∷ []) articles h.0
              ((sym (language_eq_sound l a.language same), m), tt),
          h.1,
        )
        | inr other ↦ rw other (h.0, add_to_language-IsPure a rest m h.1)
      ]

  by_language-IsPure :
      (dict : List Partition) (articles : List Article)
      → All (λ a. Mem a given) articles
      → All IsPure dict
      → All IsPure (by_language dict articles)
  unfolding by_language
  by_language-IsPure dict [] m h = h
  by_language-IsPure dict (a ∷ articles) m h =
      by_language-IsPure (add_to_language a dict) articles m.1 (add_to_language-IsPure a dict m.0 h)

module _ (p : Platform) (r : Request) (given : List Article) where
  -- The articles of a batch, all of them given ones: the seed, and those that passed the test
  -- against the seed.
  pub record IsCohesive (b : ArticleBatch) : Type 0 where
    pub seed : Article
    pub members : List Article
    pub listed : b.article_ids ≡ ids (seed ∷ members)
    pub alike :
        All
          (λ (a : Article).
            (a.language ≡ seed.language) × (similar p r (title_tokens p seed.title) a ≡ true))
          members
    pub among_given : All (λ a. Mem a given) (seed ∷ members)
    pub at_least_three : 3 ≤ length (seed ∷ members)
    pub at_most_five : length (seed ∷ members) ≤ 5

  module _ (seed : Article) where
    abbrev Fits : Article → Type 0
    Fits a = (a.language ≡ seed.language) × (similar p r (title_tokens p seed.title) a ≡ true)

    abbrev IsSeeded : List Article × List Article → Type 0
    IsSeeded (group, still) =
        (members : List Article) × (group ≡ seed ∷ members)
        × All Fits members
        × All (λ a. Mem a given) group
        × All (Speaks given seed.language) still

    place-IsSeeded :
        (a : Article) (state : List Article × List Article)
        → Speaks given seed.language a
        → IsSeeded state
        → IsSeeded (place p r (title_tokens p seed.title) a state)
    unfolding place
    place-IsSeeded a (group, still) l (members, e, fits, from, speaks) =
        let left = All-append (Speaks given seed.language) (a ∷ []) still speaks (l, tt) in
        elim (Bool-cases (leb 5 (length group))) [
          | inl full ↦ rw full (members, e, fits, from, left)
          | inr room ↦ elim (Bool-cases (similar p r (title_tokens p seed.title) a)) [
            | inl passed ↦
                rw (room, passed)
                  (
                    members ++ a ∷ [],
                    ap (λ (g : List Article). g ++ a ∷ []) e,
                    All-append Fits (a ∷ []) members fits ((l.0, passed), tt),
                    All-append (λ x. Mem x given) (a ∷ []) group from (l.1, tt),
                    speaks,
                  )
            | inr not_passed ↦ rw (room, not_passed) (members, e, fits, from, left)
          ]
        ]

    scan-IsSeeded :
        (cs : List Article) (state : List Article × List Article)
        → All (Speaks given seed.language) cs
        → IsSeeded state
        → IsSeeded (scan p r (title_tokens p seed.title) cs state)
    unfolding scan
    scan-IsSeeded [] state l h = h
    scan-IsSeeded (a ∷ cs) state l h =
        scan-IsSeeded cs (place p r (title_tokens p seed.title) a state) l.1
          (place-IsSeeded a state l.0 h)

  abbrev AllCohesive : BatcherResult → Type 0
  AllCohesive acc = All IsCohesive acc.batches

  close_group-IsCohesive :
      (seed : Article) (members group : List Article) (acc : BatcherResult)
      → group ≡ seed ∷ members
      → All (Fits seed) members
      → All (λ a. Mem a given) group
      → length group ≤ 5
      → AllCohesive acc
      → Ensures AllCohesive (close_group p r group acc)
  unfolding close_group batch_of
  close_group-IsCohesive seed members group acc e fits from high h =
      let b = batch_of p r (length acc.batches) group in
      elim (dec_le 3 (length group)) [
        | yes low ↦ elim (Bool-cases (batch_allowed b)) [
          | inl allowed ↦
              let new : IsCohesive b = record {
                seed = seed;
                members = members;
                listed = ap ids e;
                alike = fits;
                among_given = rw e at from;
                at_least_three = omega (arith, low, ap length e);
                at_most_five = omega (arith, high, ap length e);
              } in
              let long : leb 3 (length group) ≡ true = ground arith in
              rw (long, allowed) (All-append IsCohesive (b ∷ []) acc.batches h (new, tt))
          | inr refused ↦
              let long : leb 3 (length group) ≡ true = ground arith in rw (long, refused) tt
        ]
        | no low ↦ let short : leb 3 (length group) ≡ false = ground arith in rw short h
      ]

  form_groups-IsCohesive :
      (l : Option Text) (fuel : ℕ) (remaining : List Article) (acc : BatcherResult)
      → All (Speaks given l) remaining
      → AllCohesive acc
      → Ensures AllCohesive (form_groups p r fuel remaining acc)
  unfolding form_groups
  form_groups-IsCohesive l zero [] acc s h = h
  form_groups-IsCohesive l (suc fuel) [] acc s h = h
  form_groups-IsCohesive l zero (seed ∷ remaining) acc s h = h
  form_groups-IsCohesive l (suc fuel) (seed ∷ remaining) acc s h =
      let tokens = title_tokens p seed.title in
      let (group, still) = scan p r tokens remaining (seed ∷ [], []) in
      let sizes = scan_bounds p r tokens remaining (seed ∷ []) [] (omega arith) in
      let same = sym s.0.0 in
      let (members, e, fits, from, speaks) =
        scan-IsSeeded seed remaining (seed ∷ [], [])
          (subst (λ k. All (Speaks given k) remaining) same s.1) ([], refl, tt, (s.0.1, tt), tt) in
      Ensures-chain AllCohesive AllCohesive _ (close_group p r group acc)
        (λ acc1 h1. form_groups-IsCohesive seed.language fuel still acc1 speaks h1)
        (close_group-IsCohesive seed members group acc e fits from sizes.1 h)

  each_language-IsCohesive :
      (parts : List Partition) (acc : BatcherResult)
      → All (IsPure given) parts
      → AllCohesive acc
      → Ensures AllCohesive (each_language p r parts acc)
  unfolding each_language
  each_language-IsCohesive [] acc pure h = h
  each_language-IsCohesive ((l, articles) ∷ rest) acc pure h =
      let sorted = sort_by sort_key_le articles in
      Ensures-chain AllCohesive AllCohesive _ (form_groups p r (length articles) sorted acc)
        (λ acc1 h1. each_language-IsCohesive rest acc1 pure.1 h1)
        (form_groups-IsCohesive l (length articles) sorted acc
          (All-sort_by (Speaks given l) sort_key_le articles pure.0) h)

-- Every batch that the batcher returns lists the identifiers of three to five of the given
-- articles: a seed, and others of the seed's language whose titles reach the similarity threshold
-- against the seed's title.
pub batch_articles-IsCohesive :
    (p : Platform) (r : Request) (articles : List Article) (result : BatcherResult)
    → batch_articles p r articles ≡ ok result
    → All (IsCohesive p r articles) result.batches
unfolding batch_articles
batch_articles-IsCohesive p r articles result e =
    let le = λ (x y : Partition). language_le x.0 y.0 in
    Ensures-ok (AllCohesive p r articles) _
      (each_language-IsCohesive p r articles (sort_by le (by_language [] articles)) start
        (All-sort_by (IsPure articles) le (by_language [] articles)
          (by_language-IsPure articles [] articles (All-self articles) tt))
        tt)
      e
