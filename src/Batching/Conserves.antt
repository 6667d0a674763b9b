-- ===== src/Batching/Conserves.antt =====
-- Every article that is given ends in exactly one batch or is carried forward.
use agentic_analyst.Prelude.{
  ℕ, zero, suc, ◌+◌, ◌≤◌, ◌≡◌, Bool, List, [], ◌∷◌, ◌++◌, length, sort_by, arith, ◌==◌,
}
use agentic_analyst.Prelude.Counting.{
  count_if, count_if-append, count_if-map, count_if-sort_by, sum_of, sum_of-sort_by, length-sort_by,
}
use agentic_analyst.Domain.Values.{Uuid}
use agentic_analyst.Domain.Errors.{ok, chain-eq-ok}
use agentic_analyst.Domain.Articles.{Article}
use agentic_analyst.Batching.Tokens.{Platform, title_tokens}
use agentic_analyst.Batching.Grouping.{
  Request, BatcherResult, start, Partition, add_to_language, by_language, language_le, sort_key_le,
  scan, close_group, form_groups, each_language, batch_articles,
}
use agentic_analyst.Batching.Kept.{ids, accounted, scan_count, scan_bounds, close_group_count}

module _ (q : Uuid → Bool) where
  abbrev pub weight : Partition → ℕ
  weight part = count_if q (ids part.1)

  add_to_language_count :
      (a : Article) (dict : List Partition)
      → sum_of weight (add_to_language a dict) ≡ count_if q (a.id ∷ []) + sum_of weight dict
  unfolding add_to_language
  add_to_language_count a [] = omega arith
  add_to_language_count a ((l, articles) ∷ rest) = ground (
    arith,
    count_if-map q (λ (x : Article). x.id) articles,
    count_if-map q (λ (x : Article). x.id) (articles ++ a ∷ []),
    count_if-append (λ (x : Article). q x.id) articles (a ∷ []),
    add_to_language_count a rest,
  )

  pub by_language_count :
      (dict : List Partition) (articles : List Article)
      → sum_of weight (by_language dict articles) ≡ count_if q (ids articles) + sum_of weight dict
  unfolding by_language
  by_language_count dict [] = omega arith
  by_language_count dict (a ∷ articles) =
      omega
        (arith, by_language_count (add_to_language a dict) articles, add_to_language_count a dict)

  pub sorted_count :
      (le : Article → Article → Bool) (articles : List Article)
      → count_if q (ids (sort_by le articles)) ≡ count_if q (ids articles)
  sorted_count le articles = omega (
    arith,
    count_if-map q (λ (x : Article). x.id) articles,
    count_if-map q (λ (x : Article). x.id) (sort_by le articles),
    count_if-sort_by (λ (x : Article). q x.id) le articles,
  )

  module _ (p : Platform) (r : Request) where
    pub group_count :
        (seed : Article) (remaining : List Article)
        → let (group, still) = scan p r (title_tokens p seed.title) remaining (seed ∷ [], []) in
          count_if q (ids group) + count_if q (ids still) ≡ count_if q (ids (seed ∷ remaining))
    group_count seed remaining =
        let (group, still) = scan p r (title_tokens p seed.title) remaining (seed ∷ [], []) in
        omega (
          arith,
          count_if-map q (λ (x : Article). x.id) group,
          count_if-map q (λ (x : Article). x.id) still,
          count_if-map q (λ (x : Article). x.id) (seed ∷ remaining),
          scan_count p r (λ (x : Article). q x.id) (title_tokens p seed.title) remaining (seed ∷ [])
              [],
        )

    form_groups_count :
        (fuel : ℕ) (remaining : List Article) (acc : BatcherResult) {acc' : BatcherResult}
        → length remaining ≤ fuel
        → form_groups p r fuel remaining acc ≡ ok acc'
        → count_if q (accounted acc') ≡ count_if q (accounted acc) + count_if q (ids remaining)
    unfolding form_groups
    form_groups_count zero [] acc h e = ground arith
    form_groups_count (suc fuel) [] acc h e = ground arith
    form_groups_count zero (seed ∷ remaining) acc h e = absurd (omega arith)
    form_groups_count (suc fuel) (seed ∷ remaining) acc h e =
        let tokens = title_tokens p seed.title in
        let (group, still) = scan p r tokens remaining (seed ∷ [], []) in
        let (acc1, e1, e2) =
          chain-eq-ok (form_groups p r fuel still) (close_group p r group acc) e in
        let sizes = scan_bounds p r tokens remaining (seed ∷ []) [] (omega arith) in
        omega (
          arith,
          close_group_count p r q group acc acc1 e1,
          group_count seed remaining,
          form_groups_count fuel still acc1 (omega (arith, sizes)) e2,
        )

    each_language_count :
        (parts : List Partition) (acc : BatcherResult) {acc' : BatcherResult}
        → each_language p r parts acc ≡ ok acc'
        → count_if q (accounted acc') ≡ count_if q (accounted acc) + sum_of weight parts
    unfolding each_language
    each_language_count [] acc e = ground arith
    each_language_count ((l, articles) ∷ rest) acc e =
        let sorted = sort_by sort_key_le articles in
        let (acc1, e1, e2) =
          chain-eq-ok (each_language p r rest) (form_groups p r (length articles) sorted acc) e in
        omega (
          arith,
          form_groups_count (length articles) sorted acc
              (omega (arith, length-sort_by sort_key_le articles)) e1,
          sorted_count sort_key_le articles,
          each_language_count rest acc1 e2,
        )

-- When the batcher returns, every identifier stands in the batches and among the carried-forward
-- ones, taken together, exactly as often as among the given articles: none is lost, added or
-- repeated.
pub batch_articles_conserves :
    (p : Platform) (r : Request) (articles : List Article) (result : BatcherResult) (id : Uuid)
    → batch_articles p r articles ≡ ok result
    → count_if (λ x. id == x) (accounted result) ≡ count_if (λ x. id == x) (ids articles)
unfolding batch_articles
batch_articles_conserves p r articles result id e =
    let q = λ (x : Uuid). id == x in
    let le = λ (x y : Partition). language_le x.0 y.0 in
    omega (
      arith,
      each_language_count q p r (sort_by le (by_language [] articles)) start e,
      sum_of-sort_by (weight q) le (by_language [] articles),
      by_language_count q [] articles,
    )
