-- ===== src/Batching/Totality.antt =====
-- The batcher builds no batch that the validators of ArticleBatch refuse.
use agentic_analyst.Prelude.{
  ℕ, zero, suc, ◌≤◌, ◌≡◌, refl, Bool, true, false, List, [], ◌∷◌, ◌++◌, length, any, sort_by, arith,
  ◌==◌,
}
use native.Mathlib.Decide.{dec_le}
use agentic_analyst.Prelude.Counting.{count_if, sum_of, sum_of-sort_by}
use agentic_analyst.Domain.Values.{Uuid, is_blank}
use agentic_analyst.Domain.Errors.{ok}
use agentic_analyst.Domain.Articles.{Article, distinct, ordered_unique, batch_allowed}
use agentic_analyst.Batching.Tokens.{Platform, DigestsArePrinted, title_tokens}
use agentic_analyst.Batching.Grouping.{
  Request, BatcherResult, start, Partition, by_language, language_le, sort_key_le, scan, batch_of,
  close_group, form_groups, each_language, batch_articles,
}
use agentic_analyst.Batching.Kept.{ids, scan_bounds}
use agentic_analyst.Batching.Conserves.{weight, by_language_count, sorted_count, group_count}

-- No identifier stands in the list twice.
abbrev pub AreDistinct : List Uuid → Type 0
AreDistinct v = (id : Uuid) → count_if (λ x. id == x) v ≤ 1

any_of_count : (q : Uuid → Bool) (v : List Uuid) → count_if q v ≤ 0 → any q v ≡ false
any_of_count q [] h = refl
any_of_count q (x ∷ v) h = ground (arith, any_of_count q v)

distinct_same : (v : List Uuid) → AreDistinct v → distinct v ≡ v
unfolding distinct
distinct_same [] h = refl
distinct_same (x ∷ v) h =
    ground (arith, h x, any_of_count (λ y. x == y) v, distinct_same v (λ i. omega (arith, h i)))

pub ordered_unique_of_distinct : (v : List Uuid) → AreDistinct v → ordered_unique v ≡ true
unfolding ordered_unique
ordered_unique_of_distinct v h = rw (distinct_same v h) (ground arith)

length-ids : (articles : List Article) → length (ids articles) ≡ length articles
length-ids [] = refl
length-ids (a ∷ articles) = omega (arith, length-ids articles)

module _ (p : Platform) (r : Request) (digests : DigestsArePrinted p) where
  batch_key_printed :
      (n : ℕ) (group : List Article) → is_blank (batch_of p r n group).batch_key ≡ false
  unfolding batch_of
  batch_key_printed n group = digests _

  batch_of-ids : (n : ℕ) (group : List Article) → (batch_of p r n group).article_ids ≡ ids group
  unfolding batch_of
  batch_of-ids n group = refl

  batch_of_allowed :
      (n : ℕ) (group : List Article)
      → 3 ≤ length group
      → length group ≤ 5
      → AreDistinct (ids group)
      → batch_allowed (batch_of p r n group) ≡ true
  unfolding batch_allowed
  batch_of_allowed n group low high d =
      rw (batch_of-ids n group, ordered_unique_of_distinct (ids group) d, batch_key_printed n group)
        (ground (arith, length-ids group))

  close_group_total :
      (group : List Article) (acc : BatcherResult)
      → length group ≤ 5
      → AreDistinct (ids group)
      → (acc' : BatcherResult) × (close_group p r group acc ≡ ok acc')
  unfolding close_group
  close_group_total group acc h d = elim (dec_le 3 (length group)) [
    | yes low ↦ (
      record acc { batches = acc.batches ++ batch_of p r (length acc.batches) group ∷ [] },
      ground (arith, batch_of_allowed (length acc.batches) group low h d),
    )
    | no short ↦
        (record acc { carried_forward_ids = acc.carried_forward_ids ++ ids group }, ground arith)
  ]

  form_groups_total :
      (fuel : ℕ) (remaining : List Article) (acc : BatcherResult)
      → AreDistinct (ids remaining)
      → (acc' : BatcherResult) × (form_groups p r fuel remaining acc ≡ ok acc')
  unfolding form_groups
  form_groups_total zero [] acc d = (acc, refl)
  form_groups_total (suc fuel) [] acc d = (acc, refl)
  form_groups_total zero (seed ∷ remaining) acc d = (acc, refl)
  form_groups_total (suc fuel) (seed ∷ remaining) acc d =
      let tokens = title_tokens p seed.title in
      let (group, still) = scan p r tokens remaining (seed ∷ [], []) in
      let sizes = scan_bounds p r tokens remaining (seed ∷ []) [] (omega arith) in
      let (acc1, e1) =
        close_group_total group acc sizes.1
          (λ i. omega (arith, d i, group_count (λ x. i == x) p r seed remaining)) in
      let (acc2, e2) =
        form_groups_total fuel still acc1
          (λ i. omega (arith, d i, group_count (λ x. i == x) p r seed remaining)) in
      (acc2, rw e1 e2)

  each_language_total :
      (parts : List Partition) (acc : BatcherResult)
      → ((id : Uuid) → sum_of (weight (λ x. id == x)) parts ≤ 1)
      → (acc' : BatcherResult) × (each_language p r parts acc ≡ ok acc')
  unfolding each_language
  each_language_total [] acc d = (acc, refl)
  each_language_total ((l, articles) ∷ rest) acc d =
      let (acc1, e1) =
        form_groups_total (length articles) (sort_by sort_key_le articles) acc
          (λ i. omega (arith, d i, sorted_count (λ x. i == x) sort_key_le articles)) in
      let (acc2, e2) = each_language_total rest acc1 (λ i. omega (arith, d i)) in (acc2, rw e1 e2)

-- For articles with different identifiers the batcher returns a result: no batch that it builds
-- is refused by the bounds and the validators of ArticleBatch.
pub batch_articles_total :
    (p : Platform) (r : Request) (articles : List Article)
    → DigestsArePrinted p
    → AreDistinct (ids articles)
    → (result : BatcherResult) × (batch_articles p r articles ≡ ok result)
unfolding batch_articles
batch_articles_total p r articles digests d =
    let le = λ (x y : Partition). language_le x.0 y.0 in
    each_language_total p r digests (sort_by le (by_language [] articles)) start λ i. omega (
      arith,
      d i,
      sum_of-sort_by (weight (λ x. i == x)) le (by_language [] articles),
      by_language_count (λ x. i == x) [] articles,
    )
