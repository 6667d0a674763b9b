-- ===== src/Batching/Kept.antt =====
-- One group: the scan over the remaining candidates, and what becomes of a finished group.
use agentic_analyst.Prelude.{
  ◌+◌, ◌≤◌, ◌≡◌, Bool, List, [], ◌∷◌, ◌++◌, map, Text, length, length-append, arith,
}
use agentic_analyst.Prelude.Counting.{count_if, count_if-append}
use agentic_analyst.Domain.Values.{Uuid}
use agentic_analyst.Domain.Errors.{ok}
use agentic_analyst.Domain.Articles.{Article, ArticleBatch}
use agentic_analyst.Batching.Tokens.{Platform}
use agentic_analyst.Batching.Grouping.{Request, BatcherResult, place, scan, batch_of, close_group}

abbrev pub ids : List Article → List Uuid
ids articles = map (λ (a : Article). a.id) articles

-- Every identifier that a result accounts for: first those in batches, then those carried forward.
abbrev pub batched : List ArticleBatch → List Uuid
batched [] = []
batched (b ∷ bs) = b.article_ids ++ batched bs

abbrev pub accounted : BatcherResult → List Uuid
accounted r = batched r.batches ++ r.carried_forward_ids

pub batched-append :
    (q : Uuid → Bool) (xs ys : List ArticleBatch)
    → count_if q (batched (xs ++ ys)) ≡ count_if q (batched xs) + count_if q (batched ys)
batched-append q [] ys = omega arith
batched-append q (b ∷ xs) ys = omega (
  arith,
  count_if-append q b.article_ids (batched (xs ++ ys)),
  count_if-append q b.article_ids (batched xs),
  batched-append q xs ys,
)

module _ (p : Platform) (r : Request) where
  module _ (q : Article → Bool) (seed_tokens : List Text) where
    place_count :
        (a : Article) (g s : List Article)
        → let (g', s') = place p r seed_tokens a (g, s) in
          count_if q g' + count_if q s' ≡ count_if q (a ∷ []) + count_if q g + count_if q s
    unfolding place
    place_count a g s = ground (arith, count_if-append q g (a ∷ []), count_if-append q s (a ∷ []))

    pub scan_count :
        (cs g s : List Article)
        → let (g', s') = scan p r seed_tokens cs (g, s) in
          count_if q g' + count_if q s' ≡ count_if q cs + count_if q g + count_if q s
    unfolding scan
    scan_count [] g s = omega arith
    scan_count (a ∷ cs) g s =
        let (g', s') = place p r seed_tokens a (g, s) in
        omega (arith, place_count a g s, scan_count cs g' s')

  -- A finished group is accounted for.
  pub close_group_count :
      (q : Uuid → Bool) (group : List Article) (acc acc' : BatcherResult)
      → close_group p r group acc ≡ ok acc'
      → count_if q (accounted acc') ≡ count_if q (accounted acc) + count_if q (ids group)
  unfolding close_group batch_of
  close_group_count q group acc acc' e =
      let b = batch_of p r (length acc.batches) group in
      let old = acc.carried_forward_ids in
      ground (
        arith,
        count_if-append q (batched acc.batches) old,
        count_if-append q (batched (acc.batches ++ b ∷ [])) old,
        batched-append q acc.batches (b ∷ []),
        count_if-append q (ids group) [],
        count_if-append q (batched acc.batches) (old ++ ids group),
        count_if-append q old (ids group),
      )

module _ (p : Platform) (r : Request) (seed_tokens : List Text) where
  place_bounds :
      (a : Article) (g s : List Article)
      → length g ≤ 5
      → let (g', s') = place p r seed_tokens a (g, s) in
        (length g ≤ length g') × (length g' ≤ 5) × (length g' + length s' ≡ length g + length s + 1)
  unfolding place
  place_bounds a g s h = ground (arith, length-append g (a ∷ []), length-append s (a ∷ []))

  -- The group only grows, to five articles at most, and no candidate is lost.
  pub scan_bounds :
      (cs g s : List Article)
      → length g ≤ 5
      → let (g', s') = scan p r seed_tokens cs (g, s) in
        (length g ≤ length g')
        × (length g' ≤ 5)
        × (length g' + length s' ≡ length g + length s + length cs)
  unfolding scan
  scan_bounds [] g s h = omega arith
  scan_bounds (a ∷ cs) g s h =
      let (g', s') = place p r seed_tokens a (g, s) in
      let b = place_bounds a g s h in omega (arith, b, scan_bounds cs g' s' b.1)
