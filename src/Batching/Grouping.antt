-- ===== src/Batching/Grouping.antt =====
-- `batch_articles` and its helpers `_sort_key` and `_derive_batch_key`.
use agentic_analyst.Prelude.{
  ℕ, zero, suc, ◌==◌, ltb, leb, Bool, true, false, not, ◌&&◌, ◌||◌, List, [], ◌∷◌, ◌++◌, map,
  Option, none, some, Text, text_eq, text_le, codes, join, length, sort_by, if◌then◌else◌,
}
use agentic_analyst.Domain.Values.{Uuid, Datetime, Float, GroupingMethod, title_token_jaccard}
use agentic_analyst.Domain.Errors.{Result, ok, err, value_error, chain}
use agentic_analyst.Domain.Articles.{Article, ArticleBatch, batch_allowed}
use agentic_analyst.Batching.Tokens.{Platform, title_tokens, jaccard}

-- `key_a <= key_b` for the tuples that `_sort_key` builds.
unfoldable pub sort_key_le : Article → Article → Bool
sort_key_le a b =
    ltb a.published_at b.published_at
    || (a.published_at == b.published_at
        && ((text_le a.url_fingerprint b.url_fingerprint
              && not (text_eq a.url_fingerprint b.url_fingerprint))
            || (text_eq a.url_fingerprint b.url_fingerprint && leb a.id b.id)))

-- The settings of a call, and the values of `uuid4()` and of the clock that it meets: `uuid 0` is
-- the run's identifier, and `uuid (n + 1)` and `now n` belong to the batch with number `n`.
pub record Request : Type 0 where
  pub title_similarity_threshold : Float
  pub grouping_algorithm_version : Text
  pub uuid : ℕ → Uuid
  pub now : ℕ → Datetime

pub record BatcherResult : Type 0 where
  pub batches : List ArticleBatch
  pub carried_forward_ids : List Uuid

abbrev pub start : BatcherResult
start = record { batches = []; carried_forward_ids = [] }

abbrev pub grouping_value : GroupingMethod → Text
grouping_value title_token_jaccard = codes "title_token_jaccard"
grouping_value _ = codes "content_cosine"

-- `by_language.setdefault(article.language, []).append(article)`
abbrev pub language_eq : Option Text → Option Text → Bool
language_eq none none = true
language_eq (some s) (some t) = text_eq s t
language_eq _ _ = false

abbrev pub Partition : Type 0
Partition = Option Text × List Article

unfoldable pub add_to_language : Article → List Partition → List Partition
add_to_language a [] = (a.language, a ∷ []) ∷ []
add_to_language a ((l, articles) ∷ rest) =
    let later = (l, articles) ∷ add_to_language a rest in
    if language_eq l a.language then (l, articles ++ a ∷ []) ∷ rest else later

unfoldable pub by_language : List Partition → List Article → List Partition
by_language dict [] = dict
by_language dict (a ∷ articles) = by_language (add_to_language a dict) articles

-- The order of the keys `(k is None, k or "")`.
abbrev pub language_le : Option Text → Option Text → Bool
language_le none none = true
language_le none (some t) = false
language_le (some s) none = true
language_le (some s) (some t) = text_le s t

module _ (p : Platform) (r : Request) where
  -- `_derive_batch_key`
  unfoldable pub derive_batch_key : List Uuid → GroupingMethod → Text
  derive_batch_key ids method = p.sha256_hex (
      join (codes "|") (
        map p.show_uuid ids
        ++ (grouping_value method
            ∷ r.grouping_algorithm_version
            ∷ p.show_threshold r.title_similarity_threshold
            ∷ [])))

  abbrev pub similar : List Text → Article → Bool
  similar seed_tokens a =
      p.at_least (jaccard p seed_tokens (title_tokens p a.title)) r.title_similarity_threshold

  -- One round of `for candidate in remaining`, on `current_group` and `still_remaining`.
  unfoldable pub place :
      List Text → Article → List Article × List Article → List Article × List Article
  place seed_tokens candidate (group, still) =
      if leb 5 (length group)
      then (group, still ++ candidate ∷ [])
      else if similar seed_tokens candidate
      then (group ++ candidate ∷ [], still)
      else (group, still ++ candidate ∷ [])

  unfoldable pub scan :
      List Text → List Article → List Article × List Article → List Article × List Article
  scan seed_tokens [] state = state
  scan seed_tokens (candidate ∷ remaining) state =
      scan seed_tokens remaining (place seed_tokens candidate state)

  -- `ArticleBatch(...)` for a group, as number `n` of the run.
  unfoldable pub batch_of : ℕ → List Article → ArticleBatch
  unfolding derive_batch_key
  batch_of n group = record {
    id = r.uuid (suc n);
    article_ids = map (λ (a : Article). a.id) group;
    batch_key = derive_batch_key (map (λ (a : Article). a.id) group) title_token_jaccard;
    grouping_method = title_token_jaccard;
    embedding_model = codes "none";
    similarity_threshold = some r.title_similarity_threshold;
    grouping_run_id = some (r.uuid 0);
    created_at = r.now n;
  }

  -- A finished group becomes a batch, or is carried forward. Building a batch may raise.
  unfoldable pub close_group : List Article → BatcherResult → Result BatcherResult
  close_group group acc =
      let b = batch_of (length acc.batches) group in
      if leb 3 (length group)
      then if batch_allowed b
        then ok (record acc { batches = acc.batches ++ b ∷ [] })
        else err value_error
      else ok (record acc {
        carried_forward_ids = acc.carried_forward_ids ++ map (λ (a : Article). a.id) group;
      })

  -- `while remaining:`, one round for each unit of fuel.
  unfoldable pub form_groups : ℕ → List Article → BatcherResult → Result BatcherResult
  form_groups fuel [] acc = ok acc
  form_groups zero (seed ∷ remaining) acc = ok acc
  form_groups (suc fuel) (seed ∷ remaining) acc =
      let (group, still) = scan (title_tokens p seed.title) remaining (seed ∷ [], []) in
      chain (form_groups fuel still) (close_group group acc)

  unfoldable pub each_language : List Partition → BatcherResult → Result BatcherResult
  each_language [] acc = ok acc
  each_language ((l, articles) ∷ rest) acc =
      chain (each_language rest) (form_groups (length articles) (sort_by sort_key_le articles) acc)

  unfoldable pub batch_articles : List Article → Result BatcherResult
  batch_articles articles =
      each_language (sort_by (λ x y. language_le x.0 y.0) (by_language [] articles)) start
