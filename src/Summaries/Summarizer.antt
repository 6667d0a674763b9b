-- ===== src/Summaries/Summarizer.antt =====
-- src/analyst_engine/summarization/summarizer.py.
-- The model behind the gateway is the parameter `generate`, which answers or raises.
use agentic_analyst.Prelude.{
  ℕ, Bool, List, [], ◌∷◌, ◌++◌, Option, none, some, Text, codes, ◌==◌, if◌then◌else◌,
}
use agentic_analyst.Domain.Values.{Uuid, Datetime, is_empty}
use agentic_analyst.Domain.Errors.{Result, ok, err, chain, summary_validation, value_error}
use agentic_analyst.Domain.Articles.{Citation, Source, Article, ArticleBatch, BatchSummary}
use agentic_analyst.Store.Session.{Env, M, ask, lift, now, uuid4, ◌>>=◌, ◌>>◌}
use agentic_analyst.Summaries.Texts.{normalize_whitespace, contains}
use agentic_analyst.Summaries.Prompts.{
  Printers, BatchSummaryModelResult, Message, content_of, build_batch_summary_messages,
}

-- A dict that is built from a list of rows: the last row with the key counts.
abbrev pub keep_last {ℓ} : {A : Type ℓ} → Option A → Bool → A → Option A
keep_last none hit a = if hit then some a else none
keep_last (some b) hit a = some b

unfoldable pub lookup_by {ℓ} : {A : Type ℓ} → (A → Uuid) → Uuid → List A → Option A
lookup_by key id [] = none
lookup_by key id (x ∷ xs) = keep_last (lookup_by key id xs) (key x == id) x

abbrev pub article_key : Article → Uuid
article_key a = a.id

abbrev pub source_key : Source → Uuid
source_key s = s.id

abbrev pub pair_key : Article × Option Source → Uuid
pair_key (a, s) = a.id

abbrev pub summary_row :
    ArticleBatch → Text → Text → BatchSummaryModelResult → Uuid → Datetime → BatchSummary
summary_row batch model prompt_version r id created_at = record {
  id = id;
  batch_id = batch.id;
  model = model;
  prompt_version = prompt_version;
  summary = r.summary;
  source_notes = r.source_notes;
  entities = r.entities;
  topics = r.topics;
  citations = r.citations;
  created_at = created_at;
}

-- `_has_citations` of BatchSummary
unfoldable pub has_citations : BatchSummary → Result BatchSummary
has_citations s = if is_empty s.citations then err value_error else ok s

-- `BatchSummary(...)`, with its default identifier and time, and its validator.
unfoldable pub new_summary :
    Env → ArticleBatch → Text → Text → BatchSummaryModelResult → M BatchSummary
new_summary e batch model prompt_version r = do
  id ← uuid4 e
  created_at ← now e
  lift (has_citations (summary_row batch model prompt_version r id created_at))

module _ (p : Printers) where
  abbrev pub pair_with : Article → Uuid → Option Source → Result (Article × Option Source)
  pair_with a source_id none = err (
      summary_validation (
        codes "Article "
        ++ (p.show_uuid a.id ++ (codes " references missing source " ++ p.show_uuid source_id))))
  pair_with a source_id (some s) = ok (a, some s)

  abbrev pub pair_of : List Source → Article → Option Uuid → Result (Article × Option Source)
  pair_of sources a none = ok (a, none)
  pair_of sources a (some source_id) =
      pair_with a source_id (lookup_by source_key source_id sources)

  -- `_build_article_source_lookup`, as the list of the dict's entries in the order of the articles.
  unfoldable pub build_article_source_lookup :
      List Article → List Source → Result (List (Article × Option Source))
  build_article_source_lookup [] sources = ok []
  build_article_source_lookup (a ∷ articles) sources =
      chain
        (λ pair. chain (λ rest. ok (pair ∷ rest)) (build_article_source_lookup articles sources))
        (pair_of sources a a.source_id)

  abbrev pub require_pair :
      Uuid → Option (Article × Option Source) → Result (Article × Option Source)
  require_pair id none = err (
      summary_validation
        (codes "Batch article_id " ++ (p.show_uuid id ++ codes " not found in provided articles")))
  require_pair id (some pair) = ok pair

  -- The loop over `batch.article_ids`.
  unfoldable pub collect_pairs :
      List Uuid → List (Article × Option Source) → Result (List (Article × Option Source))
  collect_pairs [] lookup = ok []
  collect_pairs (id ∷ ids) lookup =
      chain (λ pair. chain (λ rest. ok (pair ∷ rest)) (collect_pairs ids lookup))
        (require_pair id (lookup_by pair_key id lookup))

  abbrev pub check_excerpt : Citation → Article → Option Text → Result (Unit {0})
  check_excerpt c a none = ok tt
  check_excerpt c a (some excerpt) =
      if contains (normalize_whitespace excerpt) (normalize_whitespace (content_of a))
      then ok tt
      else err (
          summary_validation (
            codes "Citation excerpt for article "
            ++ (p.show_uuid c.article_id ++ codes " is not present in cleaned content")))

  abbrev pub check_article : Citation → Option Article → Result (Unit {0})
  check_article c none = err (
      summary_validation (
        codes "Citation references article_id "
        ++ (p.show_uuid c.article_id ++ codes " not in batch")))
  check_article c (some a) = check_excerpt c a c.excerpt

  -- The loop of `_validate_citations`.
  unfoldable pub check_citations : List Article → List Citation → Result (Unit {0})
  check_citations articles [] = ok tt
  check_citations articles (c ∷ citations) =
      chain (λ _. check_citations articles citations)
        (check_article c (lookup_by article_key c.article_id articles))

  -- `_validate_citations`
  unfoldable pub validate_citations : List Article → List Citation → Result (Unit {0})
  validate_citations articles [] = err (summary_validation (codes "Model returned zero citations"))
  validate_citations articles (c ∷ citations) = check_citations articles (c ∷ citations)

  module _ (e : Env) (system_prompt : Text)
      (generate : List Message → ℕ → Result BatchSummaryModelResult) where
    unfoldable pub summarize_batch :
        ArticleBatch → List Article → List Source → Text → Text → M BatchSummary
    summarize_batch batch articles sources model prompt_version = do
      pairs ←
          lift
            (chain (collect_pairs batch.article_ids) (build_article_source_lookup articles sources))
      r ← ask (generate (build_batch_summary_messages p system_prompt pairs prompt_version))
      lift (validate_citations articles r.citations)
      new_summary e batch model prompt_version r
