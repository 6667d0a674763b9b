-- ===== src/Api/Briefs.antt =====
-- The handlers of `/briefs` and `/archive/search`.
use agentic_analyst.Prelude.{
  ℕ, ◌+◌, Bool, not, ◌&&◌, List, [], ◌∷◌, Option, none, some, Text, codes, text_eq, select, map,
  concat, leb, if◌then◌else◌,
}
use agentic_analyst.Domain.Values.{
  Uuid, Date, Float, Cadence, daily, weekly, monthly, is_empty, strip,
}
use agentic_analyst.Domain.Errors.{Error, Result, ok, err, model_error, http_exception}
use agentic_analyst.Domain.Articles.{Citation, Source, Article, BatchSummary}
use agentic_analyst.Domain.Briefs.{Brief, Embedding}
use agentic_analyst.Store.Session.{
  Env, M, ask, lift, pure, raise, try_except, query, session_scope, ◌>>=◌,
}
use agentic_analyst.Briefs.Queries.{list_prior_briefs}
use agentic_analyst.Briefs.Statements.{get_brief_by_id, search_embeddings_by_similarity}
use agentic_analyst.Ingestion.Statements.{get_sources_by_ids}
use agentic_analyst.Summaries.Statements.{has_id, get_articles_by_ids}
use agentic_analyst.Summaries.Summarizer.{lookup_by, article_key, source_key}
use agentic_analyst.Pipelines.Daily.{source_ids_of}

-- `Cadence(cadence)`
unfoldable pub parse_cadence : Text → Option Cadence
parse_cadence text =
    if text_eq text (codes "daily")
    then some daily
    else if text_eq text (codes "weekly")
    then some weekly
    else if text_eq text (codes "monthly")
    then some monthly
    else none

abbrev pub or_422 : {A : Type 0} → Text → Option A → Result A
or_422 detail none = err (http_exception 422 detail)
or_422 detail (some a) = ok a

pub record ResolvedCitation : Type 0 where
  pub article_id : Uuid
  pub excerpt : Option Text
  pub article_title : Text
  pub article_url : Text
  pub source_name : Text

-- A brief with the summaries that it cites, and their citations resolved.
pub record BriefDetail : Type 0 where
  pub brief : Brief
  pub cited_summaries : List (BatchSummary × List ResolvedCitation)

abbrev pub name_of : Option Source → Text
name_of none = codes "User-provided"
name_of (some s) = s.name

-- `sources_by_id.get(article.source_id) if article.source_id is not None else None`
abbrev pub source_of : List Source → Option Uuid → Option Source
source_of sources none = none
source_of sources (some id) = lookup_by source_key id sources

abbrev pub resolved : List Source → Citation → Option Article → ResolvedCitation
resolved sources c none = record {
  article_id = c.article_id;
  excerpt = c.excerpt;
  article_title = [];
  article_url = [];
  source_name = [];
}
resolved sources c (some a) = record {
  article_id = c.article_id;
  excerpt = c.excerpt;
  article_title = a.title;
  article_url = a.url;
  source_name = name_of (source_of sources a.source_id);
}

unfoldable pub resolve_citation : List Article → List Source → Citation → ResolvedCitation
resolve_citation articles sources c =
    resolved sources c (lookup_by article_key c.article_id articles)

abbrev pub resolve_summary :
    List Article → List Source → BatchSummary → BatchSummary × List ResolvedCitation
resolve_summary articles sources s = (s, map (resolve_citation articles sources) s.citations)

-- The articles that the summaries cite.
abbrev pub cited_ids : List BatchSummary → List Uuid
cited_ids summaries =
    concat (map (λ (s : BatchSummary). map (λ (c : Citation). c.article_id) s.citations) summaries)

-- `cadence is not None` and `Cadence(cadence)`
abbrev pub parse_filter : Option Text → Result (Option Cadence)
parse_filter none = ok none
parse_filter (some text) = elim (parse_cadence text) [
  | none ↦ err (http_exception 422 (codes "unknown cadence"))
  | some cadence ↦ ok (some cadence)
]

unfoldable pub check_search : Text → ℕ → Option Text → Result (Option Cadence)
check_search q limit cadence =
    if is_empty (strip q)
    then err (http_exception 422 (codes "q must not be blank"))
    else if not (leb 1 limit && leb limit 50)
    then err (http_exception 422 (codes "limit must be between 1 and 50"))
    else parse_filter cadence

-- The `except` clauses for TerminalModelError and RetryableModelError, with one text for both.
abbrev pub except_model_error : {A : Type 0} → Error → M A
except_model_error (model_error message) =
    raise (http_exception 503 (codes "archive search unavailable"))
except_model_error x = raise x

module _ (e : Env) where
  unfoldable pub get_batch_summaries_by_ids : List Uuid → M (List BatchSummary)
  get_batch_summaries_by_ids [] = pure []
  get_batch_summaries_by_ids (id ∷ ids) =
      query e (λ d. ok (select (λ (s : BatchSummary). has_id (id ∷ ids) s.id) d.summaries))

  -- `list_briefs`, where `today` is the local date.
  unfoldable pub list_briefs : Date → Text → Option Uuid → M (List Brief)
  list_briefs today cadence topic_id = do
    parsed ← lift (or_422 (codes "unknown cadence") (parse_cadence cadence))
    session_scope (query e (λ d. ok (list_prior_briefs parsed (today + 1) topic_id d)))

  abbrev pub load_detail : Option Brief → M BriefDetail
  load_detail none = raise (http_exception 404 (codes "brief not found"))
  load_detail (some brief) =
      get_batch_summaries_by_ids brief.cited_batch_summary_ids >>= λ summaries.
      get_articles_by_ids e (cited_ids summaries) >>= λ articles.
      get_sources_by_ids e (source_ids_of articles) >>= λ sources.
      pure (record {
        brief = brief;
        cited_summaries = map (resolve_summary articles sources) summaries;
      })

  unfoldable pub get_brief_detail : Uuid → M BriefDetail
  get_brief_detail brief_id = session_scope (get_brief_by_id e brief_id >>= load_detail)

  -- `search_archive`, over the embedding of the query and pgvector's order by distance; the scores
  -- are left to the caller.
  unfoldable pub search_archive :
      (Text → ℕ → Result (List Float))
      → (List Float → List Float → List Float → Bool)
      → Text
      → Option Text
      → ℕ
      → M (List (Embedding × Brief))
  search_archive embed nearer q cadence limit = do
    parsed ← lift (check_search q limit cadence)
    vector ← try_except (ask (embed q)) except_model_error
    session_scope
        (query e (λ d. ok (search_embeddings_by_similarity (nearer vector) parsed limit d)))
