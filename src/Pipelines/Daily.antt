-- ===== src/Pipelines/Daily.antt =====
-- `DailyBriefPipeline.run` of pipeline/daily_brief.py up to the selection: polling, batching and
-- summarising.
use agentic_analyst.Prelude.{ℕ, suc, List, [], ◌∷◌, ◌++◌, Option, none, some, Text, take}
use agentic_analyst.Domain.Values.{
  Uuid, Date, Datetime, Float, IngestionStatus, duplicate, succeeded,
}
use agentic_analyst.Domain.Errors.{Error, Result, ok, summary_validation}
use agentic_analyst.Domain.Articles.{Article, Source, ArticleBatch, BatchSummary}
use agentic_analyst.Domain.Feeds.{SourceFeed, IngestionResult}
use agentic_analyst.Store.Session.{
  Env, M, ask, pure, raise, try_except, query, now, session_scope, ◌>>=◌,
}
use agentic_analyst.Http.Urls.{UrlLibrary}
use agentic_analyst.Batching.Tokens.{Platform}
use agentic_analyst.Batching.Grouping.{Request, BatcherResult, batch_articles}
use agentic_analyst.Ingestion.Records.{Ports}
use agentic_analyst.Ingestion.Statements.{get_sources_by_ids}
use agentic_analyst.Ingestion.Polling.{poll_feed}
use agentic_analyst.Topics.Sources.{list_due_source_feeds}
use agentic_analyst.Summaries.Statements.{
  list_eligible_unbatched_articles, save_article_batch, save_batch_summary,
  get_article_batch_by_key, get_batch_summary_by_identity, get_articles_by_ids,
}
use agentic_analyst.Summaries.Prompts.{Printers, BatchSummaryModelResult, Message}
use agentic_analyst.Summaries.Summarizer.{summarize_batch}

-- The settings of config.py that the pipeline reads.
pub record Settings : Type 0 where
  pub max_feeds_per_run : ℕ
  pub max_articles_per_run : ℕ
  pub allowed_languages : List Text
  pub title_similarity_threshold : Float
  pub grouping_algorithm_version : Text
  pub batch_summary_model : Text
  pub batch_summary_prompt_version : Text

-- What the services of the pipeline meet outside: those of ingestion and batching, the printers and
-- the prompt and the model of the summariser, and the identifiers and times that a call of the
-- batcher draws, by the count of the meetings.
pub record Services : Type 0 where
  pub settings : Settings
  pub ports : Ports
  pub urls : UrlLibrary
  pub platform : Platform
  pub batch_uuid : ℕ → ℕ → Uuid
  pub batch_now : ℕ → ℕ → Datetime
  pub printers : Printers
  pub system_prompt : Text
  pub generate : List Message → ℕ → Result BatchSummaryModelResult

-- `articles_succeeded`, `articles_duplicate` and `articles_failed`
pub record Polled : Type 0 where
  pub articles_succeeded : ℕ
  pub articles_duplicate : ℕ
  pub articles_failed : ℕ

abbrev pub none_polled : Polled
none_polled = record { articles_succeeded = 0; articles_duplicate = 0; articles_failed = 0 }

abbrev pub count_status : IngestionStatus → Polled → Polled
count_status succeeded c = record c { articles_succeeded = suc c.articles_succeeded }
count_status duplicate c = record c { articles_duplicate = suc c.articles_duplicate }
count_status _ c = record c { articles_failed = suc c.articles_failed }

unfoldable pub count_results : List IngestionResult → Polled → Polled
count_results [] c = c
count_results (r ∷ results) c = count_results results (count_status r.status c)

-- `resolved_batches`, `batches_created` and `batches_reused`
pub record Resolved : Type 0 where
  pub batches : List ArticleBatch
  pub batches_created : ℕ
  pub batches_reused : ℕ

abbrev pub none_resolved : Resolved
none_resolved = record { batches = []; batches_created = 0; batches_reused = 0 }

abbrev pub reuse_batch : ArticleBatch → Resolved → Resolved
reuse_batch b r = record r { batches = r.batches ++ b ∷ []; batches_reused = suc r.batches_reused }

abbrev pub create_batch : ArticleBatch → Resolved → Resolved
create_batch b r = record r {
  batches = r.batches ++ b ∷ [];
  batches_created = suc r.batches_created;
}

-- `summaries_by_batch`, the latest entry first, `summaries_created` and `summaries_reused`
pub record Summarized : Type 0 where
  pub summaries_by_batch : List (Uuid × BatchSummary)
  pub summaries_created : ℕ
  pub summaries_reused : ℕ

abbrev pub none_summarized : Summarized
none_summarized = record { summaries_by_batch = []; summaries_created = 0; summaries_reused = 0 }

abbrev pub reuse_summary : Uuid → BatchSummary → Summarized → Summarized
reuse_summary id s z = record z {
  summaries_by_batch = (id, s) ∷ z.summaries_by_batch;
  summaries_reused = suc z.summaries_reused;
}

abbrev pub create_summary : Uuid → Option BatchSummary → Summarized → Summarized
create_summary id none z = z
create_summary id (some s) z = record z {
  summaries_by_batch = (id, s) ∷ z.summaries_by_batch;
  summaries_created = suc z.summaries_created;
}

abbrev pub prepend_id : Option Uuid → List Uuid → List Uuid
prepend_id none ids = ids
prepend_id (some id) ids = id ∷ ids

-- The source identifiers of the articles that have one.
abbrev pub source_ids_of : List Article → List Uuid
source_ids_of [] = []
source_ids_of (a ∷ articles) = prepend_id a.source_id (source_ids_of articles)

-- `except SummaryValidationError: continue`
abbrev pub skip_invalid : Error → M (Option BatchSummary)
skip_invalid (summary_validation message) = pure none
skip_invalid x = raise x

module _ (e : Env) (s : Services) where
  -- The feeds that are due, and at most `max_feeds_per_run` of them.
  unfoldable pub due_feeds : Uuid → M (List SourceFeed)
  unfolding query session_scope now
  due_feeds topic_id =
      session_scope (now e >>= λ t. query e (λ d. ok (list_due_source_feeds t topic_id d)))
      >>= λ feeds. pure (take s.settings.max_feeds_per_run feeds)

  unfoldable pub poll_feeds : List SourceFeed → Polled → M Polled
  unfolding poll_feed
  poll_feeds [] c = pure c
  poll_feeds (feed ∷ feeds) c =
      poll_feed e s.ports s.urls feed >>= λ results. poll_feeds feeds (count_results results c)

  unfoldable pub eligible_articles : Date → Uuid → M (List Article)
  unfolding query session_scope
  eligible_articles target_date topic_id =
      session_scope (
        query e (λ d.
          ok
            (list_eligible_unbatched_articles target_date s.settings.allowed_languages topic_id d)))
      >>= λ articles. pure (take s.settings.max_articles_per_run articles)

  abbrev pub request_at : ℕ → Request
  request_at n = record {
    title_similarity_threshold = s.settings.title_similarity_threshold;
    grouping_algorithm_version = s.settings.grouping_algorithm_version;
    uuid = s.batch_uuid n;
    now = s.batch_now n;
  }

  unfoldable pub group_articles : List Article → M BatcherResult
  group_articles articles = ask (λ n. batch_articles s.platform (request_at n) articles)

  abbrev pub resolve_batch : ArticleBatch → Resolved → Option ArticleBatch → M Resolved
  resolve_batch batch r (some existing) = pure (reuse_batch existing r)
  resolve_batch batch r none = save_article_batch e batch >>= λ saved. pure (create_batch saved r)

  -- The loop that looks each batch up by its key, or stores it.
  unfoldable pub resolve_batches : List ArticleBatch → Resolved → M Resolved
  resolve_batches [] r = pure r
  resolve_batches (batch ∷ batches) r =
      get_article_batch_by_key e batch.batch_key
      >>= resolve_batch batch r
      >>= resolve_batches batches

  -- The articles of a batch with their sources.
  unfoldable pub load_batch : ArticleBatch → M (List Article × List Source)
  load_batch batch = session_scope (
      get_articles_by_ids e batch.article_ids >>= λ articles.
      get_sources_by_ids e (source_ids_of articles) >>= λ sources. pure (articles, sources))

  -- The model's summary, stored, or nothing if it does not validate.
  unfoldable pub summarize_new : ArticleBatch → List Article × List Source → M (Option BatchSummary)
  summarize_new batch (articles, sources) =
      try_except
        (summarize_batch s.printers e s.system_prompt s.generate batch articles sources
            s.settings.batch_summary_model s.settings.batch_summary_prompt_version
          >>= λ summary. pure (some summary))
        skip_invalid

  abbrev pub store_summary : Option BatchSummary → M (Option BatchSummary)
  store_summary none = pure none
  store_summary (some summary) =
      session_scope (save_batch_summary e summary) >>= λ saved. pure (some saved)

  abbrev pub summarize_missing : ArticleBatch → Summarized → Option BatchSummary → M Summarized
  summarize_missing batch z (some existing) = pure (reuse_summary batch.id existing z)
  summarize_missing batch z none =
      load_batch batch >>= summarize_new batch >>= store_summary >>= λ o.
      pure (create_summary batch.id o z)

  -- The loop over the batches that reuses a summary of the same model and prompt, or makes one.
  unfoldable pub summarize_batches : List ArticleBatch → Summarized → M Summarized
  summarize_batches [] z = pure z
  summarize_batches (batch ∷ batches) z =
      session_scope (
        get_batch_summary_by_identity e batch.id s.settings.batch_summary_model
          s.settings.batch_summary_prompt_version)
      >>= summarize_missing batch z
      >>= summarize_batches batches
