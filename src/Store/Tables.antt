-- ===== src/Store/Tables.antt =====
-- The tables, and `scalar_one_or_none`.
use agentic_analyst.Prelude.{List, [], ◌∷◌, Option, none, some}
use agentic_analyst.Domain.Errors.{Result, ok, err, multiple_results}
use agentic_analyst.Domain.Articles.{Topic, Source, Article, ArticleBatch, BatchSummary}
use agentic_analyst.Domain.Briefs.{
  NarrativeStateVersion, PredictionExpectation, Brief, Embedding, WorkflowRun,
}
use agentic_analyst.Domain.Feeds.{SourceFeed, IngestionAttempt}

pub record Db : Type 0 where
  pub topics : List Topic
  pub sources : List Source
  pub articles : List Article
  pub batches : List ArticleBatch
  pub summaries : List BatchSummary
  pub feeds : List SourceFeed
  pub attempts : List IngestionAttempt
  pub narratives : List NarrativeStateVersion
  pub expectations : List PredictionExpectation
  pub briefs : List Brief
  pub embeddings : List Embedding
  pub runs : List WorkflowRun

abbrev pub empty_db : Db
empty_db = record {
  topics = [];
  sources = [];
  articles = [];
  batches = [];
  summaries = [];
  feeds = [];
  attempts = [];
  narratives = [];
  expectations = [];
  briefs = [];
  embeddings = [];
  runs = [];
}

-- `result.scalar_one_or_none()`
unfoldable pub scalar_one_or_none {ℓ} : {A : Type ℓ} → List A → Result (Option A)
scalar_one_or_none [] = ok none
scalar_one_or_none (x ∷ []) = ok (some x)
scalar_one_or_none (x ∷ y ∷ xs) = err multiple_results
