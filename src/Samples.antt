-- ===== src/Samples.antt =====
-- Small inputs that the tests of several components share.
use agentic_analyst.Prelude.{ℕ, zero, suc, ◌+◌, [], ◌∷◌, none, some, Text, codes, true}
use agentic_analyst.Domain.Values.{daily, weekly, title_token_jaccard, succeeded}
use agentic_analyst.Domain.Errors.{ok, err, model_error}
use agentic_analyst.Domain.Articles.{Citation, Topic, Source, Article, ArticleBatch, BatchSummary}
use agentic_analyst.Domain.Briefs.{Brief, WorkflowRun}
use agentic_analyst.Domain.Feeds.{SourceFeed}
use agentic_analyst.Store.Tables.{Db, empty_db}
use agentic_analyst.Store.Session.{World, Env}
use agentic_analyst.Runner.Keys.{Formats}
use agentic_analyst.Runner.Execute.{GraphState}
use agentic_analyst.Synthesis.Frontier.{Frontier, FrontierResult}

-- A number as that many strokes.
abbrev pub strokes : ℕ → Text
strokes zero = []
strokes (suc n) = b'|' ∷ strokes n

abbrev pub formats : Formats
formats = record { type_name = λ x. codes "Error"; show_uuid = strokes; isoformat = strokes }

-- An environment in which no other session commits.
abbrev pub idle : Env
idle = record { others = λ n d. d; clock = λ n. n; uuid = λ n. 100 + n }

abbrev pub world_of : Db → World
world_of d = record { db = d; snapshot = none; tick = 0; log = [] }

abbrev pub topic : Topic
topic = record {
  id = 7;
  name = codes "T";
  description = codes "d";
  interest_detail = none;
  keywords = codes "war" ∷ [];
  created_at = 0;
  updated_at = 0;
}

abbrev pub source : Source
source = record {
  id = 5;
  topic_id = 7;
  stable_id = codes "s";
  name = codes "News";
  normalized_domain = codes "news.org";
  created_at = 0;
}

abbrev pub feed : SourceFeed
feed = record {
  id = 6;
  source_id = 5;
  feed_url = codes "https://news.org/feed";
  feed_url_fingerprint = codes "f";
  enabled = true;
  poll_interval_minutes = 60;
  etag = none;
  last_modified = none;
  last_polled_at = none;
  last_success_at = none;
  last_error_summary = none;
  created_at = 0;
  updated_at = 0;
}

abbrev pub article : Article
article = record {
  id = 1;
  topic_id = 7;
  source_id = some 5;
  url = codes "https://news.org/a";
  url_fingerprint = codes "a";
  title = codes "A";
  author = none;
  published_at = 5;
  ingested_at = 6;
  language = some (codes "en");
  raw_content_hash = none;
  cleaned_content = some (codes "A  storm came.");
}

abbrev pub batch : ArticleBatch
batch = record {
  id = 20;
  article_ids = 1 ∷ [];
  batch_key = codes "b";
  grouping_method = title_token_jaccard;
  embedding_model = codes "none";
  similarity_threshold = none;
  grouping_run_id = none;
  created_at = 7;
}

abbrev pub citation : Citation
citation = record { article_id = 1; excerpt = some (codes "A storm") }

abbrev pub summary : BatchSummary
summary = record {
  id = 30;
  batch_id = 20;
  model = codes "m";
  prompt_version = codes "v1";
  summary = codes "A storm.";
  source_notes = none;
  entities = [];
  topics = [];
  citations = citation ∷ [];
  created_at = 8;
}

abbrev pub brief : Brief
brief = record {
  id = 40;
  topic_id = 7;
  cadence = weekly;
  covered_start = 1;
  covered_end = 7;
  content = codes "A brief.";
  cited_batch_summary_ids = 30 ∷ [];
  cited_article_ids = 1 ∷ [];
  narrative_state_version_id = none;
  created_by_run_id = 50;
  created_at = 9;
}

-- A topic with a source, a feed, an article, its batch and its summary.
abbrev pub archive : Db
archive = record empty_db {
  topics = topic ∷ [];
  sources = source ∷ [];
  feeds = feed ∷ [];
  articles = article ∷ [];
  batches = batch ∷ [];
  summaries = summary ∷ [];
}

-- The run of the first week for the topic, which has succeeded.
abbrev pub weekly_run : WorkflowRun
weekly_run = record {
  id = 50;
  cadence = weekly;
  idempotency_key = codes "weekly:|||||||:|:|||||||";
  status = succeeded;
  checkpoint_ref = none;
  error_summary = none;
  started_at = 2;
  completed_at = some 3;
}

abbrev pub frontier_result : FrontierResult
frontier_result = record {
  brief_content = codes "A brief.";
  narrative_state = codes "{}";
  change_log = [];
  expectations = ((codes "statement", codes "Rain.") ∷ []) ∷ [];
}

abbrev pub frontier : Frontier
frontier = record {
  str_of = λ v. v;
  float_of = λ v. ok 0;
  in_unit = λ x. true;
  generate = λ inp n. ok frontier_result;
  embed = λ text n. err (model_error []);
  embed_model = codes "e";
}

abbrev pub input : GraphState
input = record {
  run_id = 50;
  cadence = daily;
  topic_id = 7;
  covered_start = 1;
  covered_end = 1;
  idempotency_key = codes "k";
  batch_summaries = summary ∷ [];
  prior_briefs = [];
  current_narrative = none;
}
