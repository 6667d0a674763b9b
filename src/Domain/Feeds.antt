-- ===== src/Domain/Feeds.antt =====
-- SourceFeed and IngestionAttempt of domain/models.py, and the value objects of
-- ingestion/models.py.
use agentic_analyst.Prelude.{ℕ, Bool, Option, Text}
use agentic_analyst.Domain.Values.{Uuid, Datetime, IngestionStatus, ExtractorKind}

pub record SourceFeed : Type 0 where
  pub id : Uuid
  pub source_id : Uuid
  pub feed_url : Text
  pub feed_url_fingerprint : Text
  pub enabled : Bool
  pub poll_interval_minutes : ℕ
  pub etag : Option Text
  pub last_modified : Option Text
  pub last_polled_at : Option Datetime
  pub last_success_at : Option Datetime
  pub last_error_summary : Option Text
  pub created_at : Datetime
  pub updated_at : Datetime

pub record IngestionAttempt : Type 0 where
  pub id : Uuid
  pub topic_id : Uuid
  pub source_id : Option Uuid
  pub source_feed_id : Option Uuid
  pub requested_url : Text
  pub canonical_url : Option Text
  pub url_fingerprint : Option Text
  pub status : IngestionStatus
  pub http_status : Option ℕ
  pub extractor : Option ExtractorKind
  pub article_id : Option Uuid
  pub error_code : Option Text
  pub error_summary : Option Text
  pub started_at : Datetime
  pub completed_at : Option Datetime

pub record FeedFetchResult : Type 0 where
  pub status_code : ℕ
  pub not_modified : Bool
  pub etag : Option Text
  pub last_modified : Option Text
  pub final_url : Text
  pub raw_bytes : Option Text

pub record ArticleCandidate : Type 0 where
  pub source_id : Option Uuid
  pub source_feed_id : Option Uuid
  pub url : Text
  pub title : Option Text
  pub author : Option Text
  pub published_at : Option Datetime
  pub entry_id : Option Text
  pub summary : Option Text

pub record ExtractedArticle : Type 0 where
  pub url : Text
  pub title : Option Text
  pub text : Text
  pub language : Option Text
  pub extractor : ExtractorKind
  pub raw_content_hash : Text
  pub published_at : Option Datetime
  pub author : Option Text

pub record IngestionResult : Type 0 where
  pub candidate_url : Text
  pub status : IngestionStatus
  pub article_id : Option Uuid
  pub error_code : Option Text
  pub error_summary : Option Text
