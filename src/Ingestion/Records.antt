-- ===== src/Ingestion/Records.antt =====
-- `_sanitize_error_summary`, `_failure_summary_from_exception`, `_record_failure`,
-- `_record_duplicate` and `_check_duplicate` of ingestion/service.py.
use agentic_analyst.Prelude.{
  ℕ, Bool, List, ◌++◌, Option, none, some, Text, codes, length, take, ltb, if◌then◌else◌,
}
use agentic_analyst.Domain.Values.{
  Uuid, Datetime, IngestionStatus, ExtractorKind, duplicate, failed, strip,
}
use agentic_analyst.Domain.Errors.{Error, Result}
use agentic_analyst.Domain.Articles.{Article}
use agentic_analyst.Domain.Feeds.{
  ArticleCandidate, ExtractedArticle, FeedFetchResult, IngestionAttempt, IngestionResult,
}
use agentic_analyst.Store.Session.{Env, M, pure, now, uuid4, session_scope, ◌>>=◌, ◌>>◌}
use agentic_analyst.Ingestion.Statements.{get_article_by_fingerprint, record_ingestion_attempt}

-- What the service is built with, and the printed forms of its messages. What an extractor or the
-- feed client answers depends on the count of the meetings.
pub record Ports : Type 0 where
  -- the fields of the settings that the service reads
  pub article_min_content_length : ℕ
  pub article_max_response_size_bytes : ℕ
  pub primary_extract : Text → ℕ → Result ExtractedArticle
  pub fallback_extract : Text → ℕ → Result ExtractedArticle
  -- `_file_extractors.get(content_type)`
  pub file_extractor : Text → Option (Text → Text → Result ExtractedArticle)
  pub fetch : Text → Option Text → Option Text → M FeedFetchResult
  pub parse_feed : Text → Text → Uuid → Uuid → Result (List ArticleCandidate)
  pub is_relevant : List Text → List (Option Text) → Bool
  -- `Path(filename).suffix.lower()`
  pub suffix : Text → Text
  pub sha256 : Text → Text
  pub show : ℕ → Text
  -- `str(exc)` and `type(exc).__name__`
  pub describe : Error → Text
  pub class_name : Error → Text

abbrev pub error_summary_max_length : ℕ
error_summary_max_length = 500

unfoldable pub sanitize_error_summary : Text → Text
sanitize_error_summary message =
    let cleaned = strip message in
    if ltb error_summary_max_length (length cleaned)
    then take error_summary_max_length cleaned
    else cleaned

module _ (e : Env) (p : Ports) where
  unfoldable pub failure_summary_from_exception : Error → Text
  unfolding sanitize_error_summary
  failure_summary_from_exception x =
      sanitize_error_summary (p.class_name x ++ (codes ": " ++ p.describe x))

  -- An attempt of the candidate, as its constructor calls share it: the identifier is drawn when
  -- the attempt is built, behind the arguments, of which `completed_at` reads the clock.
  abbrev pub attempt_of :
      ArticleCandidate
      → Uuid
      → Option Text
      → Option Text
      → IngestionStatus
      → Option ExtractorKind
      → Option Uuid
      → Option Text
      → Option Text
      → Datetime
      → Datetime
      → Uuid
      → IngestionAttempt
  attempt_of c topic_id url fingerprint status extractor article_id code summary start end id =
      record {
        id = id;
        topic_id = topic_id;
        source_id = c.source_id;
        source_feed_id = c.source_feed_id;
        requested_url = c.url;
        canonical_url = url;
        url_fingerprint = fingerprint;
        status = status;
        http_status = none;
        extractor = extractor;
        article_id = article_id;
        error_code = code;
        error_summary = summary;
        started_at = start;
        completed_at = some end;
      }

  abbrev pub result_of :
      ArticleCandidate → IngestionStatus → Option Uuid → Option Text → Option Text → IngestionResult
  result_of c status article_id code summary = record {
    candidate_url = c.url;
    status = status;
    article_id = article_id;
    error_code = code;
    error_summary = summary;
  }

  -- The end of `_record_failure` and of `_record_duplicate`.
  unfoldable pub file_attempt : IngestionAttempt → IngestionResult → M IngestionResult
  unfolding record_ingestion_attempt session_scope
  file_attempt attempt result = session_scope (record_ingestion_attempt e attempt) >> pure result

  unfoldable pub record_failure :
      ArticleCandidate
      → Option Text
      → Option Text
      → Text
      → Text
      → Datetime
      → Uuid
      → M IngestionResult
  unfolding sanitize_error_summary file_attempt now uuid4
  record_failure c url fingerprint code summary start topic_id = now e >>= λ end. uuid4 e >>= λ id.
      let cleaned = some (sanitize_error_summary summary) in
      file_attempt
        (attempt_of c topic_id url fingerprint failed none none (some code) cleaned start end id)
        (result_of c failed none (some code) cleaned)

  unfoldable pub record_duplicate :
      ArticleCandidate → Text → Text → Uuid → Datetime → Uuid → M IngestionResult
  unfolding file_attempt now uuid4
  record_duplicate c url fingerprint article_id start topic_id = now e >>= λ end. uuid4 e >>= λ id.
      file_attempt
        (attempt_of c topic_id (some url) (some fingerprint) duplicate none (some article_id) none
          none start end id)
        (result_of c duplicate (some article_id) none none)

  abbrev pub duplicate_of :
      ArticleCandidate → Text → Text → Datetime → Uuid → Option Article → M (Option IngestionResult)
  duplicate_of c url fingerprint start topic_id none = pure none
  duplicate_of c url fingerprint start topic_id (some existing) =
      record_duplicate c url fingerprint existing.id start topic_id >>= λ r. pure (some r)

  unfoldable pub check_duplicate :
      ArticleCandidate → Text → Text → Datetime → Uuid → M (Option IngestionResult)
  unfolding get_article_by_fingerprint session_scope record_duplicate
  check_duplicate c url fingerprint start topic_id =
      session_scope (get_article_by_fingerprint e fingerprint topic_id)
      >>= duplicate_of c url fingerprint start topic_id
