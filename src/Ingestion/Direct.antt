-- ===== src/Ingestion/Direct.antt =====
-- `ingest_urls` and `ingest_file` of ingestion/service.py
use agentic_analyst.Prelude.{
  List, [], ◌∷◌, ◌++◌, Option, none, some, Text, codes, text_eq, length, ltb, if◌then◌else◌,
}
use agentic_analyst.Domain.Values.{Uuid, Datetime, failed}
use agentic_analyst.Domain.Errors.{Error, Result, file_extraction}
use agentic_analyst.Domain.Feeds.{ArticleCandidate, ExtractedArticle, IngestionResult}
use agentic_analyst.Store.Session.{Env, M, pure, lift, now, try_except, ◌>>=◌}
use agentic_analyst.Http.Urls.{UrlLibrary}
use agentic_analyst.Ingestion.Records.{
  Ports, failure_summary_from_exception, record_failure, check_duplicate, result_of,
}
use agentic_analyst.Ingestion.Finalize.{finalize_extracted}
use agentic_analyst.Ingestion.Candidate.{Extraction, extracted_as, ended_with, ingest_candidate}

-- The candidate of a pasted URL or an upload.
abbrev pub direct_candidate : Text → ArticleCandidate
direct_candidate url = record {
  source_id = none;
  source_feed_id = none;
  url = url;
  title = none;
  author = none;
  published_at = none;
  entry_id = none;
  summary = none;
}

module _ (e : Env) (p : Ports) (u : UrlLibrary) where
  abbrev pub unexpected : ArticleCandidate → Text → IngestionResult
  unexpected c summary =
      result_of e p c failed none (some (codes "unexpected_error")) (some summary)

  -- One turn of the loop of `ingest_urls`.
  unfoldable pub ingest_url : Uuid → Text → M IngestionResult
  unfolding ingest_candidate
  ingest_url topic_id url =
      let c = direct_candidate url in
      try_except (ingest_candidate e p u c topic_id none)
        (λ _. pure (unexpected c (codes "unexpected error while ingesting URL")))

  unfoldable pub ingest_urls : Uuid → List Text → M (List IngestionResult)
  unfolding ingest_url
  ingest_urls topic_id [] = pure []
  ingest_urls topic_id (url ∷ urls) =
      ingest_url topic_id url >>= λ r. ingest_urls topic_id urls >>= λ rs. pure (r ∷ rs)

  -- `_EXTENSION_FALLBACK_CONTENT_TYPES.get(suffix)`
  abbrev pub fallback_content_type : Text → Option Text
  fallback_content_type suffix =
      if text_eq suffix (codes ".pdf")
      then some (codes "application/pdf")
      else if text_eq suffix (codes ".txt")
      then some (codes "text/plain")
      else none

  abbrev pub extractor_of_type : Option Text → Option (Text → Text → Result ExtractedArticle)
  extractor_of_type none = none
  extractor_of_type (some type) = p.file_extractor type

  abbrev pub or_extractor :
      Option (Text → Text → Result ExtractedArticle)
      → Option (Text → Text → Result ExtractedArticle)
      → Option (Text → Text → Result ExtractedArticle)
  or_extractor none second = second
  or_extractor (some f) second = some f

  -- The message of a failed file extraction.
  abbrev pub extraction_summary : Error → Text
  extraction_summary (file_extraction message) = p.describe (file_extraction message)
  extraction_summary x = failure_summary_from_exception e p x

  -- The time of ingestion stands in for a missing publication date.
  abbrev pub stamp : ExtractedArticle → Option Datetime → M ExtractedArticle
  stamp x none = now e >>= λ t. pure (record x { published_at = some t })
  stamp x (some published) = pure x

  abbrev pub finish_file :
      ArticleCandidate → Text → Text → Datetime → Uuid → Extraction → M IngestionResult
  finish_file c url hash start topic_id (ended_with r) = pure r
  finish_file c url hash start topic_id (extracted_as x) =
      stamp x x.published_at >>= λ y. finalize_extracted e p c url hash y start topic_id none

  abbrev pub with_extractor :
      ArticleCandidate
      → Text
      → Text
      → Datetime
      → Uuid
      → Text
      → Text
      → Text
      → Option (Text → Text → Result ExtractedArticle)
      → M IngestionResult
  with_extractor c url hash start topic_id filename content type none =
      record_failure e p c (some url) (some hash) (codes "unsupported_file_type")
        (codes "unsupported content type: " ++ type) start topic_id
  with_extractor c url hash start topic_id filename content type (some extract) =
      try_except (lift (extract filename content) >>= λ x. pure (extracted_as x)) (λ x.
        record_failure e p c (some url) (some hash) (codes "extraction_failed")
          (extraction_summary x) start topic_id
        >>= λ r. pure (ended_with r))
      >>= finish_file c url hash start topic_id

  abbrev pub unless_uploaded :
      ArticleCandidate
      → Text
      → Text
      → Datetime
      → Uuid
      → Text
      → Text
      → Text
      → Option IngestionResult
      → M IngestionResult
  unless_uploaded c url hash start topic_id filename content type (some r) = pure r
  unless_uploaded c url hash start topic_id filename content type none =
      with_extractor c url hash start topic_id filename content type (
        or_extractor (p.file_extractor type)
          (extractor_of_type (fallback_content_type (p.suffix filename))))

  unfoldable pub ingest_file : Uuid → Text → Text → Text → M IngestionResult
  unfolding now record_failure check_duplicate finalize_extracted failure_summary_from_exception
  ingest_file topic_id filename content type = now e >>= λ start.
      let hash = p.sha256 content in
      let url = codes "upload://" ++ hash in
      let c = direct_candidate url in
      if ltb p.article_max_response_size_bytes (length content)
      then record_failure e p c (some url) (some hash) (codes "file_too_large")
          (codes "file size "
            ++ (p.show (length content)
                ++ (codes " exceeds maximum "
                    ++ (p.show p.article_max_response_size_bytes ++ codes " bytes"))))
          start topic_id
      else (check_duplicate e p c url hash start topic_id
          >>= unless_uploaded c url hash start topic_id filename content type)
