-- ===== src/Ingestion/Candidate.antt =====
-- `_fallback_extractor_if_safe` and `_ingest_candidate` of ingestion/service.py, and
-- `should_use_fallback` of ingestion/extractor.py.
use agentic_analyst.Prelude.{
  ℕ, Bool, true, false, ◌||◌, List, ◌++◌, Option, none, some, Text, codes, length, ltb,
  if◌then◌else◌,
}
use agentic_analyst.Domain.Values.{Uuid, Datetime, strip, is_empty}
use agentic_analyst.Domain.Errors.{Error, url_validation, extraction_failed}
use agentic_analyst.Domain.Feeds.{ArticleCandidate, ExtractedArticle, IngestionResult}
use agentic_analyst.Store.Session.{
  Env, M, pure, raise, ask, emit, primary_extracted, fallback_extracted, now, try_except, ◌>>=◌,
  ◌>>◌,
}
use agentic_analyst.Http.Urls.{UrlLibrary, canonicalize_url}
use agentic_analyst.Ingestion.Records.{Ports, record_failure, check_duplicate}
use agentic_analyst.Ingestion.Finalize.{text_of, finalize_extracted}

-- What the extraction gives: the article, or the result of a failure that ends the ingestion.
pub data Extraction : Type 0 where
  extracted_as : ExtractedArticle → Extraction
  ended_with : IngestionResult → Extraction

-- The text is none or blank, or the body is shorter than the minimum.
unfoldable pub should_use_fallback : ExtractedArticle → ℕ → Bool
should_use_fallback extracted minimum =
    is_empty (strip (text_of extracted.title)) || ltb (length (strip extracted.text)) minimum

-- `except UrlValidationError`
abbrev pub except_url_validation {ℓ} : {A : Type ℓ} → (Error → M A) → Error → M A
except_url_validation handler (url_validation fault message) =
    handler (url_validation fault message)
except_url_validation handler x = raise x

-- `except UrlValidationError`, followed by `except Exception`
abbrev pub url_validation_or_any {ℓ} : {A : Type ℓ} → (Error → M A) → (Error → M A) → Error → M A
url_validation_or_any handler any_handler (url_validation fault message) =
    handler (url_validation fault message)
url_validation_or_any handler any_handler x = any_handler x

-- `except ExtractionFailedError: pass`
abbrev pub except_extraction_failed {ℓ} : {A : Type ℓ} → A → Error → M A
except_extraction_failed a (extraction_failed message) = pure a
except_extraction_failed a x = raise x

abbrev pub or_extracted : ExtractedArticle → Option ExtractedArticle → ExtractedArticle
or_extracted x none = x
or_extracted x (some y) = y

module _ (e : Env) (p : Ports) (u : UrlLibrary) where
  abbrev pub primary_extractor : Text → M ExtractedArticle
  primary_extractor url = emit (primary_extracted url) >> ask (p.primary_extract url)

  abbrev pub fallback_extractor : Text → M ExtractedArticle
  fallback_extractor url = emit (fallback_extracted url) >> ask (p.fallback_extract url)

  abbrev pub if_safe : Text → Bool → M (Option ExtractedArticle)
  if_safe url true = fallback_extractor url >>= λ x. pure (some x)
  if_safe url false = pure none

  unfoldable pub fallback_extractor_if_safe : Text → M (Option ExtractedArticle)
  unfolding canonicalize_url ask
  fallback_extractor_if_safe url =
      try_except (canonicalize_url u url true >> pure true)
        (except_url_validation (λ _. pure false))
      >>= if_safe url

  -- The body of the `try` statement: the primary extractor, and the fallback where its result is
  -- not usable.
  unfoldable pub extract_primary : Text → M Extraction
  unfolding ask fallback_extractor_if_safe should_use_fallback
  extract_primary url = primary_extractor url >>= λ x.
      if should_use_fallback x p.article_min_content_length
      then (try_except (fallback_extractor_if_safe url >>= λ o. pure (or_extracted x o))
            (except_extraction_failed x)
          >>= λ y. pure (extracted_as y))
      else pure (extracted_as x)

  abbrev pub required : Text → Option ExtractedArticle → M Extraction
  required url none =
      raise (extraction_failed (codes "fallback rejected re-validation for " ++ url))
  required url (some x) = pure (extracted_as x)

  -- The handler of any other exception of the primary extractor.
  unfoldable pub extract_fallback :
      ArticleCandidate → Text → Text → Datetime → Uuid → Error → M Extraction
  unfolding fallback_extractor_if_safe record_failure
  extract_fallback c url fingerprint start topic_id primary_exc =
      try_except (fallback_extractor_if_safe url >>= required url) (λ fallback_exc.
        record_failure e p c (some url) (some fingerprint) (codes "extraction_failed")
          (codes "primary extractor failed: "
            ++ (p.describe primary_exc
                ++ (codes "; fallback extractor failed: " ++ p.describe fallback_exc)))
          start topic_id
        >>= λ r. pure (ended_with r))

  -- A rejection by the primary extractor's own check of addresses ends the ingestion.
  abbrev pub reject : ArticleCandidate → Text → Text → Datetime → Uuid → Error → M Extraction
  reject c url fingerprint start topic_id x =
      record_failure e p c (some url) (some fingerprint) (codes "invalid_url") (p.describe x) start
        topic_id
      >>= λ r. pure (ended_with r)

  unfoldable pub extract_article : ArticleCandidate → Text → Text → Datetime → Uuid → M Extraction
  unfolding extract_primary extract_fallback record_failure
  extract_article c url fingerprint start topic_id = try_except (extract_primary url) (
      url_validation_or_any (reject c url fingerprint start topic_id)
        (extract_fallback c url fingerprint start topic_id))

  abbrev pub finish :
      ArticleCandidate
      → Text
      → Text
      → Datetime
      → Uuid
      → Option (List Text)
      → Extraction
      → M IngestionResult
  finish c url fingerprint start topic_id keywords (ended_with r) = pure r
  finish c url fingerprint start topic_id keywords (extracted_as x) =
      finalize_extracted e p c url fingerprint x start topic_id keywords

  abbrev pub unless_duplicate :
      ArticleCandidate
      → Text
      → Text
      → Datetime
      → Uuid
      → Option (List Text)
      → Option IngestionResult
      → M IngestionResult
  unless_duplicate c url fingerprint start topic_id keywords (some r) = pure r
  unless_duplicate c url fingerprint start topic_id keywords none =
      extract_article c url fingerprint start topic_id
      >>= finish c url fingerprint start topic_id keywords

  -- The canonical URL with its fingerprint, or the result of the failure.
  pub data Canonical : Type 0 where
    canonical_as : Text → Text → Canonical
    refused_with : IngestionResult → Canonical

  abbrev pub with_canonical :
      ArticleCandidate → Datetime → Uuid → Option (List Text) → Canonical → M IngestionResult
  with_canonical c start topic_id keywords (refused_with r) = pure r
  with_canonical c start topic_id keywords (canonical_as url fingerprint) =
      check_duplicate e p c url fingerprint start topic_id
      >>= unless_duplicate c url fingerprint start topic_id keywords

  unfoldable pub canonicalize_candidate : ArticleCandidate → Datetime → Uuid → M Canonical
  unfolding canonicalize_url record_failure
  canonicalize_candidate c start topic_id =
      try_except
        (canonicalize_url u c.url true >>= λ canonical. pure (canonical_as canonical.0 canonical.1))
        (except_url_validation (λ x.
          record_failure e p c none none (codes "invalid_url") (p.describe x) start topic_id
          >>= λ r. pure (refused_with r)))

  unfoldable pub ingest_candidate : ArticleCandidate → Uuid → Option (List Text) → M IngestionResult
  unfolding now canonicalize_candidate check_duplicate extract_article finalize_extracted
  ingest_candidate c topic_id keywords = now e >>= λ start.
      canonicalize_candidate c start topic_id >>= with_canonical c start topic_id keywords
