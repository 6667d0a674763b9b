-- ===== src/Ingestion/Finalize.antt =====
-- `_finalize_extracted` of ingestion/service.py
use agentic_analyst.Prelude.{
  Bool, false, not, List, [], ◌∷◌, ◌++◌, Option, none, some, Text, codes, length, ltb,
  if◌then◌else◌,
}
use agentic_analyst.Domain.Values.{
  Uuid, Datetime, IngestionStatus, duplicate, succeeded, failed, strip, is_empty, is_blank, or_text,
  or_moment,
}
use agentic_analyst.Domain.Errors.{Error, integrity_error, value_error}
use agentic_analyst.Domain.Articles.{Article}
use agentic_analyst.Domain.Feeds.{ArticleCandidate, ExtractedArticle, IngestionResult}
use agentic_analyst.Store.Session.{
  Env, M, pure, raise, now, uuid4, session_scope, try_except, ◌>>=◌, ◌>>◌,
}
use agentic_analyst.Ingestion.Statements.{
  get_article_by_fingerprint, save_article, record_ingestion_attempt,
}
use agentic_analyst.Ingestion.Records.{Ports, attempt_of, result_of, record_failure}

abbrev pub text_of : Option Text → Text
text_of none = []
text_of (some t) = t

abbrev pub winner_id : Option Article → Option Uuid
winner_id none = none
winner_id (some winner) = some winner.id

abbrev pub race_status : Option Uuid → IngestionStatus
race_status none = failed
race_status (some id) = duplicate

abbrev pub race_code : Option Uuid → Option Text
race_code none = some (codes "race_reload_failed")
race_code (some id) = none

abbrev pub race_summary : Option Uuid → Option Text
race_summary none = some (codes "unique constraint violated but no winning article found on reload")
race_summary (some id) = none

module _ (e : Env) (p : Ports) where
  -- `keywords is not None and not self._is_relevant(keywords, cleaned_text)`
  abbrev pub is_off_topic : Option (List Text) → Text → Bool
  is_off_topic none text = false
  is_off_topic (some keywords) text = not (p.is_relevant keywords (some text ∷ []))

  abbrev pub article_of :
      ArticleCandidate
      → Text
      → Text
      → ExtractedArticle
      → Uuid
      → Text
      → Datetime
      → Text
      → Uuid
      → Datetime
      → Article
  article_of c url fingerprint extracted topic_id title published text id ingested = record {
    id = id;
    topic_id = topic_id;
    source_id = c.source_id;
    url = url;
    url_fingerprint = fingerprint;
    title = title;
    author = or_text c.author extracted.author;
    published_at = published;
    ingested_at = ingested;
    language = extracted.language;
    raw_content_hash = some extracted.raw_content_hash;
    cleaned_content = some text;
  }

  -- The validator of an article's fingerprint.
  unfoldable pub validated : Article → M Article
  unfolding is_blank
  validated article = if is_blank article.url_fingerprint then raise value_error else pure article

  -- The article that is built.
  unfoldable pub new_article :
      ArticleCandidate → Text → Text → ExtractedArticle → Uuid → Text → Datetime → Text → M Article
  unfolding uuid4 now validated
  new_article c url fingerprint extracted topic_id title published text = uuid4 e >>= λ id.
      now e >>= λ ingested.
      validated (article_of c url fingerprint extracted topic_id title published text id ingested)

  -- The session that stores the article with its attempt.
  unfoldable pub store_article :
      ArticleCandidate → ExtractedArticle → Datetime → Article → M IngestionResult
  unfolding save_article record_ingestion_attempt session_scope now uuid4
  store_article c extracted start article =
      session_scope (
        save_article e article
        >> (now e >>= λ end. uuid4 e >>= λ id. record_ingestion_attempt e (
            attempt_of e p c article.topic_id (some article.url) (some article.url_fingerprint)
              succeeded (some extracted.extractor) (some article.id) none none start end id)))
      >> pure (result_of e p c succeeded (some article.id) none none)

  -- The session that an IntegrityError leads to.
  unfoldable pub store_loser : ArticleCandidate → Text → Text → Datetime → Uuid → M IngestionResult
  unfolding get_article_by_fingerprint record_ingestion_attempt session_scope now uuid4
  store_loser c url fingerprint start topic_id =
      session_scope (
        get_article_by_fingerprint e fingerprint topic_id >>= λ winner. now e >>= λ end.
        uuid4 e >>= λ id.
        let won = winner_id winner in
        record_ingestion_attempt e (
          attempt_of e p c topic_id (some url) (some fingerprint) (race_status won) none won
            (race_code won) none start end id)
        >> pure won)
      >>= λ won. pure (result_of e p c (race_status won) won (race_code won) (race_summary won))

  -- `except IntegrityError`
  abbrev pub on_integrity_error : M IngestionResult → Error → M IngestionResult
  on_integrity_error handler integrity_error = handler
  on_integrity_error handler x = raise x

  unfoldable pub save_extracted :
      ArticleCandidate
      → Text
      → Text
      → ExtractedArticle
      → Datetime
      → Uuid
      → Text
      → Datetime
      → Text
      → M IngestionResult
  unfolding new_article store_article store_loser
  save_extracted c url fingerprint extracted start topic_id title published text =
      new_article c url fingerprint extracted topic_id title published text >>= λ article.
      try_except (store_article c extracted start article)
        (on_integrity_error (store_loser c url fingerprint start topic_id))

  -- The checks that follow the publication time.
  abbrev pub with_published :
      ArticleCandidate
      → Text
      → Text
      → ExtractedArticle
      → Datetime
      → Uuid
      → Option (List Text)
      → Text
      → Option Datetime
      → M IngestionResult
  with_published c url fingerprint extracted start topic_id keywords title none =
      record_failure e p c (some url) (some fingerprint) (codes "missing_published_at")
        (codes "no reliable publication time from feed or page metadata") start topic_id
  with_published c url fingerprint extracted start topic_id keywords title (some published) =
      let text = strip extracted.text in
      if ltb (length text) p.article_min_content_length
      then record_failure e p c (some url) (some fingerprint) (codes "content_too_short")
          (codes "cleaned content length "
            ++ (p.show (length text)
                ++ (codes " below minimum " ++ p.show p.article_min_content_length)))
          start topic_id
      else if is_off_topic keywords text
      then record_failure e p c (some url) (some fingerprint) (codes "not_relevant")
          (codes "extracted content did not match topic keywords") start topic_id
      else save_extracted c url fingerprint extracted start topic_id title published text

  unfoldable pub finalize_extracted :
      ArticleCandidate
      → Text
      → Text
      → ExtractedArticle
      → Datetime
      → Uuid
      → Option (List Text)
      → M IngestionResult
  unfolding record_failure save_extracted
  finalize_extracted c url fingerprint extracted start topic_id keywords =
      let title = strip (text_of extracted.title) in
      if is_empty title
      then record_failure e p c (some url) (some fingerprint) (codes "missing_title")
          (codes "extracted title is empty") start topic_id
      else with_published c url fingerprint extracted start topic_id keywords title
          (or_moment c.published_at extracted.published_at)
