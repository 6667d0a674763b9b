-- ===== src/Api/Sources.antt =====
-- The handlers of sources and of ingestion attempts.
use agentic_analyst.Prelude.{
  ℕ, zero, suc, Bool, true, ◌||◌, ◌==◌, List, [], ◌∷◌, Option, none, some, Text, codes, text_eq,
  if◌then◌else◌,
}
use agentic_analyst.Domain.Values.{
  Uuid, IngestionStatus, pending, fetched, duplicate, succeeded, failed, is_blank,
}
use agentic_analyst.Domain.Errors.{
  Error, Result, ok, err, value_error, url_validation, http_exception,
}
use agentic_analyst.Domain.Articles.{Source}
use agentic_analyst.Domain.Feeds.{SourceFeed, IngestionAttempt}
use agentic_analyst.Store.Session.{
  Env, M, lift, pure, raise, try_except, now, uuid4, query, session_scope, ◌>>=◌, ◌>>◌,
}
use agentic_analyst.Http.Urls.{UrlLibrary, canonicalize_url}
use agentic_analyst.Ingestion.Statements.{upsert_source_feed}
use agentic_analyst.Topics.Sources.{
  upsert_source, get_source_by_stable_id, list_source_feeds_for_source, list_sources,
  list_sources_for_topic, list_ingestion_attempts,
}

-- An interval is not negative here.
pub record RegisterFeedRequest : Type 0 where
  pub feed_url : Text
  pub enabled : Bool
  pub poll_interval_minutes : Option ℕ

pub record RegisterSourceRequest : Type 0 where
  pub stable_id : Text
  pub name : Text
  pub normalized_domain : Text
  pub topic_id : Uuid
  pub feeds : List RegisterFeedRequest

-- `feed_req.poll_interval_minutes or settings.default_poll_interval_minutes`
abbrev pub interval_or : ℕ → Option ℕ → ℕ
interval_or default_interval none = default_interval
interval_or default_interval (some zero) = default_interval
interval_or default_interval (some (suc n)) = suc n

-- The validators of SourceFeed.
unfoldable pub checked_feed : SourceFeed → Result SourceFeed
checked_feed feed =
    if feed.poll_interval_minutes == 0 || is_blank feed.feed_url_fingerprint
    then err value_error
    else ok feed

abbrev pub except_url : {A : Type 0} → Error → M A
except_url (url_validation fault message) = raise (http_exception 422 message)
except_url x = raise x

-- `if persisted is None`
abbrev pub or_500 : Option Source → M Source
or_500 none = raise (http_exception 500 (codes "source persistence failed"))
or_500 (some source) = pure source

-- `IngestionStatus(status)`
unfoldable pub parse_status : Text → Option IngestionStatus
parse_status text =
    if text_eq text (codes "pending")
    then some pending
    else if text_eq text (codes "fetched")
    then some fetched
    else if text_eq text (codes "duplicate")
    then some duplicate
    else if text_eq text (codes "succeeded")
    then some succeeded
    else if text_eq text (codes "failed")
    then some failed
    else none

unfoldable pub parse_status_filter : Option Text → Result (Option IngestionStatus)
parse_status_filter none = ok none
parse_status_filter (some text) = elim (parse_status text) [
  | none ↦ err (http_exception 422 (codes "unknown status"))
  | some status ↦ ok (some status)
]

module _ (u : UrlLibrary) where
  -- The first loop of `register_source`, which ends at the first URL that is refused.
  unfoldable pub canonical_feeds :
      List RegisterFeedRequest → M (List (RegisterFeedRequest × Text × Text))
  canonical_feeds [] = pure []
  canonical_feeds (feed ∷ feeds) =
      try_except (canonicalize_url u feed.feed_url true) except_url >>= λ canonical.
      canonical_feeds feeds >>= λ others. pure ((feed, canonical.0, canonical.1) ∷ others)

module _ (e : Env) where
  unfoldable pub save_feed : ℕ → Uuid → RegisterFeedRequest × Text × Text → M (Unit {0})
  save_feed default_interval source_id (feed, url, fingerprint) = do
    id ← uuid4 e
    created_at ← now e
    updated_at ← now e
    checked ← lift (
        checked_feed (record {
          id = id;
          source_id = source_id;
          feed_url = url;
          feed_url_fingerprint = fingerprint;
          enabled = feed.enabled;
          poll_interval_minutes = interval_or default_interval feed.poll_interval_minutes;
          etag = none;
          last_modified = none;
          last_polled_at = none;
          last_success_at = none;
          last_error_summary = none;
          created_at = created_at;
          updated_at = updated_at;
        }))
    upsert_source_feed e checked

  -- The second loop of `register_source`.
  unfoldable pub save_feeds : ℕ → Uuid → List (RegisterFeedRequest × Text × Text) → M (Unit {0})
  save_feeds default_interval source_id [] = pure tt
  save_feeds default_interval source_id (feed ∷ feeds) =
      save_feed default_interval source_id feed >> save_feeds default_interval source_id feeds

  unfoldable pub register_source :
      UrlLibrary → ℕ → RegisterSourceRequest → M (Source × List SourceFeed)
  register_source u default_interval req = do
    feeds ← canonical_feeds u req.feeds
    id ← uuid4 e
    created_at ← now e
    session_scope (do
      upsert_source e (record {
        id = id;
        topic_id = req.topic_id;
        stable_id = req.stable_id;
        name = req.name;
        normalized_domain = req.normalized_domain;
        created_at = created_at;
      })
      found ← get_source_by_stable_id e req.stable_id req.topic_id
      persisted ← or_500 found
      save_feeds default_interval persisted.id feeds
      stored ← list_source_feeds_for_source e persisted.id
      pure (persisted, stored))

  -- The loop of `get_sources` and of `get_topic_sources`.
  unfoldable pub with_feeds : List Source → M (List (Source × List SourceFeed))
  with_feeds [] = pure []
  with_feeds (source ∷ sources) = list_source_feeds_for_source e source.id >>= λ feeds.
      with_feeds sources >>= λ others. pure ((source, feeds) ∷ others)

  unfoldable pub get_sources : M (List (Source × List SourceFeed))
  get_sources = session_scope (list_sources e >>= with_feeds)

  unfoldable pub get_topic_sources : Uuid → M (List (Source × List SourceFeed))
  get_topic_sources topic_id = session_scope (list_sources_for_topic e topic_id >>= with_feeds)

  -- `get_ingestion_attempts`, for a limit that is not negative.
  unfoldable pub get_ingestion_attempts : Option Text → ℕ → M (List IngestionAttempt)
  get_ingestion_attempts status limit = do
    parsed ← lift (parse_status_filter status)
    session_scope (query e (λ d. ok (list_ingestion_attempts parsed limit d)))
