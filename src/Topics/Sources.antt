-- ===== src/Topics/Sources.antt =====
-- The functions on sources, feeds and attempts that only the API and the pipelines call.
use agentic_analyst.Prelude.{
  ℕ, ◌+◌, ◌*◌, Bool, true, false, not, ◌&&◌, ◌||◌, List, [], ◌∷◌, ◌++◌, Option, none, some, Text,
  codes, text_eq, text_le, select, any, take, sort_by, ltb, leb, ◌==◌, if◌then◌else◌,
}
use agentic_analyst.Domain.Values.{
  Uuid, Datetime, IngestionStatus, pending, fetched, duplicate, succeeded, failed,
}
use agentic_analyst.Domain.Errors.{
  Result, ok, err, integrity_error, ingestion_attempt_not_found, other_error,
}
use agentic_analyst.Domain.Articles.{Source}
use agentic_analyst.Domain.Feeds.{SourceFeed, IngestionAttempt}
use agentic_analyst.Store.Tables.{Db, scalar_one_or_none}
use agentic_analyst.Store.Session.{Env, M, pure, raise, query, execute, ◌>>=◌}
use agentic_analyst.Ingestion.Statements.{has_topic}
use agentic_analyst.Topics.Statements.{with_row}

abbrev pub same_source : Uuid → Text → Source → Bool
same_source topic_id stable_id x = text_eq x.stable_id stable_id && x.topic_id == topic_id

-- The primary key, the unique (topic_id, stable_id), and the reference to the topic.
unfoldable pub insert_source : Source → Db → Result (Source × Db)
insert_source source d =
    if any (λ (x : Source). x.id == source.id || same_source source.topic_id source.stable_id x)
        d.sources
      || not (has_topic source.topic_id d)
    then err integrity_error
    else ok (source, record d { sources = d.sources ++ source ∷ [] })

abbrev pub by_stable_id : Source → Source → Bool
by_stable_id a b = text_le a.stable_id b.stable_id

unfoldable pub find_source : Text → Uuid → Db → Result (Option Source)
find_source stable_id topic_id d =
    scalar_one_or_none (select (same_source topic_id stable_id) d.sources)

-- `last_polled_at.is_(None)` or due, where an interval counts minutes of 60,000,000 microseconds
abbrev pub is_due : Datetime → SourceFeed → Option Datetime → Bool
is_due moment f none = true
is_due moment f (some polled) = leb (polled + f.poll_interval_minutes * 60_000_000) moment

abbrev pub in_topic : Uuid → Db → SourceFeed → Bool
in_topic topic_id d f =
    any (λ (s : Source). s.id == f.source_id && s.topic_id == topic_id) d.sources

-- `order_by(last_polled_at.asc().nulls_first())`
abbrev pub polled_le : Option Datetime → Option Datetime → Bool
polled_le none b = true
polled_le (some a) none = false
polled_le (some a) (some b) = leb a b

unfoldable pub list_due_source_feeds : Datetime → Uuid → Db → List SourceFeed
unfolding sort_by
list_due_source_feeds moment topic_id d =
    sort_by (λ (a b : SourceFeed). polled_le a.last_polled_at b.last_polled_at)
      (select
        (λ (f : SourceFeed).
          in_topic topic_id d f && (f.enabled && is_due moment f f.last_polled_at))
        d.feeds)

abbrev pub ingestion_status_eq : IngestionStatus → IngestionStatus → Bool
ingestion_status_eq pending pending = true
ingestion_status_eq fetched fetched = true
ingestion_status_eq duplicate duplicate = true
ingestion_status_eq succeeded succeeded = true
ingestion_status_eq failed failed = true
ingestion_status_eq _ _ = false

-- `max(1, min(limit, 200))`, for a limit that is not negative
unfoldable pub clamp_limit : ℕ → ℕ
clamp_limit limit = if leb limit 0 then 1 else if ltb 200 limit then 200 else limit

abbrev pub has_status : Option IngestionStatus → IngestionAttempt → Bool
has_status none a = true
has_status (some s) a = ingestion_status_eq a.status s

unfoldable pub list_ingestion_attempts : Option IngestionStatus → ℕ → Db → List IngestionAttempt
unfolding sort_by clamp_limit
list_ingestion_attempts status limit d = take (clamp_limit limit) (
    sort_by (λ (a b : IngestionAttempt). leb b.started_at a.started_at)
      (select (has_status status) d.attempts))

-- The columns that `update_ingestion_attempt` assigns.
abbrev pub overwrite_attempt : IngestionAttempt → IngestionAttempt → IngestionAttempt
overwrite_attempt attempt row = record row {
  status = attempt.status;
  http_status = attempt.http_status;
  extractor = attempt.extractor;
  article_id = attempt.article_id;
  error_code = attempt.error_code;
  error_summary = attempt.error_summary;
  completed_at = attempt.completed_at;
}

abbrev pub assign_attempt : IngestionAttempt → List IngestionAttempt → List IngestionAttempt
assign_attempt attempt [] = []
assign_attempt attempt (x ∷ xs) =
    (if x.id == attempt.id then overwrite_attempt attempt x else x) ∷ assign_attempt attempt xs

abbrev pub written_attempt :
    IngestionAttempt → Db → Option IngestionAttempt → Result (IngestionAttempt × Db)
written_attempt attempt d none = err (other_error (codes "StaleDataError"))
written_attempt attempt d (some row) =
    ok (overwrite_attempt attempt row, record d { attempts = assign_attempt attempt d.attempts })

abbrev pub attempt_rows : Uuid → Db → List IngestionAttempt
attempt_rows id d = select (λ (a : IngestionAttempt). a.id == id) d.attempts

module _ (e : Env) where
  abbrev pub insert_missing : Source → Option Source → M Source
  insert_missing source none = execute e (insert_source source)
  insert_missing source (some row) = pure source

  -- A source is not changed once it is there.
  unfoldable pub upsert_source : Source → M Source
  unfolding query execute
  upsert_source source =
      query e (find_source source.stable_id source.topic_id) >>= insert_missing source

  unfoldable pub list_sources : M (List Source)
  unfolding query sort_by
  list_sources = query e (λ d. ok (sort_by by_stable_id d.sources))

  unfoldable pub list_sources_for_topic : Uuid → M (List Source)
  unfolding query sort_by
  list_sources_for_topic topic_id =
      query e
        (λ d. ok (sort_by by_stable_id (select (λ (s : Source). s.topic_id == topic_id) d.sources)))

  unfoldable pub get_source_by_stable_id : Text → Uuid → M (Option Source)
  unfolding query
  get_source_by_stable_id stable_id topic_id = query e (find_source stable_id topic_id)

  unfoldable pub list_source_feeds_for_source : Uuid → M (List SourceFeed)
  unfolding query sort_by
  list_source_feeds_for_source source_id = query e (λ d. ok (
      sort_by (λ (a b : SourceFeed). text_le a.feed_url b.feed_url)
        (select (λ (f : SourceFeed). f.source_id == source_id) d.feeds)))

  unfoldable pub get_source_feed_by_fingerprint : Text → Uuid → M (Option SourceFeed)
  unfolding query
  get_source_feed_by_fingerprint fingerprint source_id = query e (λ d. scalar_one_or_none (
      select
        (λ (f : SourceFeed). text_eq f.feed_url_fingerprint fingerprint && f.source_id == source_id)
        d.feeds))

  abbrev pub change_attempt : IngestionAttempt → Option IngestionAttempt → M IngestionAttempt
  change_attempt attempt none = raise ingestion_attempt_not_found
  change_attempt attempt (some row) =
      execute e
        (λ d. with_row (written_attempt attempt d) (scalar_one_or_none (attempt_rows attempt.id d)))

  unfoldable pub update_ingestion_attempt : IngestionAttempt → M IngestionAttempt
  unfolding query execute
  update_ingestion_attempt attempt =
      query e (λ d. scalar_one_or_none (attempt_rows attempt.id d)) >>= change_attempt attempt
