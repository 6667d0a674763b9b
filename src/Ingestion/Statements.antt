-- ===== src/Ingestion/Statements.antt =====
-- The functions of persistence/repositories.py that ingestion calls.
-- A unit of work that changes a loaded row writes the assigned columns in one update by the primary
-- key; an update that meets no row is an error of the library.
use agentic_analyst.Prelude.{
  Bool, true, not, ◌&&◌, ◌||◌, List, [], ◌∷◌, ◌++◌, Option, none, some, Text, codes, text_eq,
  select, any, ◌==◌, if◌then◌else◌,
}
use agentic_analyst.Domain.Values.{Uuid}
use agentic_analyst.Domain.Errors.{Result, ok, err, integrity_error, other_error}
use agentic_analyst.Domain.Articles.{Topic, Source, Article}
use agentic_analyst.Domain.Feeds.{SourceFeed, IngestionAttempt}
use agentic_analyst.Store.Tables.{Db, scalar_one_or_none}
use agentic_analyst.Store.Session.{Env, M, pure, query, execute, ◌>>=◌, ◌>>◌}

abbrev pub same_address : Uuid → Text → Article → Bool
same_address topic_id fingerprint x =
    x.topic_id == topic_id && text_eq x.url_fingerprint fingerprint

unfoldable pub find_article : Text → Uuid → Db → Result (Option Article)
find_article fingerprint topic_id d =
    scalar_one_or_none (select (same_address topic_id fingerprint) d.articles)

abbrev pub has_topic : Uuid → Db → Bool
has_topic id d = any (λ (t : Topic). t.id == id) d.topics

abbrev pub has_source : Option Uuid → Db → Bool
has_source none d = true
has_source (some id) d = any (λ (s : Source). s.id == id) d.sources

abbrev pub has_feed : Option Uuid → Db → Bool
has_feed none d = true
has_feed (some id) d = any (λ (f : SourceFeed). f.id == id) d.feeds

abbrev pub article_clash : Article → Article → Bool
article_clash article x =
    x.id == article.id || same_address article.topic_id article.url_fingerprint x

-- The insertion of an article: the primary key, the unique (topic_id, url_fingerprint), and the
-- references to the topic and, since the first migration, to the source.
unfoldable pub insert_article : Article → Db → Result (Article × Db)
insert_article article d =
    if any (article_clash article) d.articles
      || not (has_topic article.topic_id d && has_source article.source_id d)
    then err integrity_error
    else ok (article, record d { articles = d.articles ++ article ∷ [] })

-- The insertion of an attempt: the primary key and three references.
unfoldable pub insert_attempt : IngestionAttempt → Db → Result (IngestionAttempt × Db)
insert_attempt attempt d =
    if any (λ (x : IngestionAttempt). x.id == attempt.id) d.attempts
      || not (
          has_topic attempt.topic_id d
          && (has_source attempt.source_id d && has_feed attempt.source_feed_id d))
    then err integrity_error
    else ok (attempt, record d { attempts = d.attempts ++ attempt ∷ [] })

abbrev pub same_feed : SourceFeed → SourceFeed → Bool
same_feed feed x =
    text_eq x.feed_url_fingerprint feed.feed_url_fingerprint && x.source_id == feed.source_id

unfoldable pub insert_feed : SourceFeed → Db → Result (SourceFeed × Db)
insert_feed feed d =
    if any (λ (x : SourceFeed). x.id == feed.id || same_feed feed x) d.feeds
      || not (has_source (some feed.source_id) d)
    then err integrity_error
    else ok (feed, record d { feeds = d.feeds ++ feed ∷ [] })

-- The columns that `upsert_source_feed` assigns.
abbrev pub overwrite_feed : SourceFeed → SourceFeed → SourceFeed
overwrite_feed feed row = record row {
  enabled = feed.enabled;
  poll_interval_minutes = feed.poll_interval_minutes;
  etag = feed.etag;
  last_modified = feed.last_modified;
  last_polled_at = feed.last_polled_at;
  last_success_at = feed.last_success_at;
  last_error_summary = feed.last_error_summary;
  updated_at = feed.updated_at;
}

abbrev pub assign_feed : Uuid → SourceFeed → List SourceFeed → List SourceFeed
assign_feed id feed [] = []
assign_feed id feed (x ∷ xs) =
    (if x.id == id then overwrite_feed feed x else x) ∷ assign_feed id feed xs

unfoldable pub update_feed : Uuid → SourceFeed → Db → Result (Unit {0} × Db)
update_feed id feed d =
    if any (λ (x : SourceFeed). x.id == id) d.feeds
    then ok (tt, record d { feeds = assign_feed id feed d.feeds })
    else err (other_error (codes "StaleDataError"))

module _ (e : Env) where
  unfoldable pub get_article_by_fingerprint : Text → Uuid → M (Option Article)
  unfolding query
  get_article_by_fingerprint fingerprint topic_id = query e (find_article fingerprint topic_id)

  unfoldable pub save_article : Article → M Article
  unfolding execute
  save_article article = execute e (insert_article article)

  unfoldable pub record_ingestion_attempt : IngestionAttempt → M IngestionAttempt
  unfolding execute
  record_ingestion_attempt attempt = execute e (insert_attempt attempt)

  abbrev pub write_feed : SourceFeed → Option SourceFeed → M (Unit {0})
  write_feed feed none = execute e (insert_feed feed) >> pure tt
  write_feed feed (some row) = execute e (update_feed row.id feed)

  unfoldable pub upsert_source_feed : SourceFeed → M (Unit {0})
  unfolding query execute
  upsert_source_feed feed =
      query e (λ d. scalar_one_or_none (select (same_feed feed) d.feeds)) >>= write_feed feed

  unfoldable pub get_topic : Uuid → M (Option Topic)
  unfolding query
  get_topic topic_id =
      query e (λ d. scalar_one_or_none (select (λ (t : Topic). t.id == topic_id) d.topics))

  unfoldable pub get_sources_by_ids : List Uuid → M (List Source)
  unfolding query
  get_sources_by_ids [] = pure []
  get_sources_by_ids (id ∷ ids) =
      query e (λ d. ok (select (λ (s : Source). any (λ i. i == s.id) (id ∷ ids)) d.sources))
