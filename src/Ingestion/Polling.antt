-- ===== src/Ingestion/Polling.antt =====
-- `poll_feed` of ingestion/service.py, and what only it calls.
use agentic_analyst.Prelude.{not, List, [], ◌∷◌, Option, none, some, Text, codes, if◌then◌else◌}
use agentic_analyst.Domain.Values.{Uuid, Datetime, or_text}
use agentic_analyst.Domain.Errors.{Error, retryable_feed, terminal_feed, feed_parse, runtime_error}
use agentic_analyst.Domain.Articles.{Topic, Source}
use agentic_analyst.Domain.Feeds.{ArticleCandidate, FeedFetchResult, IngestionResult, SourceFeed}
use agentic_analyst.Store.Session.{
  Env, M, pure, raise, lift, now, session_scope, try_except, ◌>>=◌, ◌>>◌,
}
use agentic_analyst.Http.Urls.{UrlLibrary}
use agentic_analyst.Ingestion.Statements.{get_sources_by_ids, get_topic, upsert_source_feed}
use agentic_analyst.Ingestion.Records.{Ports, failure_summary_from_exception, record_failure}
use agentic_analyst.Ingestion.Finalize.{text_of}
use agentic_analyst.Ingestion.Candidate.{ingest_candidate}
use agentic_analyst.Ingestion.Direct.{unexpected}

module _ (e : Env) (p : Ports) (u : UrlLibrary) where
  abbrev pub topic_of_source : Option Topic → M (Uuid × List Text)
  topic_of_source none = raise runtime_error
  topic_of_source (some topic) = pure (topic.id, topic.keywords)

  abbrev pub first_source : List Source → M (Uuid × List Text)
  first_source [] = raise runtime_error
  first_source (source ∷ sources) = get_topic e source.topic_id >>= topic_of_source

  unfoldable pub resolve_feed_topic : SourceFeed → M (Uuid × List Text)
  unfolding get_sources_by_ids get_topic session_scope
  resolve_feed_topic feed =
      session_scope (get_sources_by_ids e (feed.source_id ∷ []) >>= first_source)

  unfoldable pub update_feed_on_failure : SourceFeed → Datetime → Error → M (Unit {0})
  unfolding upsert_source_feed session_scope failure_summary_from_exception
  update_feed_on_failure feed t x = session_scope (
      upsert_source_feed e (record feed {
        last_polled_at = some t;
        last_error_summary = some (failure_summary_from_exception e p x);
        updated_at = t;
      }))

  unfoldable pub update_feed_on_not_modified : SourceFeed → Datetime → M (Unit {0})
  unfolding upsert_source_feed session_scope
  update_feed_on_not_modified feed t = session_scope (
      upsert_source_feed e (record feed {
        last_polled_at = some t;
        last_success_at = some t;
        last_error_summary = none;
        updated_at = t;
      }))

  -- The update of a feed that was fetched and parsed.
  unfoldable pub update_feed_on_success : SourceFeed → Datetime → FeedFetchResult → M (Unit {0})
  unfolding upsert_source_feed session_scope
  update_feed_on_success feed t fetched = session_scope (
      upsert_source_feed e (record feed {
        last_polled_at = some t;
        last_success_at = some t;
        etag = or_text fetched.etag feed.etag;
        last_modified = or_text fetched.last_modified feed.last_modified;
        last_error_summary = none;
        updated_at = t;
      }))

  -- `except (RetryableFeedError, TerminalFeedError)`
  abbrev pub except_feed_error {ℓ} : {A : Type ℓ} → (Error → M A) → Error → M A
  except_feed_error handler (retryable_feed message) = handler (retryable_feed message)
  except_feed_error handler (terminal_feed message) = handler (terminal_feed message)
  except_feed_error handler x = raise x

  -- `except FeedParseError`
  abbrev pub except_parse_error {ℓ} : {A : Type ℓ} → (Error → M A) → Error → M A
  except_parse_error handler (feed_parse message) = handler (feed_parse message)
  except_parse_error handler x = raise x

  -- One turn of the loop over the candidates.
  unfoldable pub poll_candidate : Datetime → Uuid → List Text → ArticleCandidate → M IngestionResult
  unfolding record_failure ingest_candidate
  poll_candidate t topic_id keywords c =
      if not (p.is_relevant keywords (c.title ∷ c.summary ∷ []))
      then record_failure e p c none none (codes "not_relevant")
          (codes "candidate title/summary did not match topic keywords") t topic_id
      else try_except (ingest_candidate e p u c topic_id (some keywords))
          (λ _. pure (unexpected e p u c (codes "unexpected error while ingesting feed candidate")))

  unfoldable pub poll_candidates :
      Datetime → Uuid → List Text → List ArticleCandidate → M (List IngestionResult)
  unfolding poll_candidate
  poll_candidates t topic_id keywords [] = pure []
  poll_candidates t topic_id keywords (c ∷ cs) = poll_candidate t topic_id keywords c >>= λ r.
      poll_candidates t topic_id keywords cs >>= λ rs. pure (r ∷ rs)

  abbrev pub with_candidates :
      SourceFeed
      → Datetime
      → Uuid × List Text
      → FeedFetchResult
      → Option (List ArticleCandidate)
      → M (List IngestionResult)
  with_candidates feed t topic fetched none = pure []
  with_candidates feed t topic fetched (some cs) =
      update_feed_on_success feed t fetched >> poll_candidates t topic.0 topic.1 cs

  abbrev pub with_fetched :
      SourceFeed → Datetime → Uuid × List Text → Option FeedFetchResult → M (List IngestionResult)
  with_fetched feed t topic none = pure []
  with_fetched feed t topic (some fetched) =
      if fetched.not_modified
      then update_feed_on_not_modified feed t >> pure []
      else (try_except
            (lift (p.parse_feed (text_of fetched.raw_bytes) feed.feed_url feed.source_id feed.id)
              >>= λ cs. pure (some cs))
            (except_parse_error (λ x. update_feed_on_failure feed t x >> pure none))
          >>= with_candidates feed t topic fetched)

  unfoldable pub poll_feed : SourceFeed → M (List IngestionResult)
  unfolding now resolve_feed_topic update_feed_on_failure update_feed_on_not_modified
      update_feed_on_success poll_candidates
  poll_feed feed = now e >>= λ t. resolve_feed_topic feed >>= λ topic.
      try_except (p.fetch feed.feed_url feed.etag feed.last_modified >>= λ r. pure (some r))
        (except_feed_error (λ x. update_feed_on_failure feed t x >> pure none))
      >>= with_fetched feed t topic
