-- ===== src/Topics/Tests.antt =====
-- Topics in a small database, and the theorems on them there.
use agentic_analyst.Prelude.{
  ◌≡◌, ◌≤◌, refl, true, false, ◌↔◌, List, [], ◌∷◌, none, some, Option, Text, codes, length, ◌==◌,
  Exists,
}
use agentic_analyst.Prelude.Reflection.{Lists}
use agentic_analyst.Domain.Errors.{err, topic_in_use}
use agentic_analyst.Domain.Feeds.{IngestionAttempt}
use agentic_analyst.Domain.Values.{failed, primary_http}
use agentic_analyst.Store.Keeps.{Keeps}
use agentic_analyst.Store.Alone.{alone}
use agentic_analyst.Store.Session.{session_scope}
use agentic_analyst.Store.Tables.{empty_db}
use agentic_analyst.Briefs.Queries.{list_eligible_batch_summaries_for_window}
use agentic_analyst.Ingestion.Statements.{save_article, record_ingestion_attempt}
use agentic_analyst.Topics.Statements.{create_topic, update_topic, delete_topic}
use agentic_analyst.Topics.Sources.{upsert_source, list_due_source_feeds, list_ingestion_attempts}
use agentic_analyst.Topics.References.{HasTopics}
use agentic_analyst.Topics.Kept.{writes-HasTopics}
use agentic_analyst.Topics.Matcher.{matches, search_from, stands_at, is_word}
use agentic_analyst.Topics.Relevance.{OccursIn, matches_iff}
use agentic_analyst.Topics.Listings.{
  IsDueFeed, HasArticleWithin, polled_before, list_due_source_feeds-Lists, created_before,
  list_eligible_batch_summaries-Lists, list_ingestion_attempts_bound,
}
use agentic_analyst.Topics.Deletion.{Deletion, delete_topic-Deletion}
use agentic_analyst.Samples.{idle, world_of, topic, source, article, archive}

abbrev attempt : IngestionAttempt
attempt = record {
  id = 60;
  topic_id = 7;
  source_id = none;
  source_feed_id = none;
  requested_url = codes "u";
  canonical_url = none;
  url_fingerprint = none;
  status = failed;
  http_status = none;
  extractor = some primary_http;
  article_id = none;
  error_code = none;
  error_summary = none;
  started_at = 1;
  completed_at = none;
}

writes-HasTopics_example :
    Keeps HasTopics (create_topic idle topic)
    × Keeps HasTopics (update_topic idle topic)
    × Keeps HasTopics (delete_topic idle 7)
    × Keeps HasTopics (upsert_source idle source)
    × Keeps HasTopics (save_article idle article)
    × Keeps HasTopics (record_ingestion_attempt idle attempt)
writes-HasTopics_example = writes-HasTopics idle topic 7 source article attempt (λ n d h. h)

delete_topic-Deletion_example :
    Deletion 7 archive
      (session_scope (delete_topic (alone idle) 7) (world_of archive)).0
      (session_scope (delete_topic (alone idle) 7) (world_of archive)).1.db
delete_topic-Deletion_example = delete_topic-Deletion idle 7 (world_of archive) refl

-- A topic with a source is not deleted.
used_test : (session_scope (delete_topic (alone idle) 7) (world_of archive)).0 ≡ err topic_in_use
unfolding session_scope delete_topic agentic_analyst.Ingestion.Statements.get_topic
    agentic_analyst.Store.Session.query agentic_analyst.Store.Session.observe
    agentic_analyst.Store.Tables.scalar_one_or_none
used_test = refl

abbrev keywords : List Text
keywords = codes "war" ∷ []

abbrev headline : List (Option Text)
headline = none ∷ some (codes "The war is over") ∷ []

matches_iff_example :
    (matches (λ a b. a == b) keywords headline ≡ true)
    ↔ Exists (λ keyword. Exists (OccursIn (λ a b. a == b) keyword) headline) keywords
matches_iff_example = matches_iff (λ a b. a == b) keywords headline

-- `war` is found as a word, and not in `Warsaw` or `wars`.
match_tests :
    (matches (λ a b. a == b) keywords headline ≡ true)
    × (matches (λ a b. a == b) keywords (some (codes "wars") ∷ []) ≡ false)
unfolding matches search_from stands_at is_word
match_tests = (refl, refl)

list_due_source_feeds-Lists_example :
    Lists polled_before (IsDueFeed 9 7 archive) archive.feeds (list_due_source_feeds 9 7 archive)
list_due_source_feeds-Lists_example = list_due_source_feeds-Lists 9 7 archive

list_eligible_batch_summaries-Lists_example :
    Lists created_before
      (HasArticleWithin 1 7 7 archive)
      archive.summaries
      (list_eligible_batch_summaries_for_window 1 7 7 archive)
list_eligible_batch_summaries-Lists_example = list_eligible_batch_summaries-Lists 1 7 7 archive

list_ingestion_attempts_bound_example : length (list_ingestion_attempts none 900 archive) ≤ 200
list_ingestion_attempts_bound_example = list_ingestion_attempts_bound none 900 archive
