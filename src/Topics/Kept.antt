-- ===== src/Topics/Kept.antt =====
-- The functions on topics, sources, articles and attempts keep the references to topics.
use agentic_analyst.Prelude.{ℕ, Bool, true, false, Bool-cases, inl, inr, Option, none, some}
use agentic_analyst.Domain.Values.{Uuid}
use agentic_analyst.Domain.Errors.{Error, ok, topic_not_found, topic_in_use, value_error}
use agentic_analyst.Domain.Articles.{Topic, Source, Article, keywords_allowed}
use agentic_analyst.Domain.Feeds.{IngestionAttempt}
use agentic_analyst.Store.Tables.{Db, scalar_one_or_none}
use agentic_analyst.Store.Session.{Env, pure, raise, query, execute, now}
use agentic_analyst.Store.Keeps.{Keeps, Keeps-bind, Keeps-query, Keeps-execute, Keeps-now}
use agentic_analyst.Ingestion.Statements.{
  get_topic, insert_article, insert_attempt, save_article, record_ingestion_attempt,
}
use agentic_analyst.Topics.Statements.{
  create_topic, update_topic, update_row, delete_topic, delete_row, delete_unused, write_topic,
  insert_topic, remove_topic, refers_to, topic_rows,
}
use agentic_analyst.Topics.Sources.{find_source, upsert_source, insert_missing, insert_source}
use agentic_analyst.Topics.References.{
  HasTopics, insert_topic-HasTopics, write_topic-HasTopics, remove_topic-HasTopics,
  insert_source-HasTopics, insert_article-HasTopics, insert_attempt-HasTopics,
}

Keeps-raise : {A : Type 0} (x : Error) → Keeps HasTopics (raise {A = A} x)
Keeps-raise x = record { run = λ w h. h }

Keeps-pure : {A : Type 0} (a : A) → Keeps HasTopics (pure a)
Keeps-pure a = record { run = λ w h. h }

module _ (e : Env) (others : (n : ℕ) (d : Db) → HasTopics d → HasTopics (e.others n d)) where
  get_topic-Keeps : (id : Uuid) → Keeps HasTopics (get_topic e id)
  unfolding get_topic
  get_topic-Keeps id = Keeps-query HasTopics e others (λ d. scalar_one_or_none (topic_rows id d))

  create_topic-Keeps : (topic : Topic) → Keeps HasTopics (create_topic e topic)
  unfolding create_topic
  create_topic-Keeps topic =
      Keeps-execute HasTopics e others (insert_topic topic) (insert_topic-HasTopics topic)

  update_row-Keeps : (topic : Topic) (o : Option Topic) → Keeps HasTopics (update_row e topic o)
  update_row-Keeps topic none = Keeps-raise topic_not_found
  update_row-Keeps topic (some row) = elim (Bool-cases (keywords_allowed topic.keywords)) [
    | inl allowed ↦ rw allowed (
        Keeps-bind HasTopics (now e) (λ t. execute e (write_topic topic t))
          (Keeps-now HasTopics e others)
          (λ t.
            Keeps-execute HasTopics e others (write_topic topic t) (write_topic-HasTopics topic t)))
    | inr refused ↦ rw refused (Keeps-raise value_error)
  ]

  update_topic-Keeps : (topic : Topic) → Keeps HasTopics (update_topic e topic)
  unfolding update_topic
  update_topic-Keeps topic =
      Keeps-bind HasTopics (get_topic e topic.id) (update_row e topic) (get_topic-Keeps topic.id)
        (update_row-Keeps topic)

  delete_unused-Keeps : (id : Uuid) (b : Bool) → Keeps HasTopics (delete_unused e id b)
  delete_unused-Keeps id true = Keeps-raise topic_in_use
  delete_unused-Keeps id false =
      Keeps-execute HasTopics e others (remove_topic id) (remove_topic-HasTopics id)

  delete_row-Keeps : (id : Uuid) (o : Option Topic) → Keeps HasTopics (delete_row e id o)
  delete_row-Keeps id none = Keeps-raise topic_not_found
  delete_row-Keeps id (some row) =
      Keeps-bind HasTopics (query e (λ d. ok (refers_to id d))) (delete_unused e id)
        (Keeps-query HasTopics e others (λ d. ok (refers_to id d))) (delete_unused-Keeps id)

  delete_topic-Keeps : (id : Uuid) → Keeps HasTopics (delete_topic e id)
  unfolding delete_topic
  delete_topic-Keeps id =
      Keeps-bind HasTopics (get_topic e id) (delete_row e id) (get_topic-Keeps id)
        (delete_row-Keeps id)

  insert_missing-Keeps :
      (source : Source) (o : Option Source) → Keeps HasTopics (insert_missing e source o)
  insert_missing-Keeps source none =
      Keeps-execute HasTopics e others (insert_source source) (insert_source-HasTopics source)
  insert_missing-Keeps source (some row) = Keeps-pure source

  upsert_source-Keeps : (source : Source) → Keeps HasTopics (upsert_source e source)
  unfolding upsert_source
  upsert_source-Keeps source =
      Keeps-bind HasTopics (query e (find_source source.stable_id source.topic_id))
        (insert_missing e source)
        (Keeps-query HasTopics e others (find_source source.stable_id source.topic_id))
        (insert_missing-Keeps source)

-- If every source, article, brief and attempt belongs to a topic that is there, and what other
-- sessions commit between the statements keeps that, then each of `create_topic`, `update_topic`,
-- `delete_topic`, `upsert_source`, `save_article` and `record_ingestion_attempt` keeps it on every
-- path, also when the session is rolled back.
pub writes-HasTopics :
    (e : Env) (topic : Topic) (id : Uuid) (source : Source) (article : Article)
    (attempt : IngestionAttempt)
    → ((n : ℕ) (d : Db) → HasTopics d → HasTopics (e.others n d))
    → Keeps HasTopics (create_topic e topic)
      × Keeps HasTopics (update_topic e topic)
      × Keeps HasTopics (delete_topic e id)
      × Keeps HasTopics (upsert_source e source)
      × Keeps HasTopics (save_article e article)
      × Keeps HasTopics (record_ingestion_attempt e attempt)
unfolding save_article record_ingestion_attempt
writes-HasTopics e topic id source article attempt others = (
  create_topic-Keeps e others topic,
  update_topic-Keeps e others topic,
  delete_topic-Keeps e others id,
  upsert_source-Keeps e others source,
  Keeps-execute HasTopics e others (insert_article article) (insert_article-HasTopics article),
  Keeps-execute HasTopics e others (insert_attempt attempt) (insert_attempt-HasTopics attempt),
)
