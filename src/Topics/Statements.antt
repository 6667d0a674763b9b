-- ===== src/Topics/Statements.antt =====
-- `create_topic`, `list_topics`, `update_topic` and `delete_topic`.
use agentic_analyst.Prelude.{
  Bool, not, ◌&&◌, ◌||◌, List, [], ◌∷◌, ◌++◌, Option, none, some, codes, text_eq, text_le, select,
  any, sort_by, leb, ◌==◌, if◌then◌else◌,
}
use agentic_analyst.Domain.Values.{Uuid, Datetime}
use agentic_analyst.Domain.Errors.{
  Result, ok, err, value_error, integrity_error, topic_not_found, topic_in_use, other_error,
}
use agentic_analyst.Domain.Articles.{Topic, Source, Article, keywords_allowed}
use agentic_analyst.Domain.Briefs.{Brief}
use agentic_analyst.Domain.Feeds.{IngestionAttempt}
use agentic_analyst.Store.Tables.{Db, scalar_one_or_none}
use agentic_analyst.Store.Session.{Env, M, raise, query, execute, now, ◌>>=◌}
use agentic_analyst.Ingestion.Statements.{get_topic}

unfoldable pub insert_topic : Topic → Db → Result (Topic × Db)
insert_topic topic d =
    if any (λ (t : Topic). t.id == topic.id) d.topics
    then err integrity_error
    else ok (topic, record d { topics = d.topics ++ topic ∷ [] })

-- `order_by(name.asc(), id.asc())`
abbrev pub by_name : Topic → Topic → Bool
by_name a b = text_le a.name b.name && (not (text_eq a.name b.name) || leb a.id b.id)

-- The columns that `update_topic` assigns.
abbrev pub overwrite_topic : Topic → Datetime → Topic → Topic
overwrite_topic topic t row = record row {
  name = topic.name;
  description = topic.description;
  interest_detail = topic.interest_detail;
  keywords = topic.keywords;
  updated_at = t;
}

abbrev pub assign_topic : Topic → Datetime → List Topic → List Topic
assign_topic topic t [] = []
assign_topic topic t (x ∷ xs) =
    (if x.id == topic.id then overwrite_topic topic t x else x) ∷ assign_topic topic t xs

abbrev pub updated_row : Topic → Datetime → Db → Option Topic → Result (Topic × Db)
updated_row topic t d none = err (other_error (codes "StaleDataError"))
updated_row topic t d (some row) =
    ok (overwrite_topic topic t row, record d { topics = assign_topic topic t d.topics })

abbrev pub topic_rows : Uuid → Db → List Topic
topic_rows id d = select (λ (t : Topic). t.id == id) d.topics

abbrev pub with_row : {A B : Type 0} → (Option A → Result B) → Result (Option A) → Result B
with_row f (ok o) = f o
with_row f (err x) = err x

-- The update by the primary key, and the row as it is read again.
unfoldable pub write_topic : Topic → Datetime → Db → Result (Topic × Db)
write_topic topic t d =
    with_row (updated_row topic t d) (scalar_one_or_none (topic_rows topic.id d))

abbrev pub refers_to : Uuid → Db → Bool
refers_to id d =
    any (λ (s : Source). s.topic_id == id) d.sources
    || any (λ (a : Article). a.topic_id == id) d.articles
    || any (λ (b : Brief). b.topic_id == id) d.briefs
    || any (λ (a : IngestionAttempt). a.topic_id == id) d.attempts

-- The deletion by the primary key, which rows that refer to the topic forbid.
unfoldable pub remove_topic : Uuid → Db → Result (Unit {0} × Db)
remove_topic id d =
    if refers_to id d && any (λ (t : Topic). t.id == id) d.topics
    then err integrity_error
    else ok (tt, record d { topics = select (λ (t : Topic). not (t.id == id)) d.topics })

module _ (e : Env) where
  unfoldable pub create_topic : Topic → M Topic
  unfolding execute
  create_topic topic = execute e (insert_topic topic)

  unfoldable pub list_topics : M (List Topic)
  unfolding query sort_by
  list_topics = query e (λ d. ok (sort_by by_name d.topics))

  abbrev pub update_row : Topic → Option Topic → M Topic
  update_row topic none = raise topic_not_found
  update_row topic (some row) =
      if keywords_allowed topic.keywords
      then (now e >>= λ t. execute e (write_topic topic t))
      else raise value_error

  unfoldable pub update_topic : Topic → M Topic
  unfolding get_topic execute now keywords_allowed
  update_topic topic = get_topic e topic.id >>= update_row topic

  abbrev pub delete_unused : Uuid → Bool → M (Unit {0})
  delete_unused id has_dependents =
      if has_dependents then raise topic_in_use else execute e (remove_topic id)

  abbrev pub delete_row : Uuid → Option Topic → M (Unit {0})
  delete_row id none = raise topic_not_found
  delete_row id (some row) = query e (λ d. ok (refers_to id d)) >>= delete_unused id

  unfoldable pub delete_topic : Uuid → M (Unit {0})
  unfolding get_topic query execute
  delete_topic id = get_topic e id >>= delete_row id
