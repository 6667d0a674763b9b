-- ===== src/Topics/Deletion.antt =====
-- What `delete_topic` does on each of its branches, where no other session interferes.
use agentic_analyst.Prelude.{
  ◌≡◌, refl, true, false, not, List, [], ◌∷◌, none, select, ◌==◌, Bool-cases, inl, inr,
}
use agentic_analyst.Domain.Values.{Uuid}
use agentic_analyst.Domain.Errors.{Result, ok, err, topic_not_found, topic_in_use, multiple_results}
use agentic_analyst.Domain.Articles.{Topic}
use agentic_analyst.Store.Tables.{Db, scalar_one_or_none}
use agentic_analyst.Store.Session.{World, Env, query, execute, session_scope}
use agentic_analyst.Store.Alone.{alone}
use agentic_analyst.Topics.Statements.{refers_to, topic_rows, delete_topic, remove_topic}

-- The result of the deletion, and the database that it leaves.
pub data Deletion (id : Uuid) (d : Db) : Result (Unit {0}) → Db → Type 0 where
  is_missing : topic_rows id d ≡ [] → Deletion id d (err topic_not_found) d
  is_used :
      (row : Topic)
      → topic_rows id d ≡ row ∷ []
      → refers_to id d ≡ true
      → Deletion id d (err topic_in_use) d
  is_gone :
      (row : Topic)
      → topic_rows id d ≡ row ∷ []
      → refers_to id d ≡ false
      → Deletion id d
          (ok tt)
          (record d { topics = select (λ (t : Topic). not (t.id == id)) d.topics })
  is_doubled :
      (a b : Topic) (others : List Topic)
      → topic_rows id d ≡ a ∷ b ∷ others
      → Deletion id d (err multiple_results) d

remove_topic_free :
    (id : Uuid) (d : Db)
    → refers_to id d ≡ false
    → remove_topic id d
      ≡ ok (tt, record d { topics = select (λ (t : Topic). not (t.id == id)) d.topics })
unfolding remove_topic
remove_topic_free id d free = rw free refl

-- If no other session commits meanwhile, `delete_topic` reports a missing topic, or a topic that is
-- still referred to, and changes nothing; or it removes exactly this topic, which no row refers to,
-- and never fails on the foreign keys.
pub delete_topic-Deletion :
    (e : Env) (id : Uuid) (w : World)
    → w.snapshot ≡ none
    → Deletion id w.db
        (session_scope (delete_topic (alone e) id) w).0
        (session_scope (delete_topic (alone e) id) w).1.db
unfolding delete_topic agentic_analyst.Ingestion.Statements.get_topic session_scope
    scalar_one_or_none query execute
delete_topic-Deletion e id w closed = cases (topic_rows id w.db) refl
  where
    cases :
        (rows : List Topic)
        → topic_rows id w.db ≡ rows
        → Deletion id w.db
            (session_scope (delete_topic (alone e) id) w).0
            (session_scope (delete_topic (alone e) id) w).1.db
    cases [] h = rw (closed, h) (is_missing h)
    cases (a ∷ b ∷ others) h = rw (closed, h) (is_doubled a b others h)
    cases (row ∷ []) h = elim (Bool-cases (refers_to id w.db)) [
      | inl used ↦ rw (closed, h, used) (is_used row h used)
      | inr free ↦ rw (closed, h, free, remove_topic_free id w.db free) (is_gone row h free)
    ]
