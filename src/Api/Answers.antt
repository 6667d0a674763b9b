-- ===== src/Api/Answers.antt =====
-- What `DELETE /topics/{topic_id}` and `GET /briefs` answer.
use agentic_analyst.Prelude.{
  ◌≡◌, refl, true, false, not, List, [], ◌∷◌, none, codes, select, subst, ◌==◌,
}
use agentic_analyst.Domain.Values.{Uuid}
use agentic_analyst.Domain.Errors.{Result, ok, err, multiple_results, http_exception}
use agentic_analyst.Domain.Articles.{Topic}
use agentic_analyst.Store.Tables.{Db}
use agentic_analyst.Store.Session.{World, Env, handle, session_scope}
use agentic_analyst.Store.Alone.{alone}
use agentic_analyst.Topics.Statements.{refers_to, topic_rows, delete_topic}
use agentic_analyst.Topics.Deletion.{
  Deletion, is_missing, is_used, is_gone, is_doubled, delete_topic-Deletion,
}
use agentic_analyst.Api.Topics.{except_delete, delete_topic_route}

-- The answer to a deletion, and the database that it leaves.
pub data Deleted (id : Uuid) (d : Db) : Result (Unit {0}) → Db → Type 0 where
  answers_404 :
      topic_rows id d ≡ [] → Deleted id d (err (http_exception 404 (codes "topic not found"))) d
  answers_409 :
      (row : Topic)
      → topic_rows id d ≡ row ∷ []
      → refers_to id d ≡ true
      → Deleted id d (err (http_exception 409 (codes "topic in use"))) d
  answers_204 :
      (row : Topic)
      → topic_rows id d ≡ row ∷ []
      → refers_to id d ≡ false
      → Deleted id d
          (ok tt)
          (record d { topics = select (λ (t : Topic). not (t.id == id)) d.topics })
  answers_500 :
      (a b : Topic) (others : List Topic)
      → topic_rows id d ≡ a ∷ b ∷ others
      → Deleted id d (err multiple_results) d

translated :
    (id : Uuid) (d d' : Db) (r : Result (Unit {0})) (w : World)
    → d' ≡ w.db
    → Deletion id d r d'
    → Deleted id d (handle r except_delete w).0 (handle r except_delete w).1.db
translated id d _ _ w e (is_missing h) = subst (Deleted id d _) e (answers_404 h)
translated id d _ _ w e (is_used row h used) = subst (Deleted id d _) e (answers_409 row h used)
translated id d _ _ w e (is_gone row h free) = subst (Deleted id d _) e (answers_204 row h free)
translated id d _ _ w e (is_doubled a b others h) =
    subst (Deleted id d _) e (answers_500 a b others h)

-- If no other session commits meanwhile, the route answers 404 where no topic has the identifier,
-- and 409 where one topic has it and a row refers to it, and then changes nothing. Where one topic
-- has it and no row refers to it, the route answers 204 and removes exactly this topic. Only a
-- database with two topics of this identifier makes it fail otherwise.
pub delete_topic_route-Deleted :
    (e : Env) (id : Uuid) (w : World)
    → w.snapshot ≡ none
    → Deleted id w.db (delete_topic_route (alone e) id w).0 (delete_topic_route (alone e) id w).1.db
unfolding delete_topic_route
delete_topic_route-Deleted e id w closed =
    translated id w.db _ (session_scope (delete_topic (alone e) id) w).0
      (session_scope (delete_topic (alone e) id) w).1 refl (delete_topic-Deletion e id w closed)
