-- ===== src/Api/Topics.antt =====
-- `_require_key` and the handlers of `/topics`.
use agentic_analyst.Prelude.{Bool, List, Option, none, some, Text, codes, if◌then◌else◌}
use agentic_analyst.Domain.Values.{Uuid, Datetime, is_blank}
use agentic_analyst.Domain.Errors.{
  Error, Result, ok, err, value_error, topic_not_found, topic_in_use, http_exception,
}
use agentic_analyst.Domain.Articles.{Topic, keywords_allowed}
use agentic_analyst.Store.Session.{
  Env, M, lift, pure, raise, try_except, now, uuid4, session_scope, ◌>>=◌,
}
use agentic_analyst.Ingestion.Statements.{get_topic}
use agentic_analyst.Topics.Statements.{create_topic, list_topics, update_topic, delete_topic}

-- The bodies of `POST /topics` and `PUT /topics/{topic_id}`.
pub record TopicRequest : Type 0 where
  pub name : Text
  pub description : Text
  pub interest_detail : Option Text
  pub keywords : List Text

abbrev pub topic_row : TopicRequest → Uuid → Datetime → Datetime → Topic
topic_row req id created_at updated_at = record {
  id = id;
  name = req.name;
  description = req.description;
  interest_detail = req.interest_detail;
  keywords = req.keywords;
  created_at = created_at;
  updated_at = updated_at;
}

-- `Topic(...)` within `try`, with its validator, whose message is cut to one word here.
unfoldable pub checked_topic : Topic → Result Topic
checked_topic topic =
    if keywords_allowed topic.keywords
    then ok topic
    else err (http_exception 422 (codes "keywords"))

-- What `_require_key` answers to a missing or a blank key.
abbrev pub unauthenticated : Bool → Result Text
unauthenticated allow_unauthenticated_write =
    if allow_unauthenticated_write
    then ok (codes "local")
    else err (http_exception 401 (codes "API key required"))

-- `_require_key`, on which the handlers that write depend: they run once it has answered.
unfoldable pub require_key : Bool → Option Text → Result Text
require_key allow_unauthenticated_write none = unauthenticated allow_unauthenticated_write
require_key allow_unauthenticated_write (some key) =
    if is_blank key then unauthenticated allow_unauthenticated_write else ok key

-- The `except` clauses of `update_topic_route` and of `delete_topic_route`.
abbrev pub except_update : {A : Type 0} → Error → M A
except_update topic_not_found = raise (http_exception 404 (codes "topic not found"))
except_update value_error = raise (http_exception 422 (codes "keywords"))
except_update x = raise x

abbrev pub except_delete : {A : Type 0} → Error → M A
except_delete topic_not_found = raise (http_exception 404 (codes "topic not found"))
except_delete topic_in_use = raise (http_exception 409 (codes "topic in use"))
except_delete x = raise x

abbrev pub or_404 : {A : Type 0} → Text → Option A → M A
or_404 detail none = raise (http_exception 404 detail)
or_404 detail (some a) = pure a

module _ (e : Env) where
  unfoldable pub create_topic_route : TopicRequest → M Topic
  create_topic_route req = do
    t ← now e
    id ← uuid4 e
    topic ← lift (checked_topic (topic_row req id t t))
    session_scope (create_topic e topic)

  unfoldable pub get_topics : M (List Topic)
  get_topics = session_scope (list_topics e)

  unfoldable pub get_topic_route : Uuid → M Topic
  get_topic_route topic_id =
      session_scope (get_topic e topic_id) >>= or_404 (codes "topic not found")

  unfoldable pub update_topic_route : Uuid → TopicRequest → M Topic
  update_topic_route topic_id req = do
    created_at ← now e
    updated_at ← now e
    topic ← lift (checked_topic (topic_row req topic_id created_at updated_at))
    try_except (session_scope (update_topic e topic)) except_update

  unfoldable pub delete_topic_route : Uuid → M (Unit {0})
  delete_topic_route topic_id = try_except (session_scope (delete_topic e topic_id)) except_delete
