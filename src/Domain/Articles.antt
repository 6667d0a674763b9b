-- ===== src/Domain/Articles.antt =====
-- Topic, Source, Article, ArticleBatch and BatchSummary of domain/models.py, with the checks that
-- their validators make when a value is built.
use agentic_analyst.Prelude.{
  Bool, not, ◌&&◌, List, [], ◌∷◌, Option, Text, all, any, length, leb, ◌==◌, if◌then◌else◌,
}
use agentic_analyst.Domain.Values.{Uuid, Datetime, Float, GroupingMethod, is_blank, is_empty}

pub record Citation : Type 0 where
  pub article_id : Uuid
  pub excerpt : Option Text

pub record Topic : Type 0 where
  pub id : Uuid
  pub name : Text
  pub description : Text
  pub interest_detail : Option Text
  pub keywords : List Text
  pub created_at : Datetime
  pub updated_at : Datetime

-- `_nonempty_keywords`
unfoldable pub keywords_allowed : List Text → Bool
keywords_allowed v = not (is_empty v) && all (λ keyword. not (is_blank keyword)) v

pub record Source : Type 0 where
  pub id : Uuid
  pub topic_id : Uuid
  pub stable_id : Text
  pub name : Text
  pub normalized_domain : Text
  pub created_at : Datetime

pub record Article : Type 0 where
  pub id : Uuid
  pub topic_id : Uuid
  pub source_id : Option Uuid
  pub url : Text
  pub url_fingerprint : Text
  pub title : Text
  pub author : Option Text
  pub published_at : Datetime
  pub ingested_at : Datetime
  pub language : Option Text
  pub raw_content_hash : Option Text
  pub cleaned_content : Option Text

pub record ArticleBatch : Type 0 where
  pub id : Uuid
  pub article_ids : List Uuid
  pub batch_key : Text
  pub grouping_method : GroupingMethod
  pub embedding_model : Text
  pub similarity_threshold : Option Float
  pub grouping_run_id : Option Uuid
  pub created_at : Datetime

-- `list(set(v))` up to order: one copy of each member.
unfoldable pub distinct : List Uuid → List Uuid
distinct [] = []
distinct (x ∷ xs) = let rest = distinct xs in if any (λ y. x == y) xs then rest else x ∷ rest

-- `_ordered_unique`: `len(v) == len(set(v))`
unfoldable pub ordered_unique : List Uuid → Bool
unfolding distinct
ordered_unique v = length v == length (distinct v)

-- What pydantic checks of an ArticleBatch: the bounds on the length, and the two validators.
unfoldable pub batch_allowed : ArticleBatch → Bool
batch_allowed b =
    leb 3 (length b.article_ids)
    && leb (length b.article_ids) 5
    && ordered_unique b.article_ids
    && not (is_blank b.batch_key)

pub record BatchSummary : Type 0 where
  pub id : Uuid
  pub batch_id : Uuid
  pub model : Text
  pub prompt_version : Text
  pub summary : Text
  pub source_notes : Option Text
  pub entities : List Text
  pub topics : List Text
  pub citations : List Citation
  pub created_at : Datetime
