-- ===== src/Summaries/Statements.antt =====
-- The functions on batches and summaries, and those that load articles for them.
use agentic_analyst.Prelude.{
  ◌+◌, Bool, not, ◌&&◌, ◌||◌, List, [], ◌∷◌, ◌++◌, Option, none, some, Text, text_eq, text_le,
  select, any, sort_by, ltb, ◌==◌, leb, false, if◌then◌else◌,
}
use agentic_analyst.Domain.Values.{Uuid, Date, midnight, is_empty}
use agentic_analyst.Domain.Errors.{Result, ok, err, integrity_error}
use agentic_analyst.Domain.Articles.{Article, ArticleBatch, BatchSummary}
use agentic_analyst.Store.Tables.{Db, scalar_one_or_none}
use agentic_analyst.Store.Session.{Env, M, pure, query, execute}

-- The primary key and the unique batch_key.
unfoldable pub insert_batch : ArticleBatch → Db → Result (ArticleBatch × Db)
insert_batch batch d =
    if any (λ (b : ArticleBatch). b.id == batch.id || text_eq b.batch_key batch.batch_key) d.batches
    then err integrity_error
    else ok (batch, record d { batches = d.batches ++ batch ∷ [] })

abbrev pub same_summary : Uuid → Text → Text → BatchSummary → Bool
same_summary batch_id model prompt_version s =
    s.batch_id == batch_id && (text_eq s.model model && text_eq s.prompt_version prompt_version)

-- The primary key, the unique (batch_id, model, prompt_version), and the reference to the batch.
unfoldable pub insert_summary : BatchSummary → Db → Result (BatchSummary × Db)
insert_summary summary d =
    if any
        (λ (s : BatchSummary).
          s.id == summary.id
          || same_summary summary.batch_id summary.model summary.prompt_version s)
        d.summaries
      || not (any (λ (b : ArticleBatch). b.id == summary.batch_id) d.batches)
    then err integrity_error
    else ok (summary, record d { summaries = d.summaries ++ summary ∷ [] })

abbrev pub has_id : List Uuid → Uuid → Bool
has_id ids id = any (λ i. i == id) ids

abbrev pub speaks_one : List Text → Option Text → Bool
speaks_one languages none = false
speaks_one languages (some l) = any (λ language. text_eq language l) languages

abbrev pub is_batched : Db → Article → Bool
is_batched d a = any (λ (b : ArticleBatch). has_id b.article_ids a.id) d.batches

-- What the query of `list_eligible_unbatched_articles` asks of a row.
abbrev pub is_eligible : Date → List Text → Uuid → Db → Article → Bool
is_eligible before_date languages topic_id d a =
    a.topic_id == topic_id
    && (ltb a.published_at (midnight (before_date + 1))
        && (speaks_one languages a.language && not (is_batched d a)))

-- `order_by(published_at.asc(), url_fingerprint.asc(), id.asc())`
abbrev pub published_before : Article → Article → Bool
published_before a b =
    ltb a.published_at b.published_at
    || (a.published_at == b.published_at
        && (text_le a.url_fingerprint b.url_fingerprint
            && (not (text_eq a.url_fingerprint b.url_fingerprint) || leb a.id b.id)))

unfoldable pub list_eligible_unbatched_articles : Date → List Text → Uuid → Db → List Article
list_eligible_unbatched_articles before_date languages topic_id d =
    if is_empty languages
    then []
    else sort_by published_before (select (is_eligible before_date languages topic_id d) d.articles)

module _ (e : Env) where
  unfoldable pub save_article_batch : ArticleBatch → M ArticleBatch
  unfolding execute
  save_article_batch batch = execute e (insert_batch batch)

  unfoldable pub save_batch_summary : BatchSummary → M BatchSummary
  unfolding execute
  save_batch_summary summary = execute e (insert_summary summary)

  unfoldable pub get_article_batch_by_key : Text → M (Option ArticleBatch)
  unfolding query
  get_article_batch_by_key key =
      query e
        (λ d. scalar_one_or_none (select (λ (b : ArticleBatch). text_eq b.batch_key key) d.batches))

  unfoldable pub get_batch_summary_by_identity : Uuid → Text → Text → M (Option BatchSummary)
  unfolding query
  get_batch_summary_by_identity batch_id model prompt_version =
      query e
        (λ d. scalar_one_or_none (select (same_summary batch_id model prompt_version) d.summaries))

  unfoldable pub get_articles_by_ids : List Uuid → M (List Article)
  unfolding query
  get_articles_by_ids [] = pure []
  get_articles_by_ids (id ∷ ids) =
      query e (λ d. ok (select (λ (a : Article). has_id (id ∷ ids) a.id) d.articles))

  unfoldable pub list_batch_summaries_for_brief : List Uuid → M (List BatchSummary)
  unfolding query
  list_batch_summaries_for_brief [] = pure []
  list_batch_summaries_for_brief (id ∷ ids) =
      query e (λ d. ok (select (λ (s : BatchSummary). has_id (id ∷ ids) s.batch_id) d.summaries))
