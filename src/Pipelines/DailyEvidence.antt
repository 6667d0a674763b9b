-- ===== src/Pipelines/DailyEvidence.antt =====
-- Which summaries the daily pipeline selects.
use agentic_analyst.Prelude.{
  ◌≡◌, refl, sym, Bool, true, false, not, ◌&&◌, List, [], ◌∷◌, Option, none, some, select, All,
  All-map, Exists, arith, inl, inr,
}
use agentic_analyst.Domain.Values.{Uuid, Date, daily}
use agentic_analyst.Domain.Errors.{ok, Ensures}
use agentic_analyst.Domain.Articles.{Article, ArticleBatch, BatchSummary}
use agentic_analyst.Store.Tables.{Db}
use agentic_analyst.Store.Session.{Event, World, Env, query}
use agentic_analyst.Store.Upholds.{Upholds, Upholds-bind, Upholds-pure}
use agentic_analyst.Store.Alone.{alone, Reads, Upholds-read, Upholds-scope, Upholds-weaken}
use agentic_analyst.Summaries.Statements.{get_articles_by_ids, has_id}
use agentic_analyst.Briefs.Queries.{is_batch_summary_cited}
use agentic_analyst.Pipelines.Evidence.{is_uncited, is_batch_summary_cited-any}
use agentic_analyst.Pipelines.DailyRun.{
  get_summary, is_for_day, is_selected, prepend_if, decide_summary, select_daily,
}

abbrev pub articles_in : Db → ArticleBatch → List Article
articles_in d batch = select (λ (a : Article). has_id batch.article_ids a.id) d.articles

-- The summary is that of the batch, the batch is for the day, and no brief of another day cites it.
abbrev pub IsDue : Db → Date → List (Uuid × BatchSummary) → BatchSummary → ArticleBatch → Type 0
IsDue d target_date by_batch x batch =
    (get_summary batch.id by_batch ≡ some x)
    × (is_for_day target_date (articles_in d batch) ≡ true)
    × (is_uncited daily target_date target_date d x ≡ true)

select_nothing {ℓ} : {A : Type ℓ} (xs : List A) → select (λ x. false) xs ≡ []
select_nothing [] = refl
select_nothing (x ∷ xs) = select_nothing xs

module _ (e : Env) (d : Db) (log : List Event) where
  get_articles-Reads :
      (batch : ArticleBatch)
      → Upholds
          (Reads d log)
          (λ articles. articles ≡ articles_in d batch)
          (get_articles_by_ids (alone e) batch.article_ids)
  unfolding get_articles_by_ids
  get_articles-Reads batch = loaded batch.article_ids
    where
      loaded :
          (ids : List Uuid)
          → Upholds
              (Reads d log)
              (λ articles. articles ≡ select (λ (a : Article). has_id ids a.id) d.articles)
              (get_articles_by_ids (alone e) ids)
      loaded [] = Upholds-pure (Reads d log) [] (sym (select_nothing d.articles))
      loaded (id ∷ ids) =
          Upholds-weaken (Reads d log)
            (Upholds-read e d log
              (λ d. ok (select (λ (a : Article). has_id (id ∷ ids) a.id) d.articles)))
            (λ articles answer. cc)

  module _ (target_date : Date) (by_batch : List (Uuid × BatchSummary)) where
    is_selected-Reads :
        (batch : ArticleBatch) (x : BatchSummary)
        → get_summary batch.id by_batch ≡ some x
        → Upholds
            (Reads d log)
            (λ taken. taken ≡ true → IsDue d target_date by_batch x batch)
            (is_selected (alone e) target_date batch x)
    unfolding is_selected
    is_selected-Reads batch x found = Upholds-scope e d log _ (
        Upholds-bind (Reads d log) (get_articles_by_ids (alone e) batch.article_ids) _
          (get_articles-Reads batch)
          λ articles same.
            Upholds-bind (Reads d log)
              (query (alone e) (is_batch_summary_cited x.id daily target_date target_date)) _
              (Upholds-read e d log (is_batch_summary_cited x.id daily target_date target_date))
              λ cited answer.
                Upholds-pure (Reads d log) (not cited && is_for_day target_date articles) λ taken.
                  let known =
                    is_batch_summary_cited-any x.id daily target_date target_date d answer in
                  (found, rw (sym same) (ground arith), rw known (ground arith)))

    select_daily-Reads :
        (batches : List ArticleBatch)
        → Upholds
            (Reads d log)
            (All (λ x. Exists (IsDue d target_date by_batch x) batches))
            (select_daily (alone e) target_date by_batch batches)
    unfolding select_daily
    select_daily-Reads [] = Upholds-pure (Reads d log) [] tt
    select_daily-Reads (batch ∷ batches) =
        decided (get_summary batch.id by_batch) refl (select_daily-Reads batches)
      where
        later :
            (xs : List BatchSummary)
            → All (λ x. Exists (IsDue d target_date by_batch x) batches) xs
            → All (λ x. Exists (IsDue d target_date by_batch x) (batch ∷ batches)) xs
        later xs h = All-map (λ x k. inr k) xs h

        taken_or_not :
            (x : BatchSummary) (taken : Bool)
            → (taken ≡ true → IsDue d target_date by_batch x batch)
            → Upholds
                (Reads d log)
                (All (λ x. Exists (IsDue d target_date by_batch x) batches))
                (select_daily (alone e) target_date by_batch batches)
            → Upholds
                (Reads d log)
                (All (λ x. Exists (IsDue d target_date by_batch x) (batch ∷ batches)))
                (prepend_if (alone e) x (select_daily (alone e) target_date by_batch batches) taken)
        taken_or_not x true due rest =
            Upholds-bind (Reads d log) (select_daily (alone e) target_date by_batch batches) _ rest
              λ xs h. Upholds-pure (Reads d log) (x ∷ xs) (inl (due refl), later xs h)
        taken_or_not x false due rest = Upholds-weaken (Reads d log) rest later

        decided :
            (o : Option BatchSummary)
            → get_summary batch.id by_batch ≡ o
            → Upholds
                (Reads d log)
                (All (λ x. Exists (IsDue d target_date by_batch x) batches))
                (select_daily (alone e) target_date by_batch batches)
            → Upholds
                (Reads d log)
                (All (λ x. Exists (IsDue d target_date by_batch x) (batch ∷ batches)))
                (decide_summary
                  (alone e)
                  target_date
                  batch
                  o
                  (select_daily (alone e) target_date by_batch batches))
        decided none found rest = Upholds-weaken (Reads d log) rest later
        decided (some x) found rest =
            Upholds-bind (Reads d log) (is_selected (alone e) target_date batch x) _
              (is_selected-Reads batch x found) λ taken due. taken_or_not x taken due rest

-- If no other session interferes, each summary that the daily pipeline selects is that of one of the
-- run's batches, of which an article was published on the day and none later, and no daily brief of
-- another day cites it; the selection leaves the database as it is.
pub select_daily-IsDue :
    (e : Env) (target_date : Date) (by_batch : List (Uuid × BatchSummary))
    (batches : List ArticleBatch) (w : World)
    → w.snapshot ≡ none
    → let out = select_daily (alone e) target_date by_batch batches w in
      (out.1.db ≡ w.db)
      × Ensures (All (λ x. Exists (IsDue w.db target_date by_batch x) batches)) out.0
select_daily-IsDue e target_date by_batch batches w closed =
    let out =
      (select_daily-Reads e w.db w.log target_date by_batch batches).run w (refl, closed, refl) in
    (out.0.0, out.1)
