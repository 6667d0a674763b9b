-- ===== src/Pipelines/DailyRun.antt =====
-- `DailyBriefPipeline.run` of pipeline/daily_brief.py: the selection, and the whole.
use agentic_analyst.Prelude.{
  ℕ, Bool, true, false, not, ◌&&◌, List, [], ◌∷◌, Option, none, some, length, any, ltb, ◌==◌,
  if◌then◌else◌,
}
use agentic_analyst.Domain.Values.{Uuid, Date, WorkflowStatus, daily, date_of}
use agentic_analyst.Domain.Articles.{Article, ArticleBatch, BatchSummary}
use agentic_analyst.Domain.Briefs.{WorkflowRun}
use agentic_analyst.Store.Session.{Env, M, pure, query, session_scope, ◌>>=◌}
use agentic_analyst.Runs.Statements.{get_workflow_run_by_idempotency}
use agentic_analyst.Briefs.Queries.{is_batch_summary_cited}
use agentic_analyst.Summaries.Statements.{get_articles_by_ids}
use agentic_analyst.Runner.Keys.{Formats, run_key}
use agentic_analyst.Runner.Execute.{GraphState}
use agentic_analyst.Pipelines.Selection.{is_settled, find_brief}
use agentic_analyst.Pipelines.Periodic.{run_daily}
use agentic_analyst.Pipelines.Daily.{
  Services, Polled, Resolved, Summarized, none_polled, none_resolved, none_summarized, due_feeds,
  poll_feeds, eligible_articles, group_articles, resolve_batches, summarize_batches,
}

pub record DailyPipelineResult : Type 0 where
  pub target_date : Date
  pub topic_id : Uuid
  pub feeds_polled : ℕ
  pub articles_succeeded : ℕ
  pub articles_duplicate : ℕ
  pub articles_failed : ℕ
  pub batches_created : ℕ
  pub batches_reused : ℕ
  pub summaries_created : ℕ
  pub summaries_reused : ℕ
  pub summaries_selected : ℕ
  pub is_no_content : Bool
  pub workflow_run_id : Option Uuid
  pub workflow_status : Option WorkflowStatus
  pub brief_id : Option Uuid

-- What the steps before the selection have counted.
pub record Progress : Type 0 where
  pub feeds_polled : ℕ
  pub polled : Polled
  pub resolved : Resolved
  pub summarized : Summarized

-- `summaries_by_batch.get(batch.id)`
unfoldable pub get_summary : Uuid → List (Uuid × BatchSummary) → Option BatchSummary
get_summary id [] = none
get_summary id ((k, s) ∷ entries) = if k == id then some s else get_summary id entries

abbrev pub published_date : Article → Date
published_date a = date_of a.published_at

-- An article was published on the day, and none later.
unfoldable pub is_for_day : Date → List Article → Bool
is_for_day target_date articles =
    any (λ (a : Article). published_date a == target_date) articles
    && not (any (λ (a : Article). ltb target_date (published_date a)) articles)

abbrev pub daily_result :
    Date
    → Uuid
    → Progress
    → ℕ
    → Bool
    → Option Uuid
    → Option WorkflowStatus
    → Option Uuid
    → DailyPipelineResult
daily_result target_date topic_id p selected is_no_content run_id status brief_id = record {
  target_date = target_date;
  topic_id = topic_id;
  feeds_polled = p.feeds_polled;
  articles_succeeded = p.polled.articles_succeeded;
  articles_duplicate = p.polled.articles_duplicate;
  articles_failed = p.polled.articles_failed;
  batches_created = p.resolved.batches_created;
  batches_reused = p.resolved.batches_reused;
  summaries_created = p.summarized.summaries_created;
  summaries_reused = p.summarized.summaries_reused;
  summaries_selected = selected;
  is_no_content = is_no_content;
  workflow_run_id = run_id;
  workflow_status = status;
  brief_id = brief_id;
}

module _ (e : Env) where
  -- The session that tells whether a summary is for the brief of the day.
  unfoldable pub is_selected : Date → ArticleBatch → BatchSummary → M Bool
  unfolding query session_scope
  is_selected target_date batch s = session_scope (
      get_articles_by_ids e batch.article_ids >>= λ articles.
      query e (is_batch_summary_cited s.id daily target_date target_date) >>= λ already_cited.
      pure (not already_cited && is_for_day target_date articles))

  abbrev pub prepend_if : {A : Type 0} → A → M (List A) → Bool → M (List A)
  prepend_if a rest taken = if taken then (rest >>= λ xs. pure (a ∷ xs)) else rest

  abbrev pub decide_summary :
      Date → ArticleBatch → Option BatchSummary → M (List BatchSummary) → M (List BatchSummary)
  decide_summary target_date batch none rest = rest
  decide_summary target_date batch (some s) rest =
      is_selected target_date batch s >>= prepend_if s rest

  -- The loop that selects.
  unfoldable pub select_daily :
      Date → List (Uuid × BatchSummary) → List ArticleBatch → M (List BatchSummary)
  select_daily target_date by_batch [] = pure []
  select_daily target_date by_batch (batch ∷ batches) =
      decide_summary target_date batch (get_summary batch.id by_batch)
        (select_daily target_date by_batch batches)

  module _ (f : Formats) (invoke : GraphState → M (Unit {0})) where
    unfoldable pub brief_day :
        Date → Date → Uuid → Progress → List BatchSummary → M DailyPipelineResult
    brief_day today target_date topic_id p selected = do
      run ← run_daily e f invoke today (some target_date) topic_id selected
      brief_id ← find_brief e daily topic_id target_date target_date run.status
      pure (
          daily_result target_date topic_id p (length selected) false (some run.id)
            (some run.status) brief_id)

    unfoldable pub without_daily :
        Date → Date → Uuid → Progress → Option WorkflowRun → M DailyPipelineResult
    without_daily today target_date topic_id p existing =
        if is_settled existing
        then brief_day today target_date topic_id p []
        else pure (daily_result target_date topic_id p 0 true none none none)

    unfoldable pub with_daily :
        Date → Date → Uuid → Progress → List BatchSummary → M DailyPipelineResult
    with_daily today target_date topic_id p [] =
        session_scope
          (get_workflow_run_by_idempotency e (run_key f daily topic_id target_date target_date))
        >>= without_daily today target_date topic_id p
    with_daily today target_date topic_id p (s ∷ selected) =
        brief_day today target_date topic_id p (s ∷ selected)

    module _ (s : Services) where
      -- Polling, batching and summarising.
      unfoldable pub prepare : Date → Uuid → M Progress
      prepare target_date topic_id = do
        feeds ← due_feeds e s topic_id
        polled ← poll_feeds e s feeds none_polled
        articles ← eligible_articles e s target_date topic_id
        grouped ← group_articles e s articles
        resolved ← session_scope (resolve_batches e s grouped.batches none_resolved)
        summarized ← summarize_batches e s resolved.batches none_summarized
        pure (record {
          feeds_polled = length feeds;
          polled = polled;
          resolved = resolved;
          summarized = summarized;
        })

      -- `run`
      unfoldable pub run_pipeline : Date → Date → Uuid → M DailyPipelineResult
      run_pipeline today target_date topic_id = do
        p ← prepare target_date topic_id
        selected ← select_daily target_date p.summarized.summaries_by_batch p.resolved.batches
        with_daily today target_date topic_id p selected
