-- ===== src/Pipelines/DailyResults.antt =====
-- What a daily run reports, and which summaries it selects.
use agentic_analyst.Prelude.{
  ℕ, suc, ◌+◌, ◌≤◌, ◌≡◌, refl, Bool, true, false, List, [], ◌∷◌, Option, none, some, length, arith,
  Bool-cases, inl, inr,
}
use agentic_analyst.Domain.Values.{Uuid, Date, WorkflowStatus, daily}
use agentic_analyst.Domain.Articles.{ArticleBatch, BatchSummary}
use agentic_analyst.Domain.Briefs.{WorkflowRun}
use agentic_analyst.Store.Session.{Env, M, session_scope}
use agentic_analyst.Store.Returns.{
  Returns, Returns-bind, Returns-then, Returns-pure, Returns-weaken,
}
use agentic_analyst.Runs.Statements.{get_workflow_run_by_idempotency}
use agentic_analyst.Runner.Keys.{Formats, run_key}
use agentic_analyst.Runner.Execute.{GraphState}
use agentic_analyst.Pipelines.Selection.{is_settled, find_brief}
use agentic_analyst.Pipelines.Periodic.{run_daily}
use agentic_analyst.Pipelines.Results.{IsReport, find_brief-IsBriefFor, report}
use agentic_analyst.Pipelines.Daily.{Services}
use agentic_analyst.Pipelines.Counts.{IsCounted, prepare-IsCounted}
use agentic_analyst.Pipelines.DailyRun.{
  DailyPipelineResult, Progress, get_summary, daily_result, is_selected, prepend_if, decide_summary,
  select_daily, brief_day, without_daily, with_daily, prepare, run_pipeline,
}

abbrev pub batches_of : DailyPipelineResult → ℕ
batches_of r = r.batches_created + r.batches_reused

-- The counts fit together, and the run and the brief are there only where the result has content.
abbrev pub IsDailyResult : Services → Date → Uuid → DailyPipelineResult → Type 0
IsDailyResult s target_date topic_id r =
    (r.target_date ≡ target_date)
    × (r.topic_id ≡ topic_id)
    × (r.feeds_polled ≤ s.settings.max_feeds_per_run)
    × (r.summaries_created + r.summaries_reused ≤ batches_of r)
    × (r.summaries_selected ≤ batches_of r)
    × IsReport r.is_no_content r.summaries_selected r.workflow_run_id r.workflow_status r.brief_id

module _ (e : Env) where
  prepend_bound :
      (n : ℕ) (x : BatchSummary) (rest : M (List BatchSummary)) (taken : Bool)
      → Returns (λ xs. length xs ≤ n) rest
      → Returns (λ xs. length xs ≤ suc n) (prepend_if e x rest taken)
  prepend_bound n x rest true h =
      Returns-bind rest _ h (λ xs k. Returns-pure (x ∷ xs) (omega arith))
  prepend_bound n x rest false h = Returns-weaken h (λ xs k. omega arith)

  select_daily_bound :
      (target_date : Date) (by_batch : List (Uuid × BatchSummary)) (batches : List ArticleBatch)
      → Returns (λ xs. length xs ≤ length batches) (select_daily e target_date by_batch batches)
  unfolding select_daily
  select_daily_bound target_date by_batch [] = Returns-pure [] (omega arith)
  select_daily_bound target_date by_batch (batch ∷ batches) =
      decided (get_summary batch.id by_batch) (select_daily_bound target_date by_batch batches)
    where
      decided :
          (o : Option BatchSummary)
          → Returns (λ xs. length xs ≤ length batches) (select_daily e target_date by_batch batches)
          → Returns
              (λ xs. length xs ≤ length (batch ∷ batches))
              (decide_summary e target_date batch o (select_daily e target_date by_batch batches))
      decided none h = Returns-weaken h (λ xs k. omega arith)
      decided (some x) h =
          Returns-then (is_selected e target_date batch x) _
            (λ taken. prepend_bound (length batches) x _ taken h)

  module _ (f : Formats) (invoke : GraphState → M (Unit {0})) (s : Services)
      (today target_date : Date) (topic_id : Uuid) (p : Progress) (counted : IsCounted s p) where
    daily_result-IsDailyResult :
        (n : ℕ) (b : Bool) (id : Option Uuid) (status : Option WorkflowStatus) (o : Option Uuid)
        → n ≤ length p.resolved.batches
        → IsReport b n id status o
        → IsDailyResult s target_date topic_id (daily_result target_date topic_id p n b id status o)
    daily_result-IsDailyResult n b id status o few reported =
        let (feeds, balanced, bound) = counted in
        (refl, refl, feeds, omega arith, omega arith, reported)

    brief_day_lem :
        (selected : List BatchSummary)
        → length selected ≤ length p.resolved.batches
        → Returns
            (IsDailyResult s target_date topic_id)
            (brief_day e f invoke today target_date topic_id p selected)
    unfolding brief_day
    brief_day_lem selected few =
        Returns-then (run_daily e f invoke today (some target_date) topic_id selected) _ λ run.
          Returns-bind (find_brief e daily topic_id target_date target_date run.status) _
            (find_brief-IsBriefFor e f invoke daily topic_id target_date target_date run.status)
            λ o h. Returns-pure _ (
              daily_result-IsDailyResult (length selected) false (some run.id) (some run.status) o
                few (report (length selected) run.id run.status o h))

    without_daily_lem :
        (existing : Option WorkflowRun)
        → Returns
            (IsDailyResult s target_date topic_id)
            (without_daily e f invoke today target_date topic_id p existing)
    unfolding without_daily
    without_daily_lem existing = elim (Bool-cases (is_settled existing)) [
      | inl settled ↦ rw settled (brief_day_lem [] (omega arith))
      | inr unsettled ↦
          rw unsettled
            (Returns-pure _ (daily_result-IsDailyResult 0 true none none none (omega arith) refl))
    ]

    with_daily_lem :
        (selected : List BatchSummary)
        → length selected ≤ length p.resolved.batches
        → Returns
            (IsDailyResult s target_date topic_id)
            (with_daily e f invoke today target_date topic_id p selected)
    unfolding with_daily
    with_daily_lem [] few =
        Returns-then
          (session_scope
            (get_workflow_run_by_idempotency e (run_key f daily topic_id target_date target_date)))
          _ without_daily_lem
    with_daily_lem (x ∷ selected) few = brief_day_lem (x ∷ selected) few

-- A result of the daily pipeline is for the day and the topic that were asked for. It has polled no
-- more feeds than allowed; the summaries that were stored or found are no more than the batches that
-- were, and so are the selected ones. It either reports no content, with no selection, run or brief,
-- or it names a run, and a brief only if this run has succeeded.
pub run_pipeline-IsDailyResult :
    (e : Env) (f : Formats) (invoke : GraphState → M (Unit {0})) (s : Services)
    (today target_date : Date) (topic_id : Uuid)
    → Returns
        (IsDailyResult s target_date topic_id)
        (run_pipeline e f invoke s today target_date topic_id)
unfolding run_pipeline
run_pipeline-IsDailyResult e f invoke s today target_date topic_id =
    Returns-bind (prepare e f invoke s target_date topic_id) _
      (prepare-IsCounted e s f invoke target_date topic_id)
      λ p counted.
        Returns-bind (select_daily e target_date p.summarized.summaries_by_batch p.resolved.batches)
          _ (select_daily_bound e target_date p.summarized.summaries_by_batch p.resolved.batches)
          λ selected few.
            with_daily_lem e f invoke s today target_date topic_id p counted selected few
