-- ===== src/Pipelines/Periodic.antt =====
-- `PeriodicBriefPipeline.run` of pipeline/periodic_brief.py, with `run_weekly` and `run_monthly`
-- of workflows/runner.py.
use agentic_analyst.Prelude.{
  ℕ, ◌+◌, ◌-◌, Bool, true, false, List, [], ◌∷◌, Option, none, some, length, if◌then◌else◌,
}
use agentic_analyst.Domain.Values.{
  Uuid, Date, Cadence, daily, weekly, monthly, WorkflowStatus, date_of,
}
use agentic_analyst.Domain.Articles.{BatchSummary}
use agentic_analyst.Domain.Briefs.{WorkflowRun}
use agentic_analyst.Store.Session.{Env, M, pure, now, session_scope, ◌>>=◌}
use agentic_analyst.Calendar.Civil.{weekday, first_of_month}
use agentic_analyst.Calendar.Windows.{week_window, month_window, next_month}
use agentic_analyst.Runs.Statements.{get_workflow_run_by_idempotency}
use agentic_analyst.Runner.Keys.{Formats, run_key}
use agentic_analyst.Runner.Execute.{GraphState, execute_workflow}
use agentic_analyst.Pipelines.Selection.{is_settled, select_summaries, find_brief}

pub record PeriodicPipelineResult : Type 0 where
  pub cadence : Cadence
  pub topic_id : Uuid
  pub covered_start : Date
  pub covered_end : Date
  pub summaries_selected : ℕ
  pub is_no_content : Bool
  pub workflow_run_id : Option Uuid
  pub workflow_status : Option WorkflowStatus
  pub brief_id : Option Uuid

-- `_week_window(anchor) if self._cadence is Cadence.WEEKLY else _month_window(anchor)`
unfoldable pub window_of : Cadence → Date → Date × Date
window_of weekly anchor = week_window anchor
window_of _ anchor = month_window anchor

abbrev pub or_date : Option Date → Date → Date
or_date none d = d
or_date (some d) d' = d

abbrev pub no_content : Cadence → Uuid → Date → Date → PeriodicPipelineResult
no_content cadence topic_id start end = record {
  cadence = cadence;
  topic_id = topic_id;
  covered_start = start;
  covered_end = end;
  summaries_selected = 0;
  is_no_content = true;
  workflow_run_id = none;
  workflow_status = none;
  brief_id = none;
}

abbrev pub briefed :
    Cadence → Uuid → Date → Date → ℕ → WorkflowRun → Option Uuid → PeriodicPipelineResult
briefed cadence topic_id start end count run brief_id = record {
  cadence = cadence;
  topic_id = topic_id;
  covered_start = start;
  covered_end = end;
  summaries_selected = count;
  is_no_content = false;
  workflow_run_id = some run.id;
  workflow_status = some run.status;
  brief_id = brief_id;
}

module _ (e : Env) (f : Formats) (invoke : GraphState → M (Unit {0})) where
  -- `run_weekly` and `run_monthly`, where `today` is the local date.
  unfoldable pub run_weekly : Date → Option Date → Uuid → List BatchSummary → M WorkflowRun
  run_weekly today target_date topic_id summaries =
      let start = or_date target_date (today - weekday today) in
      execute_workflow e f invoke weekly topic_id start (start + 6) summaries

  unfoldable pub run_monthly : Date → Option Date → Uuid → List BatchSummary → M WorkflowRun
  run_monthly today target_date topic_id summaries =
      let start = or_date target_date (first_of_month today) in
      execute_workflow e f invoke monthly topic_id start (next_month start - 1) summaries

  unfoldable pub run_daily : Date → Option Date → Uuid → List BatchSummary → M WorkflowRun
  run_daily today target_date topic_id summaries =
      let target = or_date target_date today in
      execute_workflow e f invoke daily topic_id target target summaries

  unfoldable pub run_cadence : Cadence → Date → Date → Uuid → List BatchSummary → M WorkflowRun
  run_cadence weekly today start topic_id summaries =
      run_weekly today (some start) topic_id summaries
  run_cadence _ today start topic_id summaries = run_monthly today (some start) topic_id summaries

  unfoldable pub brief_window :
      Cadence → Date → Uuid → Date → Date → List BatchSummary → M PeriodicPipelineResult
  brief_window cadence today topic_id start end selected = do
    run ← run_cadence cadence today start topic_id selected
    brief_id ← find_brief e cadence topic_id start end run.status
    pure (briefed cadence topic_id start end (length selected) run brief_id)

  unfoldable pub without_selection :
      Cadence → Date → Uuid → Date → Date → Option WorkflowRun → M PeriodicPipelineResult
  without_selection cadence today topic_id start end existing =
      if is_settled existing
      then brief_window cadence today topic_id start end []
      else pure (no_content cadence topic_id start end)

  unfoldable pub with_selection :
      Cadence → Date → Uuid → Date → Date → List BatchSummary → M PeriodicPipelineResult
  with_selection cadence today topic_id start end [] =
      session_scope (get_workflow_run_by_idempotency e (run_key f cadence topic_id start end))
      >>= without_selection cadence today topic_id start end
  with_selection cadence today topic_id start end (s ∷ selected) =
      brief_window cadence today topic_id start end (s ∷ selected)

  unfoldable pub run_window : Cadence → Date → Uuid → Date × Date → M PeriodicPipelineResult
  run_window cadence today topic_id (start, end) =
      select_summaries e cadence topic_id start end
      >>= with_selection cadence today topic_id start end

  -- `run`, which reads the clock where no anchor is given.
  unfoldable pub run_periodic : Cadence → Date → Option Date → Uuid → M PeriodicPipelineResult
  run_periodic cadence today none topic_id =
      now e >>= λ t. run_window cadence today topic_id (window_of cadence (date_of t))
  run_periodic cadence today (some anchor) topic_id =
      run_window cadence today topic_id (window_of cadence anchor)
