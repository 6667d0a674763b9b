-- ===== src/Runner/Execute.antt =====
-- `_ensure_run`, `_claim_run`, `_update_run`, `_load_context`, `_failure_summary` and `_execute`.
-- LangGraph, which compiles the graph and runs it under a checkpointer, is the parameter `invoke`.
use agentic_analyst.Prelude.{Bool, ◌||◌, List, Option, none, some, Text, codes, ◌++◌, if◌then◌else◌}
use agentic_analyst.Domain.Values.{
  Uuid, Date, Datetime, Cadence, daily, weekly, monthly, WorkflowStatus, status_eq, pending,
  running, succeeded, failed, resumable,
}
use agentic_analyst.Domain.Errors.{
  Error, ok, model_error, runtime_error, workflow_run_already_exists,
}
use agentic_analyst.Domain.Articles.{BatchSummary}
use agentic_analyst.Domain.Briefs.{Brief, NarrativeStateVersion, WorkflowRun}
use agentic_analyst.Store.Session.{
  Env, M, pure, raise, try_except, emit, graph_invoked, query, now, uuid4, session_scope, ◌>>=◌,
  ◌>>◌,
}
use agentic_analyst.Runs.Statements.{
  create_workflow_run, update_workflow_run, claim_pending_workflow_run,
  get_workflow_run_by_idempotency,
}
use agentic_analyst.Briefs.Queries.{get_narrative_version_as_of, list_prior_briefs}
use agentic_analyst.Runner.Keys.{Formats, run_key}

-- The state that is handed to the graph.
pub record GraphState : Type 0 where
  pub run_id : Uuid
  pub cadence : Cadence
  pub topic_id : Uuid
  pub covered_start : Date
  pub covered_end : Date
  pub idempotency_key : Text
  pub batch_summaries : List BatchSummary
  pub prior_briefs : List Brief
  pub current_narrative : Option NarrativeStateVersion

abbrev pub graph_state :
    Cadence
    → WorkflowRun
    → Uuid
    → Date
    → Date
    → List BatchSummary
    → Option NarrativeStateVersion × List Brief
    → GraphState
graph_state cadence run topic_id start end summaries context = record {
  run_id = run.id;
  cadence = cadence;
  topic_id = topic_id;
  covered_start = start;
  covered_end = end;
  idempotency_key = run.idempotency_key;
  batch_summaries = summaries;
  prior_briefs = context.1;
  current_narrative = context.0;
}

-- `status in _TERMINAL_STATUSES`
unfoldable pub is_terminal : WorkflowStatus → Bool
is_terminal s = status_eq s succeeded || (status_eq s failed || status_eq s resumable)

unfoldable pub prior_cadence : Cadence → Cadence
prior_cadence daily = daily
prior_cadence weekly = daily
prior_cadence monthly = weekly

-- `_failure_summary`
unfoldable pub failure_summary : Formats → Error → Text
failure_summary f (model_error m) =
    f.type_name (model_error m) ++ codes ": provider operation failed"
failure_summary f x = f.type_name x ++ codes ": workflow execution failed"

-- `with suppress(Exception): await m`
abbrev pub suppressed : M WorkflowRun → M (Unit {0})
suppressed m = try_except (m >>= λ _. pure tt) (λ _. pure tt)

-- A new WorkflowRun with its defaults.
abbrev pub new_run : Cadence → Text → Uuid → Datetime → WorkflowRun
new_run cadence key id started_at = record {
  id = id;
  cadence = cadence;
  idempotency_key = key;
  status = pending;
  checkpoint_ref = none;
  error_summary = none;
  started_at = started_at;
  completed_at = none;
}

module _ (e : Env) (f : Formats) where
  unfoldable pub create_new : Cadence → Text → M WorkflowRun
  create_new cadence key = do
    id ← uuid4 e
    started_at ← now e
    create_workflow_run e (new_run cadence key id started_at)

  abbrev pub or_create : Cadence → Text → Option WorkflowRun → M WorkflowRun
  or_create cadence key none = create_new cadence key
  or_create cadence key (some run) = pure run

  abbrev pub or_raise : Option WorkflowRun → M WorkflowRun
  or_raise none = raise runtime_error
  or_raise (some run) = pure run

  -- The winner of the race, in a new session.
  unfoldable pub reload : Text → M WorkflowRun
  reload key = session_scope (get_workflow_run_by_idempotency e key) >>= or_raise

  abbrev pub on_conflict : Text → Error → M WorkflowRun
  on_conflict key workflow_run_already_exists = reload key
  on_conflict key x = raise x

  -- `_ensure_run`
  unfoldable pub ensure_run : Cadence → Text → M WorkflowRun
  ensure_run cadence key =
      try_except (session_scope (get_workflow_run_by_idempotency e key >>= or_create cadence key))
        (on_conflict key)

  -- `_update_run`
  unfoldable pub update_run : WorkflowRun → M WorkflowRun
  update_run run = session_scope (update_workflow_run e run)

  -- `_claim_run`
  unfoldable pub claim_run : WorkflowRun → M (Option WorkflowRun)
  claim_run run =
      session_scope
        (claim_pending_workflow_run e (record run { checkpoint_ref = some (f.show_uuid run.id) }))

  -- `_load_context`
  unfoldable pub load_context :
      Cadence → Uuid → Date → M (Option NarrativeStateVersion × List Brief)
  load_context cadence topic_id start = session_scope do
    narrative ← get_narrative_version_as_of e start topic_id
    briefs ← query e (λ d. ok (list_prior_briefs (prior_cadence cadence) start (some topic_id) d))
    pure (narrative, briefs)

  abbrev pub as_succeeded : WorkflowRun → Datetime → WorkflowRun
  as_succeeded run t = record run {
    status = succeeded;
    error_summary = none;
    completed_at = some t;
  }

  abbrev pub as_failed : WorkflowRun → Error → Datetime → WorkflowRun
  as_failed run x t = record run {
    status = failed;
    error_summary = some (failure_summary f x);
    completed_at = some t;
  }

  -- The handler of `_execute`: record the failure if that is possible, and raise again.
  unfoldable pub fail_run : WorkflowRun → Error → M WorkflowRun
  fail_run run x = do t ← now e; suppressed (update_run (as_failed run x t)); raise x

  module _ (invoke : GraphState → M (Unit {0})) where
    -- The body of the `try` statement of `_execute`.
    unfoldable pub drive :
        Cadence → WorkflowRun → Uuid → Date → Date → List BatchSummary → M WorkflowRun
    drive cadence run topic_id start end summaries = do
      context ← load_context cadence topic_id start
      emit (graph_invoked run.id)
      invoke (graph_state cadence run topic_id start end summaries context)
      t ← now e
      update_run (as_succeeded run t)

    unfoldable pub proceed :
        Cadence → Uuid → Date → Date → List BatchSummary → Text → Option WorkflowRun → M WorkflowRun
    proceed cadence topic_id start end summaries key none = reload key
    proceed cadence topic_id start end summaries key (some run) =
        try_except (drive cadence run topic_id start end summaries) (fail_run run)

    unfoldable pub dispatch :
        Cadence → Uuid → Date → Date → List BatchSummary → WorkflowRun → M WorkflowRun
    dispatch cadence topic_id start end summaries run =
        if is_terminal run.status || status_eq run.status running
        then pure run
        else claim_run run >>= proceed cadence topic_id start end summaries run.idempotency_key

    -- `_execute`
    unfoldable pub execute_workflow :
        Cadence → Uuid → Date → Date → List BatchSummary → M WorkflowRun
    execute_workflow cadence topic_id start end summaries =
        ensure_run cadence (run_key f cadence topic_id start end)
        >>= dispatch cadence topic_id start end summaries
