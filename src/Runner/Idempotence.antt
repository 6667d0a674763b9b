-- ===== src/Runner/Idempotence.antt =====
-- A trigger for a run that exists and is not pending returns it and does nothing else.
use agentic_analyst.Prelude.{◌≡◌, ◌≢◌, refl, ap, ◌||◌, true, List, none, some, Text, arith}
use agentic_analyst.Domain.Values.{Uuid, Date, Cadence, WorkflowStatus, status_eq, pending, running}
use agentic_analyst.Domain.Errors.{ok}
use agentic_analyst.Domain.Articles.{BatchSummary}
use agentic_analyst.Domain.Briefs.{WorkflowRun}
use agentic_analyst.Store.Session.{Env, World, M, observe, query, session_scope}
use agentic_analyst.Runs.Statements.{find_by_key, get_workflow_run_by_idempotency}
use agentic_analyst.Runner.Keys.{Formats, run_key}
use agentic_analyst.Runner.Execute.{GraphState, is_terminal, ensure_run, dispatch, execute_workflow}

module _ (e : Env) (f : Formats) where
  lookup_some :
      (key : Text) (w : World) (run : WorkflowRun)
      → w.snapshot ≡ none
      → find_by_key key (e.others w.tick w.db) ≡ ok (some run)
      → get_workflow_run_by_idempotency e key w ≡ (ok (some run), observe e w)
  unfolding get_workflow_run_by_idempotency query observe
  lookup_some key w run closed found = rw (closed, found) refl

  observe_snapshot :
      (w : World) → w.snapshot ≡ none → record (observe e w) { snapshot = none } ≡ observe e w
  unfolding observe
  observe_snapshot w closed = ground arith

  ensure_run_found :
      (cadence : Cadence) (key : Text) (w : World) (run : WorkflowRun)
      → w.snapshot ≡ none
      → find_by_key key (e.others w.tick w.db) ≡ ok (some run)
      → ensure_run e f cadence key w ≡ (ok run, observe e w)
  unfolding ensure_run session_scope
  ensure_run_found cadence key w run closed found =
      rw (lookup_some key w run closed found)
        (ap (λ (x : World). (ok run, x)) (observe_snapshot w closed))

settled : (s : WorkflowStatus) → s ≢ pending → (is_terminal s || status_eq s running) ≡ true
unfolding is_terminal
settled s h = ground arith

-- If the lookup by the trigger's key meets a run whose status is not PENDING, the trigger returns
-- that run: it claims nothing, writes nothing, calls no graph, and the process meets the database
-- in that one statement only.
pub execute_workflow_again :
    (e : Env) (f : Formats) (invoke : GraphState → M (Unit {0})) (cadence : Cadence)
    (topic_id : Uuid) (start end : Date) (summaries : List BatchSummary) (w : World)
    (run : WorkflowRun)
    → w.snapshot ≡ none
    → find_by_key (run_key f cadence topic_id start end) (e.others w.tick w.db) ≡ ok (some run)
    → run.status ≢ pending
    → execute_workflow e f invoke cadence topic_id start end summaries w ≡ (ok run, observe e w)
unfolding execute_workflow dispatch
execute_workflow_again e f invoke cadence topic_id start end summaries w run closed found
      not_pending =
    rw
      (
        ensure_run_found e f cadence (run_key f cadence topic_id start end) w run closed found,
        settled run.status not_pending,
      )
      refl
