-- ===== src/Runs/Statements.antt =====
-- `create_workflow_run`, `update_workflow_run`, `claim_pending_workflow_run`,
-- `get_workflow_run_by_idempotency` and the transition table.
use agentic_analyst.Prelude.{
  Bool, false, not, ◌&&◌, ◌||◌, List, [], ◌∷◌, ◌++◌, Option, none, some, Text, text_eq, select, any,
  ◌==◌, if◌then◌else◌,
}
use agentic_analyst.Domain.Values.{
  Uuid, WorkflowStatus, status_eq, cadence_eq, pending, running, succeeded, failed,
}
use agentic_analyst.Domain.Errors.{
  Error, Result, ok, err, integrity_error, workflow_run_already_exists, workflow_run_not_found,
  workflow_run_identity, invalid_workflow_run_transition,
}
use agentic_analyst.Domain.Briefs.{WorkflowRun}
use agentic_analyst.Store.Tables.{Db, scalar_one_or_none}
use agentic_analyst.Store.Session.{Env, M, raise, try_except, query, execute}

-- `target in _WORKFLOW_TRANSITIONS[current]`
unfoldable pub transition_allowed : WorkflowStatus → WorkflowStatus → Bool
transition_allowed pending target = status_eq target running || status_eq target failed
transition_allowed running target = status_eq target succeeded || status_eq target failed
transition_allowed _ target = false

-- The insertion of a row, which the primary key and the unique idempotency key may refuse.
unfoldable pub insert_run : WorkflowRun → Db → Result (WorkflowRun × Db)
insert_run run d =
    if any (λ (x : WorkflowRun). x.id == run.id || text_eq x.idempotency_key run.idempotency_key)
      d.runs
    then err integrity_error
    else ok (run, record d { runs = d.runs ++ run ∷ [] })

abbrev pub with_key : Text → WorkflowRun → Bool
with_key key x = text_eq x.idempotency_key key

abbrev pub with_id : Uuid → WorkflowRun → Bool
with_id id x = x.id == id

-- An assignment to the columns of the row with this identifier.
abbrev pub assign : Uuid → (WorkflowRun → WorkflowRun) → List WorkflowRun → List WorkflowRun
assign id change [] = []
assign id change (x ∷ xs) = (if x.id == id then change x else x) ∷ assign id change xs

-- The checks of `update_workflow_run` on the row that it has found.
unfoldable pub update_refusal : WorkflowRun → WorkflowRun → Option Error
update_refusal run row =
    if not (text_eq row.idempotency_key run.idempotency_key)
      || not (cadence_eq row.cadence run.cadence)
    then some workflow_run_identity
    else if not (status_eq run.status row.status) && not (transition_allowed row.status run.status)
    then some invalid_workflow_run_transition
    else none

-- The columns that `update_workflow_run` writes.
abbrev pub overwrite : WorkflowRun → WorkflowRun → WorkflowRun
overwrite run row = record row {
  status = run.status;
  checkpoint_ref = run.checkpoint_ref;
  error_summary = run.error_summary;
  started_at = run.started_at;
  completed_at = run.completed_at;
}

abbrev pub update_found : WorkflowRun → Option WorkflowRun → Db → Result (WorkflowRun × Db)
update_found run none d = err workflow_run_not_found
update_found run (some row) d = elim (update_refusal run row) [
  | some x ↦ err x
  | none ↦ ok (overwrite run row, record d { runs = assign run.id (overwrite run) d.runs })
]

abbrev pub on_found :
    {A : Type 0} → Result (Option WorkflowRun) → (Option WorkflowRun → Result A) → Result A
on_found (ok o) f = f o
on_found (err x) f = err x

-- The statements of `update_workflow_run`: the row is locked as it is read, so the read and the
-- write meet one database.
unfoldable pub update_statement : WorkflowRun → Db → Result (WorkflowRun × Db)
update_statement run d =
    on_found (scalar_one_or_none (select (with_id run.id) d.runs)) (λ o. update_found run o d)

-- The `where` clause of the claiming update.
abbrev pub claimable : WorkflowRun → WorkflowRun → Bool
claimable run x =
    x.id == run.id
    && (text_eq x.idempotency_key run.idempotency_key
        && (cadence_eq x.cadence run.cadence && status_eq x.status pending))

abbrev pub claimed : WorkflowRun → WorkflowRun → WorkflowRun
claimed run row = record row {
  status = running;
  checkpoint_ref = run.checkpoint_ref;
  error_summary = none;
  completed_at = none;
}

abbrev pub claim_found : WorkflowRun → Option WorkflowRun → Db → Result (Option WorkflowRun × Db)
claim_found run none d = ok (none, d)
claim_found run (some row) d =
    ok (some (claimed run row), record d { runs = assign run.id (claimed run) d.runs })

-- `update(...).where(...).values(...).returning(...)` and the single row that it returns. The row is
-- assigned by its identifier, the primary key.
unfoldable pub claim_statement : WorkflowRun → Db → Result (Option WorkflowRun × Db)
claim_statement run d =
    on_found (scalar_one_or_none (select (claimable run) d.runs)) (λ o. claim_found run o d)

unfoldable pub find_by_key : Text → Db → Result (Option WorkflowRun)
find_by_key key d = scalar_one_or_none (select (with_key key) d.runs)

abbrev pub already_exists : Error → Error
already_exists integrity_error = workflow_run_already_exists
already_exists x = x

module _ (e : Env) where
  unfoldable pub create_workflow_run : WorkflowRun → M WorkflowRun
  create_workflow_run run = try_except (execute e (insert_run run)) (λ x. raise (already_exists x))

  unfoldable pub update_workflow_run : WorkflowRun → M WorkflowRun
  update_workflow_run run = execute e (update_statement run)

  unfoldable pub claim_pending_workflow_run : WorkflowRun → M (Option WorkflowRun)
  claim_pending_workflow_run run = execute e (claim_statement run)

  unfoldable pub get_workflow_run_by_idempotency : Text → M (Option WorkflowRun)
  get_workflow_run_by_idempotency key = query e (find_by_key key)
