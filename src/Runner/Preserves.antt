-- ===== src/Runner/Preserves.antt =====
-- What a trigger never breaks, whatever other processes commit between its statements.
use agentic_analyst.Prelude.{
  ℕ, ◌≡◌, refl, ◌||◌, List, Option, none, some, Text, Bool-cases, inl, inr,
}
use agentic_analyst.Domain.Values.{Uuid, Date, Cadence, status_eq, running}
use agentic_analyst.Domain.Errors.{Error, Result, ok, err, Ensures, workflow_run_already_exists}
use agentic_analyst.Domain.Articles.{BatchSummary}
use agentic_analyst.Domain.Briefs.{WorkflowRun}
use agentic_analyst.Store.Tables.{Db}
use agentic_analyst.Store.Session.{Event, Env, M, pure, raise, emit, graph_invoked, execute}
use agentic_analyst.Store.Keeps.{
  Keeps, Keeps-bind, Keeps-try, Keeps-session, Keeps-query, Keeps-execute, Keeps-now, Keeps-uuid4,
}
use agentic_analyst.Runs.Statements.{
  insert_run, update_statement, claim_statement, create_workflow_run, update_workflow_run,
  claim_pending_workflow_run, get_workflow_run_by_idempotency,
}
use agentic_analyst.Runner.Keys.{Formats}
use agentic_analyst.Runner.Reads.{load_context-Keeps}
use agentic_analyst.Runner.Execute.{
  GraphState, graph_state, create_new, or_create, or_raise, reload, on_conflict, ensure_run,
  update_run, claim_run, as_failed, as_succeeded, fail_run, drive, proceed, dispatch,
  execute_workflow, is_terminal,
}

Ensures-of {ℓ κ} :
    {A : Type ℓ} (P : A → Type κ) (r : Result A) → ((a : A) → r ≡ ok a → P a) → Ensures P r
Ensures-of P (ok a) h = h a refl
Ensures-of P (err x) h = tt

-- What an invariant must know of the three statements on runs.
pub record RunSteps {κ} (I : Db → Type κ) : Type κ where
  pub create :
      (run : WorkflowRun) (d d' : Db) (r : WorkflowRun) → insert_run run d ≡ ok (r, d') → I d → I d'
  pub update :
      (run : WorkflowRun) (d d' : Db) (r : WorkflowRun)
      → update_statement run d ≡ ok (r, d')
      → I d
      → I d'
  pub claim :
      (run : WorkflowRun) (d d' : Db) (r : Option WorkflowRun)
      → claim_statement run d ≡ ok (r, d')
      → I d
      → I d'

-- An invariant that every statement on runs preserves.
module _ {κ} (I : Db → Type κ) (steps : RunSteps I) (e : Env)
    (others : (n : ℕ) (d : Db) → I d → I (e.others n d)) where
  Keeps-pure {ℓ} : {A : Type ℓ} (a : A) → Keeps I (pure a)
  Keeps-pure a = record { run = λ w h. h }

  Keeps-raise {ℓ} : {A : Type ℓ} (x : Error) → Keeps I {A = A} (raise x)
  Keeps-raise x = record { run = λ w h. h }

  create-Keeps : (run : WorkflowRun) → Keeps I (create_workflow_run e run)
  unfolding create_workflow_run
  create-Keeps run =
      Keeps-try I (execute e (insert_run run)) _
        (Keeps-execute I e others (insert_run run)
          (λ d h. Ensures-of _ _ (λ (r, d') q. steps.create run d d' r q h)))
        (λ x. Keeps-raise _)

  update-Keeps : (run : WorkflowRun) → Keeps I (update_workflow_run e run)
  unfolding update_workflow_run
  update-Keeps run =
      Keeps-execute I e others (update_statement run)
        (λ d h. Ensures-of _ _ (λ (r, d') q. steps.update run d d' r q h))

  claim-Keeps : (run : WorkflowRun) → Keeps I (claim_pending_workflow_run e run)
  unfolding claim_pending_workflow_run
  claim-Keeps run =
      Keeps-execute I e others (claim_statement run)
        (λ d h. Ensures-of _ _ (λ (r, d') q. steps.claim run d d' r q h))

  get-Keeps : (key : Text) → Keeps I (get_workflow_run_by_idempotency e key)
  unfolding get_workflow_run_by_idempotency
  get-Keeps key = Keeps-query I e others _

  Keeps-emit : (event : Event) → Keeps I (emit event)
  Keeps-emit event = record { run = λ w h. h }

  module _ (f : Formats) where
    or_create-Keeps :
        (cadence : Cadence) (key : Text) (o : Option WorkflowRun)
        → Keeps I (or_create e f cadence key o)
    unfolding create_new
    or_create-Keeps cadence key none =
        Keeps-bind I _ _ (Keeps-uuid4 I e others)
          (λ i. Keeps-bind I _ _ (Keeps-now I e others) (λ t. create-Keeps _))
    or_create-Keeps cadence key (some run) = Keeps-pure run

    or_raise-Keeps : (o : Option WorkflowRun) → Keeps I (or_raise e f o)
    or_raise-Keeps none = Keeps-raise _
    or_raise-Keeps (some run) = Keeps-pure run

    reload-Keeps : (key : Text) → Keeps I (reload e f key)
    unfolding reload
    reload-Keeps key = Keeps-bind I _ _ (Keeps-session I _ (get-Keeps key)) or_raise-Keeps

    on_conflict-Keeps : (key : Text) (x : Error) → Keeps I (on_conflict e f key x)
    on_conflict-Keeps key workflow_run_already_exists = reload-Keeps key
    on_conflict-Keeps key x = Keeps-raise _

    ensure_run-Keeps : (cadence : Cadence) (key : Text) → Keeps I (ensure_run e f cadence key)
    unfolding ensure_run
    ensure_run-Keeps cadence key =
        Keeps-try I _ _
          (Keeps-session I _ (Keeps-bind I _ _ (get-Keeps key) (or_create-Keeps cadence key)))
          (on_conflict-Keeps key)

    update_run-Keeps : (run : WorkflowRun) → Keeps I (update_run e f run)
    unfolding update_run
    update_run-Keeps run = Keeps-session I _ (update-Keeps run)

    claim_run-Keeps : (run : WorkflowRun) → Keeps I (claim_run e f run)
    unfolding claim_run
    claim_run-Keeps run = Keeps-session I _ (claim-Keeps _)

    fail_run-Keeps : (run : WorkflowRun) (x : Error) → Keeps I (fail_run e f run x)
    unfolding fail_run
    fail_run-Keeps run x = Keeps-bind I _ _ (Keeps-now I e others) (λ t.
        Keeps-bind I _ _
          (Keeps-try I _ _
            (Keeps-bind I _ _ (update_run-Keeps (as_failed e f run x t)) (λ _. Keeps-pure tt))
            (λ _. Keeps-pure tt))
          (λ _. Keeps-raise x))

    module _ (invoke : GraphState → M (Unit {0})) (graph : (s : GraphState) → Keeps I (invoke s))
        (topic_id : Uuid) (start end : Date) (summaries : List BatchSummary) where
      drive-Keeps :
          (cadence : Cadence) (run : WorkflowRun)
          → Keeps I (drive e f invoke cadence run topic_id start end summaries)
      unfolding drive
      drive-Keeps cadence run =
          Keeps-bind I _ _ (load_context-Keeps I e others f cadence topic_id start) (λ c.
            Keeps-bind I _ _ (Keeps-emit (graph_invoked run.id)) (λ _.
              Keeps-bind I _ _ (graph (graph_state cadence run topic_id start end summaries c))
                (λ _.
                  Keeps-bind I _ _ (Keeps-now I e others)
                    (λ t. update_run-Keeps (as_succeeded e f run t)))))

      proceed-Keeps :
          (cadence : Cadence) (key : Text) (o : Option WorkflowRun)
          → Keeps I (proceed e f invoke cadence topic_id start end summaries key o)
      unfolding proceed
      proceed-Keeps cadence key none = reload-Keeps key
      proceed-Keeps cadence key (some run) =
          Keeps-try I _ _ (drive-Keeps cadence run) (fail_run-Keeps run)

      dispatch-Keeps :
          (cadence : Cadence) (run : WorkflowRun)
          → Keeps I (dispatch e f invoke cadence topic_id start end summaries run)
      unfolding dispatch
      dispatch-Keeps cadence run =
          elim (Bool-cases (is_terminal run.status || status_eq run.status running)) [
            | inl done ↦ rw done (Keeps-pure run)
            | inr open_run ↦
                rw open_run (
                  Keeps-bind I _ _ (claim_run-Keeps run)
                    (proceed-Keeps cadence run.idempotency_key))
          ]

      pub execute_workflow-Keeps :
          (cadence : Cadence)
          → Keeps I (execute_workflow e f invoke cadence topic_id start end summaries)
      unfolding execute_workflow
      execute_workflow-Keeps cadence =
          Keeps-bind I _ _ (ensure_run-Keeps cadence _) (dispatch-Keeps cadence)
