-- ===== src/Runner/Settled.antt =====
-- No trigger changes the status of a finished run, or makes two runs of one key.
use agentic_analyst.Prelude.{ℕ, ◌≡◌, ◌⊎◌, [], List, none}
use agentic_analyst.Domain.Values.{
  Uuid, Date, Cadence, WorkflowStatus, succeeded, failed, resumable,
}
use agentic_analyst.Domain.Articles.{BatchSummary}
use agentic_analyst.Store.Tables.{Db}
use agentic_analyst.Store.Session.{Env, World, M}
use agentic_analyst.Store.Keeps.{Keeps}
use agentic_analyst.Runs.Closed.{created, updated, claimed_run, Reaches, here, next, Within}
use agentic_analyst.Runs.Unique.{AreUnique, one_run_per_key}
use agentic_analyst.Runs.Outcomes.{final_status_stays}
use agentic_analyst.Runner.Keys.{Formats}
use agentic_analyst.Runner.Execute.{GraphState, execute_workflow}
use agentic_analyst.Runner.Preserves.{RunSteps, execute_workflow-Keeps}

-- What a trigger must not break: no two runs share an identifier or a key, and the run `id` has
-- the status `s`.
abbrev pub Settled : Uuid → WorkflowStatus → Db → Type 0
Settled id s d = AreUnique d.runs × Within id (λ t. t ≡ s) d

pub Settled-step :
    (id : Uuid) (s : WorkflowStatus) (d d' : Db)
    → ((s ≡ succeeded) ⊎ (s ≡ failed) ⊎ (s ≡ resumable))
    → Reaches d d'
    → Settled id s d
    → Settled id s d'
Settled-step id s d d' f r h =
    ((one_run_per_key [] d d' h.0 r).0, final_status_stays id s d d' f h.1 r)

run_steps :
    (id : Uuid) (s : WorkflowStatus)
    → ((s ≡ succeeded) ⊎ (s ≡ failed) ⊎ (s ≡ resumable))
    → RunSteps (Settled id s)
run_steps id s final = record {
  create = λ run d d' r q h. Settled-step id s d d' final (next here (created run q)) h;
  update = λ run d d' r q h. Settled-step id s d d' final (next here (updated run q)) h;
  claim = λ run d d' r q h. Settled-step id s d d' final (next here (claimed_run run q)) h;
}

-- A trigger of any cadence, topic and interval, on every path through it, and with any history of
-- changes by other processes before each of its statements, leaves the runs free of duplicate
-- identifiers and keys, and leaves a SUCCEEDED, FAILED or RESUMABLE run in its status, provided
-- that the graph does so.
pub execute_workflow-Settled :
    (e : Env) (f : Formats) (invoke : GraphState → M (Unit {0})) (cadence : Cadence)
    (topic_id : Uuid) (start end : Date) (summaries : List BatchSummary) (w : World) (id : Uuid)
    (s : WorkflowStatus)
    → ((s ≡ succeeded) ⊎ (s ≡ failed) ⊎ (s ≡ resumable))
    → ((n : ℕ) (d : Db) → Reaches d (e.others n d))
    → ((g : GraphState) → Keeps (Settled id s) (invoke g))
    → w.snapshot ≡ none
    → Settled id s w.db
    → Settled id s (execute_workflow e f invoke cadence topic_id start end summaries w).1.db
execute_workflow-Settled e f invoke cadence topic_id start end summaries w id s final rely graph
      closed h =
    let keeps =
      execute_workflow-Keeps (Settled id s) (run_steps id s final) e
        (λ n d. Settled-step id s d (e.others n d) final (rely n d)) f invoke graph topic_id start
        end summaries cadence in
    (keeps.run w (h, rw closed tt)).0
