-- ===== src/Synthesis/Composed.antt =====
-- The runner with the node that it drives: what a trigger keeps of the whole database.
use agentic_analyst.Prelude.{
  ℕ, ◌≡◌, sym, subst, text_eq, ◌⊎◌, List, none, Bool-cases, inl, inr, any, ◌||◌, ◌==◌,
}
use agentic_analyst.Domain.Values.{
  Uuid, Date, Cadence, WorkflowStatus, succeeded, failed, resumable,
}
use agentic_analyst.Domain.Errors.{ok}
use agentic_analyst.Domain.Articles.{BatchSummary}
use agentic_analyst.Domain.Briefs.{WorkflowRun}
use agentic_analyst.Store.Tables.{Db}
use agentic_analyst.Store.Session.{World, Env, pure, ◌>>=◌, M}
use agentic_analyst.Store.Keeps.{Keeps, Keeps-bind}
use agentic_analyst.Runs.Closed.{Reaches}
use agentic_analyst.Runs.Statements.{insert_run}
use agentic_analyst.Runs.Rows.{update_inversion, claim_inversion}
use agentic_analyst.Briefs.Sound.{AreSound, HasSoundBriefs}
use agentic_analyst.Runner.Keys.{Formats}
use agentic_analyst.Runner.Execute.{GraphState, execute_workflow}
use agentic_analyst.Runner.Preserves.{RunSteps, execute_workflow-Keeps}
use agentic_analyst.Runner.Settled.{Settled, Settled-step, execute_workflow-Settled}
use agentic_analyst.Synthesis.Frontier.{Frontier}
use agentic_analyst.Synthesis.Node.{synthesize}
use agentic_analyst.Synthesis.Upholds.{Inserts, synthesize-Keeps}
use agentic_analyst.Synthesis.Insertions.{run_inserts, brief_inserts}

-- The graph of one node: its state goes in, and what the node returns is left to the checkpointer.
unfoldable pub run_graph : Frontier → Env → GraphState → M (Unit {0})
run_graph g e inp = synthesize g e inp >>= λ output. pure tt

insert_run_briefs :
    (run : WorkflowRun) (d : Db) {out : WorkflowRun × Db}
    → insert_run run d ≡ ok out
    → out.1.briefs ≡ d.briefs
unfolding insert_run
insert_run_briefs run d h =
    elim (Bool-cases (
      any (λ (x : WorkflowRun). x.id == run.id || text_eq x.idempotency_key run.idempotency_key)
        d.runs)) [
          | inl clash ↦ let h' = rw clash at h in cc
          | inr free ↦ let h' = rw free at h in cc
        ]

-- The statements on runs do not touch the briefs.
brief_steps : RunSteps HasSoundBriefs
brief_steps = record {
  create = λ run d d' r q h. subst AreSound (sym (insert_run_briefs run d q)) h;
  update = λ run d d' r q h.
      let (row, found, accepted, result) = update_inversion run d q in
      let same : d'.briefs ≡ d.briefs = cc in subst AreSound (sym same) h;
  claim = λ run d d' r q h. elim (claim_inversion run d q) [
    | inl nothing ↦ let same : d'.briefs ≡ d.briefs = cc in subst AreSound (sym same) h
    | inr (old, found, result) ↦ let same : d'.briefs ≡ d.briefs = cc in subst AreSound (sym same) h
  ];
}

run_graph-Keeps {κ} :
    (I : Db → Type κ) (e : Env) (g : Frontier)
    → ((n : ℕ) (d : Db) → I d → I (e.others n d))
    → Inserts I
    → (inp : GraphState) → Keeps I (run_graph g e inp)
unfolding run_graph
run_graph-Keeps I e g others inserts inp =
    Keeps-bind I (synthesize g e inp) _ (synthesize-Keeps I e others inserts g inp)
      (λ output. record { run = λ w h. h })

-- A trigger of any cadence, topic and interval, with the node of the graph that it drives, and with
-- any history of changes by other processes before each of its statements, leaves the runs free of
-- duplicate identifiers and keys, and leaves a SUCCEEDED, FAILED or RESUMABLE run in its status.
pub trigger-Settled :
    (e : Env) (f : Formats) (g : Frontier) (cadence : Cadence) (topic_id : Uuid) (start end : Date)
    (summaries : List BatchSummary) (w : World) (id : Uuid) (s : WorkflowStatus)
    → ((s ≡ succeeded) ⊎ (s ≡ failed) ⊎ (s ≡ resumable))
    → ((n : ℕ) (d : Db) → Reaches d (e.others n d))
    → w.snapshot ≡ none
    → Settled id s w.db
    → Settled id s
        (execute_workflow e f (run_graph g e) cadence topic_id start end summaries w).1.db
trigger-Settled e f g cadence topic_id start end summaries w id s final rely closed h =
    execute_workflow-Settled e f (run_graph g e) cadence topic_id start end summaries w id s final
      rely
      (run_graph-Keeps (Settled id s) e g
        (λ n d. Settled-step id s d (e.others n d) final (rely n d)) (run_inserts id s))
      closed h

-- If no two briefs share a topic, a cadence and an interval, and every brief cites a summary, and
-- what other processes commit keeps that, then a trigger of any cadence, topic and interval keeps
-- it on every path, a failed embedding and a rolled back session included.
pub trigger-HasSoundBriefs :
    (e : Env) (f : Formats) (g : Frontier) (cadence : Cadence) (topic_id : Uuid) (start end : Date)
    (summaries : List BatchSummary) (w : World)
    → ((n : ℕ) (d : Db) → HasSoundBriefs d → HasSoundBriefs (e.others n d))
    → w.snapshot ≡ none
    → HasSoundBriefs w.db
    → HasSoundBriefs
        (execute_workflow e f (run_graph g e) cadence topic_id start end summaries w).1.db
trigger-HasSoundBriefs e f g cadence topic_id start end summaries w others closed h =
    ((execute_workflow-Keeps HasSoundBriefs brief_steps e others f (run_graph g e)
        (run_graph-Keeps HasSoundBriefs e g others brief_inserts) topic_id start end summaries
        cadence).run
      w (h, rw closed tt)).0
