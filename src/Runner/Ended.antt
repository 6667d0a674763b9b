-- ===== src/Runner/Ended.antt =====
-- How a claimed run ends: SUCCEEDED or FAILED, in the table as in the result.
use agentic_analyst.Prelude.{
  ℕ, suc, ◌≡◌, refl, true, List, [], ◌∷◌, Option, none, some, Text, select,
}
use agentic_analyst.Domain.Values.{
  Uuid, Date, Datetime, Cadence, WorkflowStatus, running, succeeded, failed,
}
use agentic_analyst.Domain.Errors.{Error, Result, ok, err}
use agentic_analyst.Domain.Articles.{BatchSummary}
use agentic_analyst.Domain.Briefs.{WorkflowRun}
use agentic_analyst.Store.Tables.{Db}
use agentic_analyst.Store.Session.{
  Env, World, M, and_then, handle, observe, execute, emit, graph_invoked, now, session_scope, ◌>>=◌,
}
use agentic_analyst.Store.Keeps.{Keeps, Stands, observe-Stands, Keeps-now}
use agentic_analyst.Runs.Statements.{with_id, overwrite, update_workflow_run, transition_allowed}
use agentic_analyst.Runner.Keys.{Formats}
use agentic_analyst.Runner.Reads.{load_context-Keeps}
use agentic_analyst.Runner.Execute.{
  GraphState, as_failed, as_succeeded, failure_summary, update_run, fail_run, drive, proceed,
  graph_state,
}
use agentic_analyst.Runner.Endings.{
  IsRunning, Ended, has_succeeded, has_failed, failure_summary-IsSanitized, not_refused,
  update_accepted,
}

module _ (e : Env) (f : Formats) (run : WorkflowRun)
    (others : (n : ℕ) (d : Db) → IsRunning run d → IsRunning run (e.others n d)) where
  -- The run as it is stored at its end.
  abbrev at_end : WorkflowStatus → Option Text → Datetime → WorkflowRun
  at_end status summary t = record run {
    status = status;
    error_summary = summary;
    completed_at = some t;
  }

  update_run_ends :
      (status : WorkflowStatus) (summary : Option Text) (t : Datetime) (w : World)
      → Stands (IsRunning run) w
      → transition_allowed running status ≡ true
      → (r : WorkflowRun) × ((update_run e f (at_end status summary t) w).0 ≡ ok r)
        × (select (with_id run.id) (update_run e f (at_end status summary t) w).1.db.runs ≡ r ∷ [])
        × (r.status ≡ status)
        × (r.error_summary ≡ summary)
        × (r.completed_at ≡ some t)
  unfolding update_run session_scope update_workflow_run execute
  update_run_ends status summary t w h allowed =
      let now_running = (observe-Stands (IsRunning run) e others w h).0 in
      let new = at_end status summary t in
      let (updated, left) = update_accepted new now_running.row (observe e w).db now_running.found (
        not_refused new now_running.row now_running.key now_running.cadence now_running.status
          allowed) in
      (overwrite new now_running.row, rw updated refl, rw updated left, refl, refl, refl)

  fail_run_ends :
      (x : Error) (w : World)
      → Stands (IsRunning run) w
      → Ended f run (fail_run e f run x w).0 (fail_run e f run x w).1.db
  unfolding fail_run now transition_allowed
  fail_run_ends x w h =
      let t = e.clock w.tick in
      let w' = record w { tick = suc w.tick } in
      let (r, result, found, status, summary, completed) =
        update_run_ends failed (some (failure_summary f x)) t w' h refl in
      rw result (
        has_failed x r t (update_run e f (as_failed e f run x t) w').1.db (failure_summary f x)
          found status summary (failure_summary-IsSanitized f x) completed)

  -- The execution has succeeded, or the run is RUNNING as before.
  abbrev Driven : Result WorkflowRun → World → Type 0
  Driven (ok r) w = Ended f run (ok r) w.db
  Driven (err x) w = Stands (IsRunning run) w

  succeed_ends :
      (t : Datetime) (w : World)
      → Stands (IsRunning run) w
      → Driven
          (update_run e f (as_succeeded e f run t) w).0
          (update_run e f (as_succeeded e f run t) w).1
  unfolding transition_allowed
  succeed_ends t w h =
      let (r, result, found, status, summary, completed) =
        update_run_ends succeeded none t w h refl in
      rw result (
        has_succeeded r t (update_run e f (as_succeeded e f run t) w).1.db found status summary
          completed)

  Driven-bind {ℓ} :
      {A : Type ℓ} (m : M A) (k : A → M WorkflowRun) (w : World)
      → Keeps (IsRunning run) m
      → Stands (IsRunning run) w
      → ((a : A) (w' : World) → Stands (IsRunning run) w' → Driven (k a w').0 (k a w').1)
      → Driven ((m >>= k) w).0 ((m >>= k) w).1
  Driven-bind {A} m k w km h next = continued (m w).0 (m w).1 (km.run w h)
    where
      continued :
          (r : Result A) (w' : World)
          → Stands (IsRunning run) w'
          → Driven (and_then r k w').0 (and_then r k w').1
      continued (ok a) w' h' = next a w' h'
      continued (err x) w' h' = h'

  module _ (invoke : GraphState → M (Unit {0}))
      (graph : (g : GraphState) → Keeps (IsRunning run) (invoke g)) (cadence : Cadence)
      (topic_id : Uuid) (start end : Date) (summaries : List BatchSummary) where
    drive-Driven :
        (w : World)
        → Stands (IsRunning run) w
        → Driven
            (drive e f invoke cadence run topic_id start end summaries w).0
            (drive e f invoke cadence run topic_id start end summaries w).1
    unfolding drive
    drive-Driven w h =
        Driven-bind _ _ w (load_context-Keeps (IsRunning run) e others f cadence topic_id start) h
          λ context w1 h1.
            Driven-bind (emit (graph_invoked run.id)) _ w1 (record { run = λ w h. h }) h1
              λ _ w2 h2.
                Driven-bind _ _ w2
                  (graph (graph_state cadence run topic_id start end summaries context)) h2
                  λ _ w3 h3. Driven-bind _ _ w3 (Keeps-now (IsRunning run) e others) h3 succeed_ends

    -- If the row of the run is RUNNING when the execution of the claimed run starts, and neither other
    -- sessions nor the graph end it, the execution ends the run: it returns the stored row, which is
    -- SUCCEEDED without an error summary; or it raises an error, and the stored row is FAILED, and its
    -- summary is the class name of this error with a fixed text for errors of a model or another for
    -- all else. Either row has its time of completion.
    pub proceed-Ended :
        (key : Text) (w : World)
        → Stands (IsRunning run) w
        → Ended f run
            (proceed e f invoke cadence topic_id start end summaries key (some run) w).0
            (proceed e f invoke cadence topic_id start end summaries key (some run) w).1.db
    unfolding proceed
    proceed-Ended key w h =
        handled (drive e f invoke cadence run topic_id start end summaries w).0
          (drive e f invoke cadence run topic_id start end summaries w).1 (drive-Driven w h)
      where
        handled :
            (r : Result WorkflowRun) (w' : World)
            → Driven r w'
            → Ended f run (handle r (fail_run e f run) w').0 (handle r (fail_run e f run) w').1.db
        handled (ok r) w' done = done
        handled (err x) w' h' = fail_run_ends x w' h'
