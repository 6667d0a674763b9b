-- ===== src/Runner/Outcome.antt =====
-- What the execution of a claimed run returns.
use agentic_analyst.Prelude.{suc, ◌≡◌, refl, ap, ◌∙◌, List, some, Text, arith}
use agentic_analyst.Domain.Values.{Uuid, Date, Cadence, succeeded}
use agentic_analyst.Domain.Errors.{Error, Result, ok, err}
use agentic_analyst.Domain.Articles.{BatchSummary}
use agentic_analyst.Domain.Briefs.{WorkflowRun}
use agentic_analyst.Store.Tables.{Db}
use agentic_analyst.Store.Session.{
  Env, World, M, and_then, handle, observe, execute, written, now, session_scope, close_session,
}
use agentic_analyst.Runs.Statements.{update_statement, update_workflow_run}
use agentic_analyst.Runs.Rows.{update_inversion}
use agentic_analyst.Runner.Keys.{Formats}
use agentic_analyst.Runner.Execute.{
  GraphState, as_failed, as_succeeded, update_run, fail_run, suppressed, drive, proceed,
  load_context, graph_state,
}

and_then_ok {ℓ κ} :
    {A : Type ℓ} {B : Type κ} (r : Result A) (f : A → M B) (w : World) {b : B}
    → (and_then r f w).0 ≡ ok b
    → (a : A) × (r ≡ ok a) × ((f a w).0 ≡ ok b)
and_then_ok (ok a) f w h = (a, refl, h)
and_then_ok (err x) f w h = cc

suppressed_lem : (m : M WorkflowRun) (w : World) → suppressed m w ≡ (ok tt, (m w).1)
suppressed_lem m w = ground arith

module _ (e : Env) (f : Formats) where
  update_run_status :
      (run r : WorkflowRun) (w : World) → (update_run e f run w).0 ≡ ok r → r.status ≡ run.status
  unfolding update_run session_scope update_workflow_run execute
  update_run_status run r w h = of_statement (update_statement run d) refl h
    where
      d : Db
      d = (observe e w).db

      of_statement :
          (x : Result (WorkflowRun × Db))
          → update_statement run d ≡ x
          → (close_session (written e x (observe e w))).0 ≡ ok r
          → r.status ≡ run.status
      of_statement (ok (r', d')) q h' =
          let (row, found, accepted, result) = update_inversion run d q in cc
      of_statement (err x) q h' = cc

  module _ (invoke : GraphState → M (Unit {0})) (cadence : Cadence) (topic_id : Uuid)
      (start end : Date) (summaries : List BatchSummary) where
    drive_status :
        (run r : WorkflowRun) (w : World)
        → (drive e f invoke cadence run topic_id start end summaries w).0 ≡ ok r
        → r.status ≡ succeeded
    unfolding drive now
    drive_status run r w h =
        let (context, _, h1) = and_then_ok (load_context e f cadence topic_id start w).0 _ _ h in
        let (_, _, h2) =
          and_then_ok (invoke (graph_state cadence run topic_id start end summaries context) _).0 _
            _ h1 in
        update_run_status (as_succeeded e f run _) r _ h2

    fail_run_lem :
        (run : WorkflowRun) (x : Error) (w : World)
        → fail_run e f run x w ≡ (
          err x,
          (update_run e f
              (as_failed e f run x (e.clock w.tick))
              (record w { tick = suc w.tick })).1,
        )
    unfolding fail_run now
    fail_run_lem run x w =
        rw
          (suppressed_lem (update_run e f (as_failed e f run x (e.clock w.tick)))
            (record w { tick = suc w.tick }))
          refl

    -- When the execution of a claimed run returns a run, that run is SUCCEEDED.
    pub proceed_success :
        (key : Text) (run r : WorkflowRun) (w : World)
        → (proceed e f invoke cadence topic_id start end summaries key (some run) w).0 ≡ ok r
        → r.status ≡ succeeded
    unfolding proceed
    proceed_success key run r w h =
        of_drive (drive e f invoke cadence run topic_id start end summaries w) refl h
      where
        of_drive :
            (o : Result WorkflowRun × World)
            → drive e f invoke cadence run topic_id start end summaries w ≡ o
            → (handle o.0 (fail_run e f run) o.1).0 ≡ ok r
            → r.status ≡ succeeded
        of_drive (ok r', w') q h' =
            drive_status run r w (ap (λ (o : Result WorkflowRun × World). o.0) q ∙ h')
        of_drive (err x, w') q h' = let out = fail_run_lem run x w' in cc
