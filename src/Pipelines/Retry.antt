-- ===== src/Pipelines/Retry.antt =====
-- A retry of the weekly or monthly pipeline for a window whose run has ended.
use agentic_analyst.Prelude.{
  ◌≡◌, ◌≢◌, refl, ◌⊎◌, arith, true, List, [], ◌∷◌, Option, none, some, length, Bool-cases, inl, inr,
}
use agentic_analyst.Domain.Values.{
  Uuid, Date, Cadence, daily, weekly, monthly, WorkflowStatus, pending, succeeded, failed,
  status_eq,
}
use agentic_analyst.Domain.Errors.{ok, Ensures}
use agentic_analyst.Domain.Articles.{BatchSummary}
use agentic_analyst.Domain.Briefs.{WorkflowRun}
use agentic_analyst.Store.Tables.{Db}
use agentic_analyst.Store.Session.{Event, World, Env, M, query, session_scope}
use agentic_analyst.Store.Upholds.{Upholds, Upholds-bind, Upholds-pure}
use agentic_analyst.Store.Alone.{
  alone, Reads, observe-Reads, Upholds-read, Upholds-scope, Upholds-forget,
}
use agentic_analyst.Store.Logs.{Anything}
use agentic_analyst.Runs.Statements.{find_by_key, get_workflow_run_by_idempotency}
use agentic_analyst.Calendar.Windows.{week_window, month_window}
use agentic_analyst.Briefs.Queries.{
  get_brief_by_cadence_interval, list_eligible_batch_summaries_for_window,
}
use agentic_analyst.Runner.Keys.{Formats, run_key}
use agentic_analyst.Runner.Execute.{GraphState, execute_workflow}
use agentic_analyst.Runner.Idempotence.{execute_workflow_again}
use agentic_analyst.Pipelines.Selection.{
  is_settled, brief_id_of, select_summaries, find_brief, drop_cited,
}
use agentic_analyst.Pipelines.Evidence.{drop_cited-Upholds}
use agentic_analyst.Pipelines.Periodic.{
  PeriodicPipelineResult, window_of, briefed, run_cadence, brief_window, without_selection,
  with_selection, run_window, run_periodic, run_weekly, run_monthly,
}

-- The result names this run and its status.
abbrev pub Names : WorkflowRun → PeriodicPipelineResult → Type 0
Names run r = (r.workflow_run_id ≡ some run.id) × (r.workflow_status ≡ some run.status)

module _ (e : Env) (f : Formats) (invoke : GraphState → M (Unit {0})) (d : Db) (log : List Event)
    (run : WorkflowRun) where
  execute_known :
      (cadence : Cadence) (topic_id : Uuid) (start end : Date) (summaries : List BatchSummary)
      → find_by_key (run_key f cadence topic_id start end) d ≡ ok (some run)
      → run.status ≢ pending
      → Upholds
          (Reads d log)
          (λ r. r ≡ run)
          (execute_workflow (alone e) f invoke cadence topic_id start end summaries)
  execute_known cadence topic_id start end summaries found ended = record {
    run = λ w (same, closed, kept).
        let again =
          execute_workflow_again (alone e) f invoke cadence topic_id start end summaries w run
            closed (rw same found) ended in
        rw again (observe-Reads e d log w (same, closed, kept), refl);
  }

  run_cadence_known :
      (cadence : Cadence) (today anchor : Date) (topic_id : Uuid) (summaries : List BatchSummary)
      → cadence ≢ daily
      → find_by_key
          (run_key f cadence topic_id (window_of cadence anchor).0 (window_of cadence anchor).1)
          d
        ≡ ok (some run)
      → run.status ≢ pending
      → Upholds
          (Reads d log)
          (λ r. r ≡ run)
          (run_cadence
            (alone e)
            f
            invoke
            cadence
            today
            (window_of cadence anchor).0
            topic_id
            summaries)
  unfolding run_cadence run_weekly run_monthly window_of week_window month_window
  run_cadence_known daily today anchor topic_id summaries periodic found ended =
      absurd (periodic refl)
  run_cadence_known weekly today anchor topic_id summaries periodic found ended =
      execute_known weekly topic_id _ _ summaries found ended
  run_cadence_known monthly today anchor topic_id summaries periodic found ended =
      execute_known monthly topic_id _ _ summaries found ended

  find_brief-Reads :
      (cadence : Cadence) (topic_id : Uuid) (start end : Date) (s : WorkflowStatus)
      → Upholds (Reads d log) Anything (find_brief (alone e) cadence topic_id start end s)
  unfolding find_brief
  find_brief-Reads cadence topic_id start end s = elim (Bool-cases (status_eq s succeeded)) [
    | inl done ↦ rw done (
        Upholds-bind (Reads d log)
          (session_scope
            (query (alone e) (get_brief_by_cadence_interval cadence start end topic_id)))
          _
          (Upholds-scope e d log _
            (Upholds-read e d log (get_brief_by_cadence_interval cadence start end topic_id)))
          (λ o _. Upholds-pure (Reads d log) {R = Anything} (brief_id_of o) tt))
    | inr other ↦ rw other (Upholds-pure (Reads d log) {R = Anything} none tt)
  ]

  module _ (cadence : Cadence) (today anchor : Date) (topic_id : Uuid) (periodic : cadence ≢ daily)
      (found : find_by_key
          (run_key f cadence topic_id (window_of cadence anchor).0 (window_of cadence anchor).1)
          d
        ≡ ok (some run))
      (ended : run.status ≢ pending) (settled : is_settled (some run) ≡ true) where
    brief_window_known :
        (selected : List BatchSummary)
        → Upholds (Reads d log) (Names run) (
            brief_window
              (alone e)
              f
              invoke
              cadence
              today
              topic_id
              (window_of cadence anchor).0
              (window_of cadence anchor).1
              selected)
    unfolding brief_window
    brief_window_known selected =
        Upholds-bind (Reads d log)
          (run_cadence (alone e) f invoke cadence today (window_of cadence anchor).0 topic_id
            selected)
          _ (run_cadence_known cadence today anchor topic_id selected periodic found ended)
          λ r same.
            Upholds-bind (Reads d log)
              (find_brief (alone e) cadence topic_id (window_of cadence anchor).0
                (window_of cadence anchor).1 r.status)
              _
              (find_brief-Reads cadence topic_id (window_of cadence anchor).0
                (window_of cadence anchor).1 r.status)
              λ o _.
                Upholds-pure (Reads d log)
                  (briefed cadence topic_id (window_of cadence anchor).0
                    (window_of cadence anchor).1 (length selected) r o)
                  (rw same (refl, refl))

    with_selection_known :
        (selected : List BatchSummary)
        → Upholds (Reads d log) (Names run) (
            with_selection
              (alone e)
              f
              invoke
              cadence
              today
              topic_id
              (window_of cadence anchor).0
              (window_of cadence anchor).1
              selected)
    unfolding with_selection get_workflow_run_by_idempotency without_selection
    with_selection_known (s ∷ selected) = brief_window_known (s ∷ selected)
    with_selection_known [] =
        Upholds-bind (Reads d log)
          (session_scope (
            get_workflow_run_by_idempotency (alone e) (
              run_key f cadence topic_id (window_of cadence anchor).0
                (window_of cadence anchor).1)))
          _
          (Upholds-scope e d log _ (
            Upholds-read e d log (
              find_by_key (
                run_key f cadence topic_id (window_of cadence anchor).0
                  (window_of cadence anchor).1))))
          known
      where
        known :
            (o : Option WorkflowRun)
            → find_by_key
                (run_key f cadence topic_id
                  (window_of cadence anchor).0
                  (window_of cadence anchor).1)
                d
              ≡ ok o
            → Upholds (Reads d log) (Names run) (
                without_selection
                  (alone e)
                  f
                  invoke
                  cadence
                  today
                  topic_id
                  (window_of cadence anchor).0
                  (window_of cadence anchor).1
                  o)
        known o answer = let same : o ≡ some run = cc in rw (same, settled) (brief_window_known [])

select_summaries-Reads :
    (e : Env) (d : Db) (log : List Event) (cadence : Cadence) (topic_id : Uuid) (start end : Date)
    → Upholds (Reads d log) Anything (select_summaries (alone e) cadence topic_id start end)
unfolding select_summaries
select_summaries-Reads e d log cadence topic_id start end = Upholds-scope e d log _ (
    Upholds-bind (Reads d log)
      (query (alone e) (λ d. ok (list_eligible_batch_summaries_for_window start end topic_id d)))
      (drop_cited (alone e) cadence start end)
      (Upholds-read e d log
        (λ d. ok (list_eligible_batch_summaries_for_window start end topic_id d)))
      (λ candidates answer.
        Upholds-forget (Reads d log) (drop_cited-Upholds e d log cadence start end candidates)))

-- If a run for the window of the anchor has SUCCEEDED or FAILED, and no other session interferes, a
-- further run of the weekly or monthly pipeline for any anchor of the window changes nothing in the
-- database, calls no graph, and reports this run with its status, if it does not fail.
pub run_periodic_again :
    (e : Env) (f : Formats) (invoke : GraphState → M (Unit {0})) (cadence : Cadence)
    (today anchor : Date) (topic_id : Uuid) (run : WorkflowRun) (w : World)
    → cadence ≢ daily
    → w.snapshot ≡ none
    → find_by_key
        (run_key f cadence topic_id (window_of cadence anchor).0 (window_of cadence anchor).1)
        w.db
      ≡ ok (some run)
    → (run.status ≡ succeeded) ⊎ (run.status ≡ failed)
    → let out = run_periodic (alone e) f invoke cadence today (some anchor) topic_id w in
      (out.1.db ≡ w.db) × (out.1.log ≡ w.log) × Ensures (Names run) out.0
unfolding run_periodic run_window
run_periodic_again e f invoke cadence today anchor topic_id run w periodic closed found ended =
    let (start, end) = window_of cadence anchor in
    let settled : is_settled (some run) ≡ true = ground arith in
    let not_pending : run.status ≢ pending = ground arith in
    let ((same, none_open, kept), named) =
      (Upholds-bind (Reads w.db w.log) (select_summaries (alone e) cadence topic_id start end) _
          (select_summaries-Reads e w.db w.log cadence topic_id start end)
          (λ selected _.
            with_selection_known e f invoke w.db w.log run cadence today anchor topic_id periodic
              found not_pending settled selected)).run
        w (refl, closed, refl) in
    (same, kept, named)
