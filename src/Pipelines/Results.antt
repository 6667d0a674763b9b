-- ===== src/Pipelines/Results.antt =====
-- What a run of the weekly or the monthly pipeline reports, and that a retry does no work.
use agentic_analyst.Prelude.{
  ℕ, ◌≡◌, refl, Bool, true, false, List, [], ◌∷◌, Option, none, some, length, Bool-cases, inl, inr,
}
use agentic_analyst.Domain.Values.{Uuid, Date, Cadence, WorkflowStatus, status_eq, succeeded}
use agentic_analyst.Domain.Articles.{BatchSummary}
use agentic_analyst.Domain.Briefs.{Brief, WorkflowRun}
use agentic_analyst.Store.Session.{Env, M, query, session_scope}
use agentic_analyst.Store.Returns.{Returns, Returns-bind, Returns-then, Returns-pure}
use agentic_analyst.Runs.Statements.{get_workflow_run_by_idempotency}
use agentic_analyst.Runs.Rows.{status_eq_sound}
use agentic_analyst.Briefs.Queries.{get_brief_by_cadence_interval}
use agentic_analyst.Runner.Keys.{Formats, run_key}
use agentic_analyst.Runner.Execute.{GraphState}
use agentic_analyst.Pipelines.Selection.{is_settled, brief_id_of, select_summaries, find_brief}
use agentic_analyst.Pipelines.Periodic.{
  PeriodicPipelineResult, window_of, no_content, briefed, run_cadence, brief_window,
  without_selection, with_selection, run_window, run_periodic,
}

-- A window without content has no selection, no run and no brief; any other has a run, and a brief
-- only if the run has succeeded.
abbrev pub IsReport : Bool → ℕ → Option Uuid → Option WorkflowStatus → Option Uuid → Type 0
IsReport true n none none none = n ≡ 0
IsReport false n (some run) (some status) none = Unit
IsReport false n (some run) (some succeeded) (some brief) = Unit
IsReport _ _ _ _ _ = ⊥

abbrev pub IsPeriodicResult : Cadence → Uuid → Date × Date → PeriodicPipelineResult → Type 0
IsPeriodicResult cadence topic_id (start, end) r =
    (r.cadence ≡ cadence)
    × (r.topic_id ≡ topic_id)
    × (r.covered_start ≡ start)
    × (r.covered_end ≡ end)
    × IsReport r.is_no_content r.summaries_selected r.workflow_run_id r.workflow_status r.brief_id

abbrev pub IsBriefFor : WorkflowStatus → Option Uuid → Type 0
IsBriefFor status none = Unit
IsBriefFor status (some brief) = status ≡ succeeded

pub report :
    (n : ℕ) (id : Uuid) (s : WorkflowStatus) (o : Option Uuid)
    → IsBriefFor s o
    → IsReport false n (some id) (some s) o
report n id s none h = tt
report n id s (some b) h = rw h tt

module _ (e : Env) (f : Formats) (invoke : GraphState → M (Unit {0})) where
  pub find_brief-IsBriefFor :
      (cadence : Cadence) (topic_id : Uuid) (start end : Date) (s : WorkflowStatus)
      → Returns (IsBriefFor s) (find_brief e cadence topic_id start end s)
  unfolding find_brief
  find_brief-IsBriefFor cadence topic_id start end s = elim (Bool-cases (status_eq s succeeded)) [
    | inl done ↦ rw done (
        Returns-then
          (session_scope (query e (get_brief_by_cadence_interval cadence start end topic_id))) _
          (λ o. Returns-pure (brief_id_of o) (found o (status_eq_sound s succeeded done))))
    | inr open_run ↦ rw open_run (Returns-pure none tt)
  ]
    where
      found : (o : Option Brief) → s ≡ succeeded → IsBriefFor s (brief_id_of o)
      found none h = tt
      found (some b) h = h

  module _ (cadence : Cadence) (today : Date) (topic_id : Uuid) where
    brief_window_lem :
        (start end : Date) (selected : List BatchSummary)
        → Returns
            (IsPeriodicResult cadence topic_id (start, end))
            (brief_window e f invoke cadence today topic_id start end selected)
    unfolding brief_window
    brief_window_lem start end selected =
        Returns-then (run_cadence e f invoke cadence today start topic_id selected) _ λ run.
          Returns-bind (find_brief e cadence topic_id start end run.status) _
            (find_brief-IsBriefFor cadence topic_id start end run.status)
            λ o h.
              Returns-pure (briefed cadence topic_id start end (length selected) run o)
                (refl, refl, refl, refl, report (length selected) run.id run.status o h)

    without_selection_lem :
        (start end : Date) (existing : Option WorkflowRun)
        → Returns
            (IsPeriodicResult cadence topic_id (start, end))
            (without_selection e f invoke cadence today topic_id start end existing)
    unfolding without_selection
    without_selection_lem start end existing = elim (Bool-cases (is_settled existing)) [
      | inl settled ↦ rw settled (brief_window_lem start end [])
      | inr unsettled ↦
          rw unsettled
            (Returns-pure (no_content cadence topic_id start end) (refl, refl, refl, refl, refl))
    ]

    with_selection_lem :
        (start end : Date) (selected : List BatchSummary)
        → Returns
            (IsPeriodicResult cadence topic_id (start, end))
            (with_selection e f invoke cadence today topic_id start end selected)
    unfolding with_selection
    with_selection_lem start end [] =
        Returns-then
          (session_scope (get_workflow_run_by_idempotency e (run_key f cadence topic_id start end)))
          _ (without_selection_lem start end)
    with_selection_lem start end (s ∷ selected) = brief_window_lem start end (s ∷ selected)

-- A result of the weekly or monthly pipeline is for the window of the anchor, the topic and the
-- cadence; it either reports no content, with no summaries, run or brief, or it names a run, and a
-- brief only if this run has succeeded.
pub run_periodic-IsPeriodicResult :
    (e : Env) (f : Formats) (invoke : GraphState → M (Unit {0})) (cadence : Cadence)
    (today anchor : Date) (topic_id : Uuid)
    → Returns
        (IsPeriodicResult cadence topic_id (window_of cadence anchor))
        (run_periodic e f invoke cadence today (some anchor) topic_id)
unfolding run_periodic run_window
run_periodic-IsPeriodicResult e f invoke cadence today anchor topic_id =
    let (start, end) = window_of cadence anchor in
    Returns-then (select_summaries e cadence topic_id start end) _
      (with_selection_lem e f invoke cadence today topic_id start end)
