-- ===== src/Pipelines/Selection.antt =====
-- The summaries that `PeriodicBriefPipeline.run` selects.
use agentic_analyst.Prelude.{Bool, false, ◌||◌, List, [], ◌∷◌, Option, none, some, if◌then◌else◌}
use agentic_analyst.Domain.Values.{
  Uuid, Date, Cadence, WorkflowStatus, status_eq, succeeded, failed,
}
use agentic_analyst.Domain.Errors.{ok}
use agentic_analyst.Domain.Articles.{BatchSummary}
use agentic_analyst.Domain.Briefs.{Brief, WorkflowRun}
use agentic_analyst.Store.Session.{Env, M, pure, query, session_scope, ◌>>=◌}
use agentic_analyst.Briefs.Queries.{
  list_eligible_batch_summaries_for_window, is_batch_summary_cited, get_brief_by_cadence_interval,
}

-- `existing_run.status in (SUCCEEDED, FAILED)`
abbrev pub is_settled : Option WorkflowRun → Bool
is_settled none = false
is_settled (some run) = status_eq run.status succeeded || status_eq run.status failed

abbrev pub brief_id_of : Option Brief → Option Uuid
brief_id_of none = none
brief_id_of (some b) = some b.id

module _ (e : Env) where
  abbrev pub prepend : {A : Type 0} → A → Bool → M (List A) → M (List A)
  prepend a skip rest = if skip then rest else (rest >>= λ xs. pure (a ∷ xs))

  -- The loop over the candidates.
  unfoldable pub drop_cited : Cadence → Date → Date → List BatchSummary → M (List BatchSummary)
  unfolding query
  drop_cited cadence start end [] = pure []
  drop_cited cadence start end (s ∷ candidates) =
      query e (is_batch_summary_cited s.id cadence start end) >>= λ already_cited.
      prepend s already_cited (drop_cited cadence start end candidates)

  -- The session that selects.
  unfoldable pub select_summaries : Cadence → Uuid → Date → Date → M (List BatchSummary)
  unfolding query drop_cited session_scope
  select_summaries cadence topic_id start end = session_scope (
      query e (λ d. ok (list_eligible_batch_summaries_for_window start end topic_id d))
      >>= drop_cited cadence start end)

  -- The brief of a succeeded run.
  unfoldable pub find_brief : Cadence → Uuid → Date → Date → WorkflowStatus → M (Option Uuid)
  unfolding query session_scope
  find_brief cadence topic_id start end status =
      if status_eq status succeeded
      then session_scope (query e (get_brief_by_cadence_interval cadence start end topic_id))
        >>= (λ o. pure (brief_id_of o))
      else pure none
