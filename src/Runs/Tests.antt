-- ===== src/Runs/Tests.antt =====
-- The statements on workflow runs at small databases, and the theorems there.
use agentic_analyst.Prelude.{
  ◌≡◌, refl, inl, List, [], ◌∷◌, Option, none, some, Text, codes, text_eq,
}
use agentic_analyst.Domain.Values.{Uuid, WorkflowStatus, pending, succeeded, failed, daily}
use agentic_analyst.Domain.Errors.{
  ok, err, invalid_workflow_run_transition, integrity_error, workflow_run_not_found,
}
use agentic_analyst.Domain.Briefs.{WorkflowRun}
use agentic_analyst.Store.Tables.{Db, empty_db, scalar_one_or_none}
use agentic_analyst.Runs.Statements.{
  transition_allowed, insert_run, update_statement, update_refusal, claim_statement, find_by_key,
  claimed,
}
use agentic_analyst.Runs.Unique.{AreUnique, one_run_per_key}
use agentic_analyst.Runs.Closed.{Within, here, next, created, updated, claimed_run}
use agentic_analyst.Runs.Outcomes.{final_status_stays, claim_once}

abbrev run : Uuid → Text → WorkflowStatus → WorkflowRun
run id key status = record {
  id = id;
  cadence = daily;
  idempotency_key = key;
  status = status;
  checkpoint_ref = none;
  error_summary = none;
  started_at = 5;
  completed_at = none;
}

abbrev first : WorkflowRun
first = run 1 (codes "daily:a") pending

abbrev second : WorkflowRun
second = run 2 (codes "daily:b") pending

abbrev with_runs : List WorkflowRun → Db
with_runs rows = record empty_db { runs = rows }

abbrev waiting : Db
waiting = with_runs (first ∷ [])

abbrev taken : Db
taken = with_runs (claimed first first ∷ [])

abbrev finished : Db
finished = with_runs (run 1 (codes "daily:a") succeeded ∷ [])

statements : Unit {0}
unfolding insert_run update_statement update_refusal claim_statement find_by_key text_eq
    scalar_one_or_none transition_allowed
statements = tt

claim-waiting : claim_statement first waiting ≡ ok (some (claimed first first), taken)
unfolding statements
claim-waiting = refl

insert-taken : insert_run second taken ≡ ok (second, with_runs (claimed first first ∷ second ∷ []))
unfolding statements
insert-taken = refl

insert_same_key : insert_run (run 9 (codes "daily:a") pending) taken ≡ err integrity_error
unfolding statements
insert_same_key = refl

update-taken :
    update_statement (run 1 (codes "daily:a") succeeded) taken
    ≡ ok (run 1 (codes "daily:a") succeeded, finished)
unfolding statements
update-taken = refl

-- A finished run may be written again with its own status, and with no other.
update-finished :
    update_statement (run 1 (codes "daily:a") failed) finished ≡ err invalid_workflow_run_transition
unfolding statements
update-finished = refl

update_absent : update_statement second finished ≡ err workflow_run_not_found
unfolding statements
update_absent = refl

one_run_per_key_example :
    AreUnique finished.runs
    × ((o : Option WorkflowRun) × (find_by_key (codes "daily:a") finished ≡ ok o))
one_run_per_key_example =
    one_run_per_key (codes "daily:a") waiting finished (refl, tt)
      (next (next here (claimed_run first claim-waiting))
        (updated (run 1 (codes "daily:a") succeeded) update-taken))

final_status_stays_example :
    Within 1 (λ t. t ≡ succeeded) (with_runs (run 1 (codes "daily:a") succeeded ∷ second ∷ []))
unfolding statements
final_status_stays_example =
    final_status_stays 1 succeeded finished
      (with_runs (run 1 (codes "daily:a") succeeded ∷ second ∷ [])) (inl refl)
      (refl, ((λ i. refl), tt)) (next here (created second insert-finished))
  where
    insert-finished :
        insert_run second finished
        ≡ ok (second, with_runs (run 1 (codes "daily:a") succeeded ∷ second ∷ []))
    insert-finished = refl

claim_once_example :
    claim_statement first (with_runs (claimed first first ∷ second ∷ []))
    ≡ ok (none, with_runs (claimed first first ∷ second ∷ []))
claim_once_example =
    claim_once first first waiting taken (with_runs (claimed first first ∷ second ∷ []))
      (claimed first first) refl claim-waiting (next here (created second insert-taken))
