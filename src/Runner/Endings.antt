-- ===== src/Runner/Endings.antt =====
-- The ways in which the execution of a claimed run ends, and the update that stores its end.
use agentic_analyst.Prelude.{
  ◌≡◌, ◌≢◌, refl, ◌∙◌, true, List, [], ◌∷◌, ◌++◌, none, some, Text, codes, text_eq_refl, map,
  select, arith, ◌==◌, Bool-cases, inl, inr,
}
use agentic_analyst.Domain.Values.{Uuid, Datetime, Cadence, cadence_eq, running, succeeded, failed}
use agentic_analyst.Domain.Errors.{Error, Result, ok, err, model_error}
use agentic_analyst.Domain.Briefs.{WorkflowRun}
use agentic_analyst.Store.Tables.{Db, scalar_one_or_none}
use agentic_analyst.Runs.Statements.{
  with_id, assign, overwrite, update_refusal, update_found, update_statement, transition_allowed,
}
use agentic_analyst.Runner.Keys.{Formats}
use agentic_analyst.Runner.Execute.{failure_summary}

-- The summary is the class name of the error and one of two fixed texts.
pub data IsSanitized (f : Formats) : Error → Text → Type 0 where
  of_provider :
      (message : Text)
      → IsSanitized f
          (model_error message)
          (f.type_name (model_error message) ++ codes ": provider operation failed")
  of_execution :
      (x : Error)
      → ((message : Text) → x ≢ model_error message)
      → IsSanitized f x (f.type_name x ++ codes ": workflow execution failed")

-- The table has one row with the identifier of the run, which is RUNNING under its key and cadence.
pub record IsRunning (run : WorkflowRun) (d : Db) : Type 0 where
  pub row : WorkflowRun
  pub found : select (with_id run.id) d.runs ≡ row ∷ []
  pub key : row.idempotency_key ≡ run.idempotency_key
  pub cadence : row.cadence ≡ run.cadence
  pub status : row.status ≡ running

-- The result of the execution, and the database that it leaves.
pub data Ended (f : Formats) (run : WorkflowRun) : Result WorkflowRun → Db → Type 0 where
  has_succeeded :
      (r : WorkflowRun) (t : Datetime) (d : Db)
      → select (with_id run.id) d.runs ≡ r ∷ []
      → r.status ≡ succeeded
      → r.error_summary ≡ none
      → r.completed_at ≡ some t
      → Ended f run (ok r) d
  has_failed :
      (x : Error) (r : WorkflowRun) (t : Datetime) (d : Db) (summary : Text)
      → select (with_id run.id) d.runs ≡ r ∷ []
      → r.status ≡ failed
      → r.error_summary ≡ some summary
      → IsSanitized f x summary
      → r.completed_at ≡ some t
      → Ended f run (err x) d

pub failure_summary-IsSanitized : (f : Formats) (x : Error) → IsSanitized f x (failure_summary f x)
unfolding failure_summary
failure_summary-IsSanitized f (model_error message) = of_provider message
failure_summary-IsSanitized f x = of_execution _ (λ message e. cc)

select-assign :
    (id : Uuid) (change : WorkflowRun → WorkflowRun)
    → ((x : WorkflowRun) → (change x).id ≡ x.id)
    → (xs : List WorkflowRun)
    → select (with_id id) (assign id change xs) ≡ map change (select (with_id id) xs)
select-assign id change same [] = refl
select-assign id change same (x ∷ xs) = elim (Bool-cases (x.id == id)) [
  | inl hit ↦ rw (hit, same x, hit, select-assign id change same xs) refl
  | inr miss ↦ rw (miss, miss, select-assign id change same xs) refl
]

cadence_eq_refl : (c : Cadence) → cadence_eq c c ≡ true
cadence_eq_refl c = ground arith

-- An update of a RUNNING row to a final status is not refused.
pub not_refused :
    (new row : WorkflowRun)
    → row.idempotency_key ≡ new.idempotency_key
    → row.cadence ≡ new.cadence
    → row.status ≡ running
    → transition_allowed running new.status ≡ true
    → update_refusal new row ≡ none
unfolding update_refusal
not_refused new row same_key same_cadence status allowed =
    rw
      (
        same_key,
        same_cadence,
        status,
        allowed,
        text_eq_refl new.idempotency_key,
        cadence_eq_refl new.cadence,
      )
      (ground arith)

found_accepted :
    (new row : WorkflowRun) (d : Db)
    → update_refusal new row ≡ none
    → update_found new (some row) d
      ≡ ok (overwrite new row, record d { runs = assign new.id (overwrite new) d.runs })
found_accepted new row d h = rw (h, update_found) refl

-- The table behind an accepted update: its row is the old one with the new columns.
pub update_accepted :
    (new row : WorkflowRun) (d : Db)
    → select (with_id new.id) d.runs ≡ row ∷ []
    → update_refusal new row ≡ none
    → (update_statement new d
        ≡ ok (overwrite new row, record d { runs = assign new.id (overwrite new) d.runs }))
      × (select (with_id new.id) (assign new.id (overwrite new) d.runs) ≡ overwrite new row ∷ [])
unfolding update_statement scalar_one_or_none
update_accepted new row d found accepted = (
  rw found (found_accepted new row d accepted),
  select-assign new.id (overwrite new) (λ x. refl) d.runs ∙ rw found refl,
)
