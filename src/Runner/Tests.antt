-- ===== src/Runner/Tests.antt =====
-- The runner in small worlds, and its theorems there.
use agentic_analyst.Prelude.{
  ℕ, zero, suc, ◌+◌, ◌≡◌, refl, inl, [], ◌∷◌, none, some, Text, codes, text_eq, arith, sort_by,
}
use agentic_analyst.Domain.Values.{daily, running, succeeded}
use agentic_analyst.Domain.Errors.{ok, err, model_error}
use agentic_analyst.Domain.Briefs.{WorkflowRun}
use agentic_analyst.Store.Tables.{empty_db, scalar_one_or_none}
use agentic_analyst.Store.Session.{
  Env, World, M, pure, raise, observe, query, execute, now, uuid4, session_scope, graph_invoked,
}
use agentic_analyst.Briefs.Queries.{
  latest_narrative_id, list_prior_briefs, get_narrative_version_as_of,
}
use agentic_analyst.Runs.Statements.{
  transition_allowed, insert_run, update_refusal, update_statement, claim_statement, find_by_key,
  create_workflow_run, update_workflow_run, claim_pending_workflow_run,
  get_workflow_run_by_idempotency,
}
use agentic_analyst.Runs.Closed.{here}
use agentic_analyst.Runner.Keys.{Formats, LacksColon, run_key, run_key_injective}
use agentic_analyst.Runner.Execute.{
  GraphState, is_terminal, prior_cadence, failure_summary, create_new, reload, ensure_run,
  update_run, claim_run, load_context, fail_run, drive, proceed, dispatch, execute_workflow,
}
use agentic_analyst.Runner.Idempotence.{execute_workflow_again}
use agentic_analyst.Runner.Settled.{Settled, execute_workflow-Settled}
use agentic_analyst.Runner.Outcome.{proceed_success}
use agentic_analyst.Runner.Endings.{Ended}
use agentic_analyst.Runner.Ended.{proceed-Ended}

-- A number as that many strokes.
abbrev strokes : ℕ → Text
strokes zero = []
strokes (suc n) = b'|' ∷ strokes n

abbrev formats : Formats
formats = record { type_name = λ x. codes "Error"; show_uuid = strokes; isoformat = strokes }

abbrev env : Env
env = record { others = λ n d. d; clock = λ n. n; uuid = λ n. 10 + n }

abbrev start : World
start = record { db = empty_db; snapshot = none; tick = 0; log = [] }

abbrev silent : GraphState → M (Unit {0})
silent s = pure tt

abbrev broken : GraphState → M (Unit {0})
broken s = raise (model_error [])

program : Unit {0}
unfolding execute_workflow dispatch proceed drive fail_run load_context claim_run update_run
    ensure_run reload create_new is_terminal prior_cadence failure_summary run_key
    create_workflow_run update_workflow_run claim_pending_workflow_run
    get_workflow_run_by_idempotency find_by_key claim_statement update_statement update_refusal
    insert_run transition_allowed latest_narrative_id list_prior_briefs get_narrative_version_as_of
    observe query execute now uuid4 session_scope scalar_one_or_none text_eq sort_by
program = tt

abbrev finished : WorkflowRun
finished = record {
  id = 11;
  cadence = daily;
  idempotency_key = codes "daily:||:|||:|||";
  status = succeeded;
  checkpoint_ref = some (codes "|||||||||||");
  error_summary = none;
  started_at = 2;
  completed_at = some 7;
}

abbrev claimed_run : WorkflowRun
claimed_run = record finished { status = running; completed_at = none }

abbrev after : World
after = (execute_workflow env formats silent daily 2 3 3 [] start).1

first_trigger : (execute_workflow env formats silent daily 2 3 3 [] start).0 ≡ ok finished
unfolding program
first_trigger = refl

log_of_first_trigger : after.log ≡ graph_invoked 11 ∷ []
unfolding program
log_of_first_trigger = refl

abbrev settled_world : World
settled_world = record {
  db = record empty_db { runs = finished ∷ [] };
  snapshot = none;
  tick = 9;
  log = [];
}

broken_trigger : (execute_workflow env formats broken daily 2 3 3 [] start).0 ≡ err (model_error [])
unfolding program
broken_trigger = refl

execute_workflow_again_example :
    execute_workflow env formats broken daily 2 3 3 [] settled_world
    ≡ (ok finished, observe env settled_world)
unfolding program
execute_workflow_again_example =
    execute_workflow_again env formats broken daily 2 3 3 [] settled_world finished refl refl
      (λ e. cc)

execute_workflow-Settled_example :
    Settled 11 succeeded (execute_workflow env formats silent daily 2 3 3 [] settled_world).1.db
execute_workflow-Settled_example =
    execute_workflow-Settled env formats silent daily 2 3 3 [] settled_world 11 succeeded (inl refl)
      (λ n d. here) (λ g. record { run = λ w h. h }) refl ((refl, tt), (refl, ((λ i. refl), tt)))

abbrev claimed_world : World
claimed_world = record {
  db = record empty_db { runs = claimed_run ∷ [] };
  snapshot = none;
  tick = 5;
  log = [];
}

proceed_success_example : finished.status ≡ succeeded
unfolding program
proceed_success_example =
    proceed_success env formats silent daily 2 3 3 [] [] claimed_run finished claimed_world refl

-- The execution of the claimed run on a graph that raises leaves a FAILED row.
proceed-Ended_example :
    Ended formats claimed_run
      (proceed env formats broken daily 2 3 3 [] [] (some claimed_run) claimed_world).0
      (proceed env formats broken daily 2 3 3 [] [] (some claimed_run) claimed_world).1.db
proceed-Ended_example =
    proceed-Ended env formats claimed_run (λ n d h. h) broken (λ g. record { run = λ w h. h }) daily
      2 3 3 [] [] claimed_world
      (record { row = claimed_run; found = refl; key = refl; cadence = refl; status = refl }, tt)

strokes_injective : (a b : ℕ) → strokes a ≡ strokes b → a ≡ b
strokes_injective zero zero e = refl
strokes_injective zero (suc b) e = cc
strokes_injective (suc a) zero e = cc
strokes_injective (suc a) (suc b) e = let tail = strokes_injective a b (cc) in cc

strokes_lack : (a : ℕ) → LacksColon (strokes a)
strokes_lack zero = tt
strokes_lack (suc a) = (omega arith, strokes_lack a)

run_key_injective_example :
    (daily ≡ daily) × (◌≡◌ {A = ℕ} 2 2) × (◌≡◌ {A = ℕ} 3 3) × (◌≡◌ {A = ℕ} 4 4)
run_key_injective_example =
    run_key_injective formats daily daily 2 2 3 3 4 4
      (record {
        uuid_injective = strokes_injective;
        date_injective = strokes_injective;
        uuid_lacks = strokes_lack;
        date_lacks = strokes_lack;
      })
      refl
