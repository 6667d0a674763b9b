-- ===== src/Pipelines/Schedule.antt =====
-- The jobs of src/analyst_engine/scheduling.py: the topics one after the other, each on its own.
use agentic_analyst.Prelude.{◌≡◌, refl, List, [], ◌∷◌}
use agentic_analyst.Domain.Values.{Uuid}
use agentic_analyst.Domain.Errors.{Result, ok, err}
use agentic_analyst.Domain.Articles.{Topic}
use agentic_analyst.Store.Session.{
  World, Env, M, pure, and_then, handle, try_except, session_scope, ◌>>=◌, ◌>>◌,
}
use agentic_analyst.Topics.Statements.{list_topics}

-- `try: await pipeline.run(...)` with `except Exception: logger.exception(...)`
abbrev pub guarded {ℓ} : {A : Type ℓ} → M A → M (Unit {0})
guarded run = try_except (run >>= λ r. pure tt) (λ x. pure tt)

-- The loop over the topics.
unfoldable pub run_topics {ℓ} : {A : Type ℓ} → (Uuid → M A) → List Topic → M (Unit {0})
run_topics run [] = pure tt
run_topics run (topic ∷ topics) = guarded (run topic.id) >> run_topics run topics

-- `_run_daily_pipeline`, `_run_weekly_pipeline` and `_run_monthly_pipeline`, where `run` is the
-- pipeline's run for today.
unfoldable pub run_job {ℓ} : {A : Type ℓ} → Env → (Uuid → M A) → M (Unit {0})
unfolding list_topics session_scope
run_job e run = session_scope (list_topics e) >>= run_topics run

-- The process behind the runs of all topics, each started where the one before it has ended,
-- whether that failed or not.
abbrev pub after_all {ℓ} : {A : Type ℓ} → (Uuid → M A) → List Topic → World → World
after_all run [] w = w
after_all run (topic ∷ topics) w = after_all run topics (run topic.id w).1

module _ {ℓ} {A : Type ℓ} where
  abbrev finished : Result A → World → Result (Unit {0}) × World
  finished r w = and_then r (λ a. pure tt) w

  guarded_lem : (run : M A) (w : World) → guarded run w ≡ (ok tt, (run w).1)
  guarded_lem run w = cases (run w).0 (run w).1
    where
      cases :
          (r : Result A) (w' : World)
          → handle (finished r w').0 (λ x. pure tt) (finished r w').1 ≡ (ok tt, w')
      cases (ok a) w' = refl
      cases (err x) w' = refl

-- The loop over the topics never fails: it starts the run of every topic, in their order, each on
-- the process that the one before it has left, whether that run failed or not.
pub run_topics_lem {ℓ} :
    {A : Type ℓ} (run : Uuid → M A) (topics : List Topic) (w : World)
    → run_topics run topics w ≡ (ok tt, after_all run topics w)
unfolding run_topics
run_topics_lem run [] w = refl
run_topics_lem run (topic ∷ topics) w =
    rw (guarded_lem (run topic.id) w) (run_topics_lem run topics (run topic.id w).1)
