-- ===== src/Synthesis/Node.antt =====
-- `synthesize`, the one node of each graph.
use agentic_analyst.Prelude.{
  Text, codes, List, [], ◌∷◌, Option, none, some, length, ltb, if◌then◌else◌,
}
use agentic_analyst.Domain.Values.{Uuid, Datetime, Float}
use agentic_analyst.Domain.Errors.{Result, ok, err, value_error}
use agentic_analyst.Domain.Briefs.{PredictionExpectation, Embedding}
use agentic_analyst.Store.Tables.{Db}
use agentic_analyst.Store.Session.{
  World, Env, M, ask, lift, pure, try_except, now, uuid4, base_of, session_scope, ◌>>=◌, ◌>>◌,
}
use agentic_analyst.Briefs.Statements.{
  save_narrative_version, save_prediction_expectation, save_brief, save_embedding,
}
use agentic_analyst.Runner.Execute.{GraphState}
use agentic_analyst.Synthesis.Frontier.{Frontier, BriefGenerationOutput, frontier_synthesis}

-- The database without what the open session has written since the savepoint.
abbrev pub before_savepoint : World → World → Db
before_savepoint w w' = elim w.snapshot [ none ↦ base_of w'.snapshot w'.db | some s ↦ w.db ]

abbrev pub end_savepoint {ℓ} : {A : Type ℓ} → World → Result A × World → Result A × World
end_savepoint w (ok a, w') = (ok a, w')
end_savepoint w (err x, w') =
    (err x, record w' { db = before_savepoint w w'; snapshot = w.snapshot })

-- `async with session.begin_nested()`
unfoldable pub begin_nested {ℓ} : {A : Type ℓ} → M A → M A
begin_nested body w = end_savepoint w (body w)

abbrev pub embedding_row : Text → Uuid → List Float → Uuid → Datetime → Embedding
embedding_row model brief_id vector id created_at = record {
  id = id;
  brief_id = brief_id;
  model = model;
  vector = vector;
  metadata = codes "{}";
  created_at = created_at;
}

-- `_nonempty_vector`
unfoldable pub wide : Embedding → Result Embedding
wide x = if ltb (length x.vector) 2 then err value_error else ok x

module _ (g : Frontier) (e : Env) where
  unfoldable pub new_embedding : Uuid → List Float → M Embedding
  new_embedding brief_id vector = do
    id ← uuid4 e
    created_at ← now e
    lift (wide (embedding_row g.embed_model brief_id vector id created_at))

  -- `with suppress(Exception): embedding_vector, _usage = await gateway.embed(...)`
  unfoldable pub try_embed : Text → M (Option (List Float))
  try_embed content = try_except (ask (g.embed content) >>= λ v. pure (some v)) (λ _. pure none)

  unfoldable pub save_expectations : List PredictionExpectation → M (Unit {0})
  save_expectations [] = pure tt
  save_expectations (x ∷ xs) = save_prediction_expectation e x >> save_expectations xs

  unfoldable pub store_embedding : Uuid → Option (List Float) → M (Unit {0})
  store_embedding brief_id none = pure tt
  store_embedding brief_id (some vector) =
      try_except
        (begin_nested (new_embedding brief_id vector >>= save_embedding e) >>= λ _. pure tt)
        (λ _. pure tt)

  -- The body of the session.
  unfoldable pub store_output : BriefGenerationOutput → Option (List Float) → M (Unit {0})
  store_output output vector = do
    save_narrative_version e output.proposed_narrative_version
    save_expectations output.proposed_expectations
    save_brief e output.brief
    store_embedding output.brief.id vector

  unfoldable pub synthesize : GraphState → M BriefGenerationOutput
  synthesize inp = do
    output ← frontier_synthesis g e inp
    vector ← try_embed output.brief.content
    session_scope (store_output output vector)
    pure output
