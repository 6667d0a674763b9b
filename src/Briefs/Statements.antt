-- ===== src/Briefs/Statements.antt =====
-- The functions that store briefs with their narratives, expectations and embeddings, and the
-- archive search.
use agentic_analyst.Prelude.{
  Bool, true, not, ◌&&◌, ◌||◌, List, [], ◌∷◌, ◌++◌, Option, none, some, codes, length, select, any,
  take, sort_by, ◌==◌, if◌then◌else◌, ℕ, map, concat,
}
use agentic_analyst.Domain.Values.{Uuid, Float, Cadence, cadence_eq}
use agentic_analyst.Domain.Errors.{Result, ok, err, integrity_error, other_error}
use agentic_analyst.Domain.Briefs.{NarrativeStateVersion, PredictionExpectation, Brief, Embedding}
use agentic_analyst.Store.Tables.{Db, scalar_one_or_none}
use agentic_analyst.Store.Session.{Env, M, query, execute}
use agentic_analyst.Ingestion.Statements.{has_topic}

unfoldable pub insert_narrative : NarrativeStateVersion → Db → Result (NarrativeStateVersion × Db)
insert_narrative version d =
    if any (λ (n : NarrativeStateVersion). n.id == version.id) d.narratives
    then err integrity_error
    else ok (version, record d { narratives = d.narratives ++ version ∷ [] })

-- The primary key, and the reference to the narrative.
unfoldable pub insert_expectation : PredictionExpectation → Db → Result (PredictionExpectation × Db)
insert_expectation expectation d =
    if any (λ (x : PredictionExpectation). x.id == expectation.id) d.expectations
      || not (
          any (λ (n : NarrativeStateVersion). n.id == expectation.narrative_version_id)
            d.narratives)
    then err integrity_error
    else ok (expectation, record d { expectations = d.expectations ++ expectation ∷ [] })

abbrev pub same_interval : Brief → Brief → Bool
same_interval brief b =
    b.topic_id == brief.topic_id
    && (cadence_eq b.cadence brief.cadence
        && (b.covered_start == brief.covered_start && b.covered_end == brief.covered_end))

-- The primary key, the unique (topic_id, cadence, covered_start, covered_end), and the reference to
-- the topic.
unfoldable pub insert_brief : Brief → Db → Result (Brief × Db)
insert_brief brief d =
    if any (λ (b : Brief). b.id == brief.id || same_interval brief b) d.briefs
      || not (has_topic brief.topic_id d)
    then err integrity_error
    else ok (brief, record d { briefs = d.briefs ++ brief ∷ [] })

-- The width of the vector column, the primary key, and the reference to the brief.
unfoldable pub insert_embedding : Embedding → Db → Result (Embedding × Db)
insert_embedding emb d =
    if not (length emb.vector == 1536)
    then err (other_error (codes "DataError"))
    else if any (λ (x : Embedding). x.id == emb.id) d.embeddings
        || not (any (λ (b : Brief). b.id == emb.brief_id) d.briefs)
    then err integrity_error
    else ok (emb, record d { embeddings = d.embeddings ++ emb ∷ [] })

abbrev pub of_cadence : Option Cadence → Brief → Bool
of_cadence none b = true
of_cadence (some cadence) b = cadence_eq b.cadence cadence

-- The join of the embeddings with their briefs.
abbrev pub joined : Option Cadence → Db → Embedding → List (Embedding × Brief)
joined cadence d x =
    map (λ (b : Brief). (x, b))
      (select (λ (b : Brief). b.id == x.brief_id && of_cadence cadence b) d.briefs)

-- `search_embeddings_by_similarity`, where `nearer` compares two vectors by their cosine distance
-- from the query vector, as pgvector does.
unfoldable pub search_embeddings_by_similarity :
    (List Float → List Float → Bool) → Option Cadence → ℕ → Db → List (Embedding × Brief)
search_embeddings_by_similarity nearer cadence limit d = take limit (
    sort_by (λ (x y : Embedding × Brief). nearer x.0.vector y.0.vector)
      (concat (map (joined cadence d) d.embeddings)))

module _ (e : Env) where
  unfoldable pub save_narrative_version : NarrativeStateVersion → M NarrativeStateVersion
  unfolding execute
  save_narrative_version version = execute e (insert_narrative version)

  unfoldable pub save_prediction_expectation : PredictionExpectation → M PredictionExpectation
  unfolding execute
  save_prediction_expectation expectation = execute e (insert_expectation expectation)

  unfoldable pub save_brief : Brief → M Brief
  unfolding execute
  save_brief brief = execute e (insert_brief brief)

  unfoldable pub save_embedding : Embedding → M Embedding
  unfolding execute
  save_embedding emb = execute e (insert_embedding emb)

  unfoldable pub get_brief_by_id : Uuid → M (Option Brief)
  unfolding query
  get_brief_by_id brief_id =
      query e (λ d. scalar_one_or_none (select (λ (b : Brief). b.id == brief_id) d.briefs))
