-- ===== src/Synthesis/Insertions.antt =====
-- The four insertions of the node keep the runs as they are and the briefs sound.
use agentic_analyst.Prelude.{Bool-cases, inl, inr, any, not, ◌||◌, ◌==◌, ◌++◌, [], ◌∷◌, length}
use agentic_analyst.Domain.Values.{Uuid, WorkflowStatus}
use agentic_analyst.Domain.Errors.{Ensures}
use agentic_analyst.Domain.Briefs.{NarrativeStateVersion, PredictionExpectation, Brief, Embedding}
use agentic_analyst.Store.Tables.{Db}
use agentic_analyst.Briefs.Statements.{
  insert_narrative, insert_expectation, insert_brief, insert_embedding, same_interval,
}
use agentic_analyst.Ingestion.Statements.{has_topic}
use agentic_analyst.Briefs.Sound.{HasSoundBriefs, insert_brief-HasSoundBriefs}
use agentic_analyst.Runner.Settled.{Settled}
use agentic_analyst.Synthesis.Upholds.{Inserts}

insert_narrative-Ensures {κ} :
    (P : Db → Type κ) (n : NarrativeStateVersion) (d : Db)
    → P (record d { narratives = d.narratives ++ n ∷ [] })
    → Ensures (λ r. P r.1) (insert_narrative n d)
unfolding insert_narrative
insert_narrative-Ensures P n d h =
    elim (Bool-cases (any (λ (x : NarrativeStateVersion). x.id == n.id) d.narratives)) [
      | inl clash ↦ rw clash tt
      | inr free ↦ rw free h
    ]

insert_expectation-Ensures {κ} :
    (P : Db → Type κ) (x : PredictionExpectation) (d : Db)
    → P (record d { expectations = d.expectations ++ x ∷ [] })
    → Ensures (λ r. P r.1) (insert_expectation x d)
unfolding insert_expectation
insert_expectation-Ensures P x d h =
    elim (Bool-cases (
      any (λ (y : PredictionExpectation). y.id == x.id) d.expectations
      || not (any (λ (n : NarrativeStateVersion). n.id == x.narrative_version_id) d.narratives))) [
        | inl refused ↦ rw refused tt
        | inr fine ↦ rw fine h
      ]

insert_embedding-Ensures {κ} :
    (P : Db → Type κ) (x : Embedding) (d : Db)
    → P (record d { embeddings = d.embeddings ++ x ∷ [] })
    → Ensures (λ r. P r.1) (insert_embedding x d)
unfolding insert_embedding
insert_embedding-Ensures P x d h = elim (Bool-cases (not (length x.vector == 1536))) [
  | inl narrow ↦ rw narrow tt
  | inr wide ↦
      elim (Bool-cases (
        any (λ (y : Embedding). y.id == x.id) d.embeddings
        || not (any (λ (b : Brief). b.id == x.brief_id) d.briefs))) [
          | inl refused ↦ rw (wide, refused) tt
          | inr fine ↦ rw (wide, fine) h
        ]
]

insert_brief-Ensures {κ} :
    (P : Db → Type κ) (b : Brief) (d : Db)
    → P (record d { briefs = d.briefs ++ b ∷ [] })
    → Ensures (λ r. P r.1) (insert_brief b d)
unfolding insert_brief
insert_brief-Ensures P b d h =
    elim (Bool-cases (
      any (λ (x : Brief). x.id == b.id || same_interval b x) d.briefs
      || not (has_topic b.topic_id d))) [ inl refused ↦ rw refused tt | inr fine ↦ rw fine h ]

pub run_inserts : (id : Uuid) (s : WorkflowStatus) → Inserts (Settled id s)
run_inserts id s = record {
  narrative = λ n d h. insert_narrative-Ensures (Settled id s) n d h;
  expectation = λ x d h. insert_expectation-Ensures (Settled id s) x d h;
  brief = λ b d evidence h. insert_brief-Ensures (Settled id s) b d h;
  embedding = λ x d h. insert_embedding-Ensures (Settled id s) x d h;
}

pub brief_inserts : Inserts HasSoundBriefs
brief_inserts = record {
  narrative = λ n d h. insert_narrative-Ensures HasSoundBriefs n d h;
  expectation = λ x d h. insert_expectation-Ensures HasSoundBriefs x d h;
  brief = λ b d evidence h. insert_brief-HasSoundBriefs b d evidence h;
  embedding = λ x d h. insert_embedding-Ensures HasSoundBriefs x d h;
}
