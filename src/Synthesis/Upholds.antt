-- ===== src/Synthesis/Upholds.antt =====
-- What every invariant of the database must know of the four insertions, so that the node keeps it.
use agentic_analyst.Prelude.{ℕ, ◌≡◌, refl, codes, List, [], ◌∷◌, Option, none, some}
use agentic_analyst.Domain.Values.{Uuid, Float}
use agentic_analyst.Domain.Errors.{Result, ok, err, Ensures}
use agentic_analyst.Domain.Briefs.{NarrativeStateVersion, PredictionExpectation, Brief, Embedding}
use agentic_analyst.Store.Tables.{Db}
use agentic_analyst.Store.Session.{World, Env, M, ask, now, uuid4, pure, lift, session_scope, ◌>>=◌}
use agentic_analyst.Store.Keeps.{
  Keeps, Keeps-bind, Keeps-try, Keeps-session, Keeps-execute, Keeps-now, Keeps-uuid4, Stands,
  InSnapshot-base,
}
use agentic_analyst.Store.Returns.{Keeps-bind_of}
use agentic_analyst.Briefs.Statements.{
  insert_narrative, insert_expectation, insert_brief, insert_embedding, save_narrative_version,
  save_prediction_expectation, save_brief, save_embedding,
}
use agentic_analyst.Briefs.Sound.{HasEvidence}
use agentic_analyst.Runner.Execute.{GraphState}
use agentic_analyst.Synthesis.Frontier.{
  Frontier, BriefGenerationOutput, Item, new_expectation, new_expectations, new_narrative,
  new_brief, frontier_synthesis, float_from, get_item,
}
use agentic_analyst.Synthesis.Outputs.{IsOutput, frontier_synthesis-IsOutput}
use agentic_analyst.Synthesis.Node.{
  begin_nested, end_savepoint, before_savepoint, new_embedding, try_embed, save_expectations,
  store_embedding, store_output, synthesize,
}

pub record Inserts {κ} (I : Db → Type κ) : Type κ where
  pub narrative :
      (n : NarrativeStateVersion) (d : Db) → I d → Ensures (λ r. I r.1) (insert_narrative n d)
  pub expectation :
      (x : PredictionExpectation) (d : Db) → I d → Ensures (λ r. I r.1) (insert_expectation x d)
  pub brief : (b : Brief) (d : Db) → HasEvidence b → I d → Ensures (λ r. I r.1) (insert_brief b d)
  pub embedding : (x : Embedding) (d : Db) → I d → Ensures (λ r. I r.1) (insert_embedding x d)

module _ {κ} (I : Db → Type κ) where
  Keeps-pure : {A : Type 0} (a : A) → Keeps I (pure a)
  Keeps-pure a = record { run = λ w h. h }

  Keeps-lift : {A : Type 0} (r : Result A) → Keeps I (lift r)
  Keeps-lift r = record { run = λ w h. h }

  Keeps-ask : {A : Type 0} (answer : ℕ → Result A) → Keeps I (ask answer)
  unfolding ask
  Keeps-ask answer = record { run = λ w h. h }

  Keeps-nested : {A : Type 0} (m : M A) → Keeps I m → Keeps I (begin_nested m)
  unfolding begin_nested
  Keeps-nested {A} m km = record { run = λ w h. ended w (m w).0 (m w).1 h (km.run w h) }
    where
      before :
          (w w' : World)
          → Stands I w
          → Stands I w'
          → (o : Option Db) → w.snapshot ≡ o
          → I (before_savepoint w w')
      before w w' h h' none e = rw e (InSnapshot-base I w'.snapshot w'.db h'.0 h'.1)
      before w w' h h' (some s) e = rw e (h.0)

      ended :
          (w : World) (r : Result A) (w' : World)
          → Stands I w
          → Stands I w'
          → Stands I (end_savepoint w (r, w')).1
      ended w (ok a) w' h h' = h'
      ended w (err x) w' h h' = (before w w' h h' w.snapshot refl, h.1)

  module _ (e : Env) (others : (n : ℕ) (d : Db) → I d → I (e.others n d)) (inserts : Inserts I)
      (g : Frontier) where
    new_embedding-Keeps : (id : Uuid) (v : List Float) → Keeps I (new_embedding g e id v)
    unfolding new_embedding
    new_embedding-Keeps id v =
        Keeps-bind I (uuid4 e) _ (Keeps-uuid4 I e others)
          λ i. Keeps-bind I (now e) _ (Keeps-now I e others) λ t. Keeps-lift _

    store_embedding-Keeps :
        (id : Uuid) (o : Option (List Float)) → Keeps I (store_embedding g e id o)
    unfolding store_embedding save_embedding
    store_embedding-Keeps id none = Keeps-pure tt
    store_embedding-Keeps id (some v) =
        Keeps-try I _ _
          (Keeps-bind I (begin_nested (new_embedding g e id v >>= save_embedding e)) _
            (Keeps-nested _ (
              Keeps-bind I (new_embedding g e id v) (save_embedding e) (new_embedding-Keeps id v)
                (λ x. Keeps-execute I e others (insert_embedding x) (inserts.embedding x))))
            (λ _. Keeps-pure tt))
          (λ _. Keeps-pure tt)

    save_expectations-Keeps : (xs : List PredictionExpectation) → Keeps I (save_expectations g e xs)
    unfolding save_expectations save_prediction_expectation
    save_expectations-Keeps [] = Keeps-pure tt
    save_expectations-Keeps (x ∷ xs) =
        Keeps-bind I (save_prediction_expectation e x) _
          (Keeps-execute I e others (insert_expectation x) (inserts.expectation x))
          (λ _. save_expectations-Keeps xs)

    store_output-Keeps :
        (output : BriefGenerationOutput) (v : Option (List Float))
        → HasEvidence output.brief
        → Keeps I (store_output g e output v)
    unfolding store_output save_narrative_version save_brief
    store_output-Keeps output v evidence =
        Keeps-bind I (save_narrative_version e output.proposed_narrative_version) _
          (Keeps-execute I e others (insert_narrative output.proposed_narrative_version)
            (inserts.narrative output.proposed_narrative_version))
          λ _.
            Keeps-bind I (save_expectations g e output.proposed_expectations) _
              (save_expectations-Keeps output.proposed_expectations)
              λ _.
                Keeps-bind I (save_brief e output.brief) _
                  (Keeps-execute I e others (insert_brief output.brief)
                    (λ d h. inserts.brief output.brief d evidence h))
                  λ _. store_embedding-Keeps output.brief.id v

    expectations-Keeps : (id : Uuid) (items : List Item) → Keeps I (new_expectations g e id items)
    unfolding new_expectations new_expectation
    expectations-Keeps id [] = Keeps-pure []
    expectations-Keeps id (item ∷ items) =
        Keeps-bind I (new_expectation g e id item) _
          (Keeps-bind I (lift (float_from g (get_item (codes "confidence") item))) _ (Keeps-lift _)
            λ c.
              Keeps-bind I (now e) _ (Keeps-now I e others)
                λ t. Keeps-bind I (uuid4 e) _ (Keeps-uuid4 I e others) λ i. Keeps-lift _)
          λ x.
            Keeps-bind I (new_expectations g e id items) _ (expectations-Keeps id items)
              λ xs. Keeps-pure _

    frontier-Keeps : (inp : GraphState) → Keeps I (frontier_synthesis g e inp)
    unfolding frontier_synthesis new_narrative new_brief
    frontier-Keeps inp =
        Keeps-bind I (ask (g.generate inp)) _ (Keeps-ask (g.generate inp)) λ frontier.
          Keeps-bind I (new_narrative g e inp frontier) _
            (Keeps-bind I (now e) _ (Keeps-now I e others)
              λ t. Keeps-bind I (uuid4 e) _ (Keeps-uuid4 I e others) λ i. Keeps-pure _)
            λ n.
              Keeps-bind I (new_brief g e inp frontier n.id) _
                (Keeps-bind I (now e) _ (Keeps-now I e others)
                  λ t. Keeps-bind I (uuid4 e) _ (Keeps-uuid4 I e others) λ i. Keeps-lift _)
                λ b.
                  Keeps-bind I (new_expectations g e n.id frontier.expectations) _
                    (expectations-Keeps n.id frontier.expectations) λ xs. Keeps-pure _

    -- The node keeps every invariant that the four insertions keep.
    pub synthesize-Keeps : (inp : GraphState) → Keeps I (synthesize g e inp)
    unfolding synthesize try_embed
    synthesize-Keeps inp =
        Keeps-bind_of I (frontier_synthesis g e inp) _ (frontier-Keeps inp)
          (frontier_synthesis-IsOutput g e inp)
          λ output (known : IsOutput g inp output).
            Keeps-bind I (try_embed g e output.brief.content) _
              (Keeps-try I _ _
                (Keeps-bind I (ask (g.embed output.brief.content)) _ (Keeps-ask _)
                  λ v. Keeps-pure _)
                (λ _. Keeps-pure none))
              λ v.
                Keeps-bind I (session_scope (store_output g e output v)) _
                  (Keeps-session I (store_output g e output v)
                    (store_output-Keeps output v known.brief.evidence))
                  λ _. Keeps-pure output
