-- ===== src/Synthesis/Outputs.antt =====
-- What `_frontier_synthesis` makes of an answer of the model.
use agentic_analyst.Prelude.{
  ◌≡◌, refl, true, List, [], ◌∷◌, some, All, map, any, ◌==◌, codes, Bool-cases, inl, inr,
}
use agentic_analyst.Domain.Values.{Uuid, Datetime, is_empty}
use agentic_analyst.Domain.Errors.{Ensures}
use agentic_analyst.Domain.Articles.{BatchSummary}
use agentic_analyst.Domain.Briefs.{PredictionExpectation, Brief}
use agentic_analyst.Store.Session.{Env, ask, now, uuid4, lift}
use agentic_analyst.Store.Returns.{Returns, Returns-bind, Returns-then, Returns-lift, Returns-pure}
use agentic_analyst.Briefs.Sound.{HasEvidence}
use agentic_analyst.Runner.Execute.{GraphState}
use agentic_analyst.Prelude.Apart.{Apart}
use agentic_analyst.Synthesis.Cited.{is_cited, any-cited_articles, cited_articles-Apart}
use agentic_analyst.Synthesis.Frontier.{
  Frontier, FrontierResult, BriefGenerationOutput, Item, confident, citing, float_from, get_item,
  expectation_row, brief_row, new_expectation, new_expectations, new_narrative, new_brief,
  frontier_synthesis,
}

-- The brief is for the interval that was asked for, and cites exactly the summaries that were given
-- and, each once, exactly the articles that stand in the citations of these.
pub record IsBriefOf (inp : GraphState) (narrative_id : Uuid) (b : Brief) : Type 0 where
  pub topic : b.topic_id ≡ inp.topic_id
  pub cadence : b.cadence ≡ inp.cadence
  pub start : b.covered_start ≡ inp.covered_start
  pub end : b.covered_end ≡ inp.covered_end
  pub run : b.created_by_run_id ≡ inp.run_id
  pub summaries : b.cited_batch_summary_ids ≡ map (λ (s : BatchSummary). s.id) inp.batch_summaries
  pub articles : (i : Uuid) → any (λ a. a == i) b.cited_article_ids ≡ is_cited i inp.batch_summaries
  pub articles_once : Apart (λ x y. x == y) b.cited_article_ids
  pub narrative : b.narrative_state_version_id ≡ some narrative_id
  pub evidence : HasEvidence b

-- The expectation belongs to the narrative, and its confidence is within the bounds.
abbrev pub IsExpectationOf : Frontier → Uuid → PredictionExpectation → Type 0
IsExpectationOf g narrative_id x =
    (x.narrative_version_id ≡ narrative_id) × (g.in_unit x.confidence ≡ true)

pub record IsOutput (g : Frontier) (inp : GraphState) (out : BriefGenerationOutput) : Type 0 where
  pub brief : IsBriefOf inp out.proposed_narrative_version.id out.brief
  pub expectations :
      All (IsExpectationOf g out.proposed_narrative_version.id) out.proposed_expectations

module _ (g : Frontier) (e : Env) where
  confident_lem :
      (id : Uuid) (x : PredictionExpectation)
      → x.narrative_version_id ≡ id
      → Ensures (IsExpectationOf g id) (confident g x)
  unfolding confident
  confident_lem id x same = elim (Bool-cases (g.in_unit x.confidence)) [
    | inl within ↦ rw within (same, within)
    | inr beyond ↦ rw beyond tt
  ]

  new_expectation_lem :
      (id : Uuid) (item : Item) → Returns (IsExpectationOf g id) (new_expectation g e id item)
  unfolding new_expectation
  new_expectation_lem id item =
      Returns-then (lift (float_from g (get_item (codes "confidence") item))) _ λ c.
        Returns-then (now e) _ λ t. Returns-then (uuid4 e) _ λ i.
          Returns-lift (confident g (expectation_row g id item c t i))
            (confident_lem id (expectation_row g id item c t i) refl)

  new_expectations_lem :
      (id : Uuid) (items : List Item)
      → Returns (All (IsExpectationOf g id)) (new_expectations g e id items)
  unfolding new_expectations
  new_expectations_lem id [] = Returns-pure [] tt
  new_expectations_lem id (item ∷ items) =
      Returns-bind (new_expectation g e id item) _ (new_expectation_lem id item) λ x first.
        Returns-bind (new_expectations g e id items) _ (new_expectations_lem id items)
          λ xs rest. Returns-pure (x ∷ xs) (first, rest)

  citing_lem :
      (inp : GraphState) (frontier : FrontierResult) (narrative_id : Uuid) (t : Datetime) (i : Uuid)
      → Ensures (IsBriefOf inp narrative_id) (citing g (brief_row g inp frontier narrative_id t i))
  unfolding citing
  citing_lem inp frontier narrative_id t i =
      elim (Bool-cases (is_empty (map (λ (s : BatchSummary). s.id) inp.batch_summaries))) [
        | inl none_cited ↦ rw none_cited tt
        | inr some_cited ↦ rw some_cited (record {
          topic = refl;
          cadence = refl;
          start = refl;
          end = refl;
          run = refl;
          summaries = refl;
          articles = λ i. any-cited_articles i inp.batch_summaries;
          articles_once = cited_articles-Apart inp.batch_summaries;
          narrative = refl;
          evidence = some_cited;
        })
      ]

  new_brief_lem :
      (inp : GraphState) (frontier : FrontierResult) (narrative_id : Uuid)
      → Returns (IsBriefOf inp narrative_id) (new_brief g e inp frontier narrative_id)
  unfolding new_brief
  new_brief_lem inp frontier narrative_id = Returns-then (now e) _ λ t.
      Returns-then (uuid4 e) _ λ i.
        Returns-lift (citing g (brief_row g inp frontier narrative_id t i))
          (citing_lem inp frontier narrative_id t i)

-- Whatever the model answers, an output of `_frontier_synthesis` is a brief of the topic, the
-- cadence, the interval and the run that were asked for, which cites exactly the given summaries,
-- at least one, in their order, and exactly the articles that stand in the citations of these,
-- each once; its narrative is the proposed one, and so is that
-- of each expectation, whose confidence is between 0 and 1.
pub frontier_synthesis-IsOutput :
    (g : Frontier) (e : Env) (inp : GraphState)
    → Returns (IsOutput g inp) (frontier_synthesis g e inp)
unfolding frontier_synthesis
frontier_synthesis-IsOutput g e inp = Returns-then (ask (g.generate inp)) _ λ frontier.
    Returns-then (new_narrative g e inp frontier) _ λ n.
      Returns-bind (new_brief g e inp frontier n.id) _ (new_brief_lem g e inp frontier n.id)
        λ b good.
          Returns-bind (new_expectations g e n.id frontier.expectations) _
            (new_expectations_lem g e n.id frontier.expectations)
            λ xs kept. Returns-pure _ (record { brief = good; expectations = kept })
