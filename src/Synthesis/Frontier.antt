-- ===== src/Synthesis/Frontier.antt =====
-- `_frontier_synthesis`: from the answer of the model to a brief, a narrative and expectations.
-- The message to the model prints the input, so the gateway is a function of the input.
use agentic_analyst.Prelude.{
  ℕ, Bool, not, List, [], ◌∷◌, Option, none, some, Text, codes, text_eq, select, map, concat, ◌==◌,
  if◌then◌else◌,
}
use agentic_analyst.Domain.Values.{Uuid, Datetime, Float, is_empty}
use agentic_analyst.Domain.Errors.{Result, ok, err, value_error}
use agentic_analyst.Domain.Articles.{Citation, BatchSummary}
use agentic_analyst.Domain.Briefs.{NarrativeStateVersion, PredictionExpectation, Brief}
use agentic_analyst.Store.Session.{Env, M, ask, lift, pure, now, uuid4, ◌>>=◌}
use agentic_analyst.Runner.Execute.{GraphState}

-- A `dict[str, Any]` of the answer: its keys with the JSON texts of their values.
abbrev pub Item : Type 0
Item = List (Text × Text)

pub record FrontierResult : Type 0 where
  pub brief_content : Text
  pub narrative_state : Text
  pub change_log : List Text
  pub expectations : List Item

-- What the interpreter and the model provide: `str` and `float` of a JSON value, the test
-- `0.0 <= x <= 1.0`, and the answers of the model.
pub record Frontier : Type 0 where
  pub str_of : Text → Text
  pub float_of : Text → Result Float
  pub in_unit : Float → Bool
  pub generate : GraphState → ℕ → Result FrontierResult
  pub embed : Text → ℕ → Result (List Float)
  pub embed_model : Text

pub record BriefGenerationOutput : Type 0 where
  pub brief : Brief
  pub proposed_narrative_version : NarrativeStateVersion
  pub proposed_expectations : List PredictionExpectation

-- `item.get(key)`
unfoldable pub get_item : Text → Item → Option Text
get_item key [] = none
get_item key ((k, v) ∷ item) = if text_eq k key then some v else get_item key item

-- `list(dict.fromkeys(ids))`: each member where it stands first.
unfoldable pub unique_first : List Uuid → List Uuid
unique_first [] = []
unique_first (x ∷ xs) = x ∷ select (λ y. not (y == x)) (unique_first xs)

unfoldable pub cited_articles : List BatchSummary → List Uuid
cited_articles summaries = unique_first (
    concat (map (λ (s : BatchSummary). map (λ (c : Citation). c.article_id) s.citations) summaries))

-- 0.5
abbrev pub one_half : Float
one_half = 0x3fe0000000000000

module _ (g : Frontier) where
  -- `str(item.get(key, ""))`
  abbrev pub text_of : Option Text → Text
  text_of none = []
  text_of (some v) = g.str_of v

  -- `float(item.get("confidence", 0.5))`
  abbrev pub float_from : Option Text → Result Float
  float_from none = ok one_half
  float_from (some v) = g.float_of v

  abbrev pub expectation_row : Uuid → Item → Float → Datetime → Uuid → PredictionExpectation
  expectation_row narrative_id item confidence created_at id = record {
    id = id;
    narrative_version_id = narrative_id;
    statement = text_of (get_item (codes "statement") item);
    confidence = confidence;
    confirmation_criteria = text_of (get_item (codes "confirmation") item);
    falsification_criteria = text_of (get_item (codes "falsification") item);
    outcome_status = codes "pending";
    created_at = created_at;
  }

  -- The bounds on `confidence`.
  unfoldable pub confident : PredictionExpectation → Result PredictionExpectation
  confident x = if g.in_unit x.confidence then ok x else err value_error

  -- `_has_citations` of Brief
  unfoldable pub citing : Brief → Result Brief
  citing b = if is_empty b.cited_batch_summary_ids then err value_error else ok b

  abbrev pub narrative_id_of : Option NarrativeStateVersion → Option Uuid
  narrative_id_of none = none
  narrative_id_of (some n) = some n.id

  abbrev pub narrative_row : GraphState → FrontierResult → Datetime → Uuid → NarrativeStateVersion
  narrative_row inp frontier created_at id = record {
    id = id;
    parent_id = narrative_id_of inp.current_narrative;
    created_by_run_id = inp.run_id;
    state = frontier.narrative_state;
    change_log = frontier.change_log;
    created_at = created_at;
  }

  abbrev pub brief_row : GraphState → FrontierResult → Uuid → Datetime → Uuid → Brief
  brief_row inp frontier narrative_id created_at id = record {
    id = id;
    topic_id = inp.topic_id;
    cadence = inp.cadence;
    covered_start = inp.covered_start;
    covered_end = inp.covered_end;
    content = frontier.brief_content;
    cited_batch_summary_ids = map (λ (s : BatchSummary). s.id) inp.batch_summaries;
    cited_article_ids = cited_articles inp.batch_summaries;
    narrative_state_version_id = some narrative_id;
    created_by_run_id = inp.run_id;
    created_at = created_at;
  }

  module _ (e : Env) where
    unfoldable pub new_expectation : Uuid → Item → M PredictionExpectation
    new_expectation narrative_id item = do
      confidence ← lift (float_from (get_item (codes "confidence") item))
      created_at ← now e
      id ← uuid4 e
      lift (confident (expectation_row narrative_id item confidence created_at id))

    unfoldable pub new_expectations : Uuid → List Item → M (List PredictionExpectation)
    new_expectations narrative_id [] = pure []
    new_expectations narrative_id (item ∷ items) = do
      x ← new_expectation narrative_id item
      xs ← new_expectations narrative_id items
      pure (x ∷ xs)

    unfoldable pub new_narrative : GraphState → FrontierResult → M NarrativeStateVersion
    new_narrative inp frontier = do
      created_at ← now e
      id ← uuid4 e
      pure (narrative_row inp frontier created_at id)

    unfoldable pub new_brief : GraphState → FrontierResult → Uuid → M Brief
    new_brief inp frontier narrative_id = do
      created_at ← now e
      id ← uuid4 e
      lift (citing (brief_row inp frontier narrative_id created_at id))

    -- `_frontier_synthesis`
    unfoldable pub frontier_synthesis : GraphState → M BriefGenerationOutput
    frontier_synthesis inp = do
      frontier ← ask (g.generate inp)
      narrative ← new_narrative inp frontier
      brief ← new_brief inp frontier narrative.id
      expectations ← new_expectations narrative.id frontier.expectations
      pure (record {
        brief = brief;
        proposed_narrative_version = narrative;
        proposed_expectations = expectations;
      })
