-- ===== src/Summaries/Tests.antt =====
-- The summariser on one batch, and its theorem there.
use agentic_analyst.Prelude.{◌≡◌, refl, true, false, [], ◌∷◌, none, codes}
use agentic_analyst.Domain.Values.{is_space, strip, lstrip, rstrip}
use agentic_analyst.Domain.Errors.{ok}
use agentic_analyst.Store.Returns.{Returns}
use agentic_analyst.Summaries.Texts.{collapse, normalize_whitespace, contains}
use agentic_analyst.Summaries.Prompts.{Printers, BatchSummaryModelResult}
use agentic_analyst.Summaries.Summarizer.{summarize_batch}
use agentic_analyst.Summaries.Evidence.{IsGrounded, summarize_batch-IsGrounded}
use agentic_analyst.Samples.{idle, strokes, article, source, batch, citation}

abbrev printers : Printers
printers = record { show_uuid = strokes; isoformat = strokes }

abbrev answer : BatchSummaryModelResult
answer = record {
  summary = codes "A storm.";
  source_notes = none;
  entities = [];
  topics = [];
  citations = citation ∷ [];
}

summarize_batch-IsGrounded_example :
    Returns (IsGrounded batch (codes "m") (codes "v1") (article ∷ [])) (
      summarize_batch printers idle []
        (λ messages n. ok answer)
        batch
        (article ∷ [])
        (source ∷ [])
        (codes "m")
        (codes "v1"))
summarize_batch-IsGrounded_example =
    summarize_batch-IsGrounded printers idle [] (λ messages n. ok answer) batch (article ∷ [])
      (source ∷ []) (codes "m") (codes "v1")

-- A run of spaces counts as one, and an excerpt must be a part of the text.
excerpt_tests :
    (contains
        (normalize_whitespace (codes " A storm"))
        (normalize_whitespace (codes "A   storm came."))
      ≡ true)
    × (contains (codes "A flood") (codes "A storm came.") ≡ false)
unfolding contains normalize_whitespace collapse strip lstrip rstrip is_space
excerpt_tests = (refl, refl)
