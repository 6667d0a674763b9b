-- ===== src/Pipelines/FoundTests.antt =====
-- A batch, its summary and a brief, stored and found again.
use agentic_analyst.Prelude.{◌≡◌, refl, [], ◌∷◌, some}
use agentic_analyst.Domain.Errors.{ok}
use agentic_analyst.Store.Tables.{Db, empty_db}
use agentic_analyst.Briefs.Queries.{get_brief_by_cadence_interval}
use agentic_analyst.Briefs.Statements.{insert_brief}
use agentic_analyst.Summaries.Statements.{
  insert_batch, insert_summary, get_article_batch_by_key, get_batch_summary_by_identity,
}
use agentic_analyst.Store.Alone.{alone}
use agentic_analyst.Pipelines.Found.{stored_found}
use agentic_analyst.Samples.{topic, batch, summary, brief, idle, world_of}

abbrev start : Db
start = record empty_db { topics = topic ∷ [] }

abbrev first : Db
first = record start { batches = batch ∷ [] }

abbrev second : Db
second = record first { summaries = summary ∷ [] }

abbrev third : Db
third = record second { briefs = brief ∷ [] }

batch_stored : insert_batch batch start ≡ ok (batch, first)
unfolding insert_batch
batch_stored = refl

summary_stored : insert_summary summary first ≡ ok (summary, second)
unfolding insert_summary
summary_stored = refl

brief_stored : insert_brief brief second ≡ ok (brief, third)
unfolding insert_brief
brief_stored = refl

stored_found_example :
    ((get_article_batch_by_key (alone idle) batch.batch_key (world_of third)).0 ≡ ok (some batch))
    × ((get_batch_summary_by_identity
          (alone idle)
          summary.batch_id
          summary.model
          summary.prompt_version
          (world_of third)).0
        ≡ ok (some summary))
    × (get_brief_by_cadence_interval brief.cadence brief.covered_start brief.covered_end
          brief.topic_id third
        ≡ ok (some brief))
stored_found_example =
    stored_found batch summary brief start (batch, first) (summary, second) (brief, third)
      batch_stored summary_stored brief_stored idle (world_of third) refl refl
