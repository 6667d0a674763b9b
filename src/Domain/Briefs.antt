-- ===== src/Domain/Briefs.antt =====
-- NarrativeStateVersion, PredictionExpectation, Brief, Embedding and WorkflowRun of
-- domain/models.py. A `dict[str, Any]` is its JSON text.
use agentic_analyst.Prelude.{List, Option, Text}
use agentic_analyst.Domain.Values.{Uuid, Datetime, Date, Float, Cadence, WorkflowStatus}

pub record NarrativeStateVersion : Type 0 where
  pub id : Uuid
  pub parent_id : Option Uuid
  pub created_by_run_id : Uuid
  pub state : Text
  pub change_log : List Text
  pub created_at : Datetime

pub record PredictionExpectation : Type 0 where
  pub id : Uuid
  pub narrative_version_id : Uuid
  pub statement : Text
  pub confidence : Float
  pub confirmation_criteria : Text
  pub falsification_criteria : Text
  pub outcome_status : Text
  pub created_at : Datetime

pub record Brief : Type 0 where
  pub id : Uuid
  pub topic_id : Uuid
  pub cadence : Cadence
  pub covered_start : Date
  pub covered_end : Date
  pub content : Text
  pub cited_batch_summary_ids : List Uuid
  pub cited_article_ids : List Uuid
  pub narrative_state_version_id : Option Uuid
  pub created_by_run_id : Uuid
  pub created_at : Datetime

pub record Embedding : Type 0 where
  pub id : Uuid
  pub brief_id : Uuid
  pub model : Text
  pub vector : List Float
  pub metadata : Text
  pub created_at : Datetime

pub record WorkflowRun : Type 0 where
  pub id : Uuid
  pub cadence : Cadence
  pub idempotency_key : Text
  pub status : WorkflowStatus
  pub checkpoint_ref : Option Text
  pub error_summary : Option Text
  pub started_at : Datetime
  pub completed_at : Option Datetime
