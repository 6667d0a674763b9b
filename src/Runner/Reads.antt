-- ===== src/Runner/Reads.antt =====
-- The statements of the runner that only read keep every invariant.
use agentic_analyst.Prelude.{ℕ, Option, none, some}
use agentic_analyst.Domain.Values.{Uuid, Date, Cadence}
use agentic_analyst.Store.Tables.{Db}
use agentic_analyst.Store.Session.{Env}
use agentic_analyst.Store.Keeps.{Keeps, Keeps-bind, Keeps-session, Keeps-query}
use agentic_analyst.Briefs.Queries.{load_narrative, get_narrative_version_as_of}
use agentic_analyst.Runner.Keys.{Formats}
use agentic_analyst.Runner.Execute.{load_context}

module _ {κ} (I : Db → Type κ) (e : Env) (others : (n : ℕ) (d : Db) → I d → I (e.others n d)) where
  load_narrative-Keeps : (o : Option Uuid) → Keeps I (load_narrative e o)
  load_narrative-Keeps none = record { run = λ w h. h }
  load_narrative-Keeps (some i) = Keeps-query I e others _

  narrative-Keeps :
      (before : Date) (topic_id : Uuid) → Keeps I (get_narrative_version_as_of e before topic_id)
  unfolding get_narrative_version_as_of
  narrative-Keeps before topic_id = Keeps-bind I _ _ (Keeps-query I e others _) load_narrative-Keeps

  pub load_context-Keeps :
      (f : Formats) (cadence : Cadence) (topic_id : Uuid) (start : Date)
      → Keeps I (load_context e f cadence topic_id start)
  unfolding load_context
  load_context-Keeps f cadence topic_id start = Keeps-session I _ (
      Keeps-bind I _ _ (narrative-Keeps start topic_id)
        (λ n. Keeps-bind I _ _ (Keeps-query I e others _) (λ b. record { run = λ w h. h })))
