-- ===== src/Ingestion/Contract.antt =====
-- What a result of ingestion must satisfy, and what the service's steps must leave as it holds.
use agentic_analyst.Prelude.{
  ℕ, length-take_bound, ◌≤◌, ◌≡◌, true, List, ◌∷◌, Option, none, some, Text, length, take, ltb,
  arith, Bool-cases, inl, inr, if◌then◌else◌,
}
use agentic_analyst.Domain.Values.{Uuid, IngestionStatus, duplicate, succeeded, failed, strip}
use agentic_analyst.Domain.Errors.{Result}
use agentic_analyst.Domain.Articles.{Article}
use agentic_analyst.Domain.Feeds.{IngestionAttempt, IngestionResult}
use agentic_analyst.Store.Session.{World, Env, primary_extracted, fallback_extracted}
use agentic_analyst.Store.Upholds.{Steady, Writes}
use agentic_analyst.Http.Urls.{UrlLibrary, canonicalize_url}
use agentic_analyst.Ingestion.Statements.{insert_article, insert_attempt}
use agentic_analyst.Ingestion.Records.{error_summary_max_length, sanitize_error_summary}

-- A failure has an error code and no article; a success or a duplicate has an article and no code.
abbrev pub IsConsistent : IngestionStatus → Option Uuid → Option Text → Type 0
IsConsistent succeeded (some id) none = Unit
IsConsistent duplicate (some id) none = Unit
IsConsistent failed none (some code) = Unit
IsConsistent _ _ _ = ⊥

abbrev pub IsShort : Option Text → Type 0
IsShort none = Unit
IsShort (some summary) = length summary ≤ 500

-- The result of ingesting this URL.
abbrev pub IsOutcome : Text → IngestionResult → Type 0
IsOutcome url r =
    (r.candidate_url ≡ url)
    × IsConsistent r.status r.article_id r.error_code
    × IsShort r.error_summary

abbrev pub IsOutcomeOption : Text → Option IngestionResult → Type 0
IsOutcomeOption url none = Unit
IsOutcomeOption url (some r) = IsOutcome url r

cut_bound {ℓ} :
    {A : Type ℓ} (n : ℕ) (xs : List A) → length (if ltb n (length xs) then take n xs else xs) ≤ n
cut_bound n xs = elim (Bool-cases (ltb n (length xs))) [
  | inl over ↦ rw over (length-take_bound n xs)
  | inr under ↦ rw under (ground arith)
]

pub sanitize-IsShort : (message : Text) → length (sanitize_error_summary message) ≤ 500
unfolding sanitize_error_summary
sanitize-IsShort message = cut_bound error_summary_max_length (strip message)

-- The URL has passed the check of `canonicalize_url` in some state of the process.
abbrev pub IsValidated : UrlLibrary → Text → Type 0
IsValidated u url =
    (w : World) × (r : Text × Text) × ((canonicalize_url u url true w).0 ≡ Result.ok r)

-- What the service's own steps must leave as it holds: the two insertions, and the calls of the
-- extractors, where the fallback is only called for a URL that was validated.
pub record Rules {κ} (e : Env) (u : UrlLibrary) (J : World → Type κ) : Type κ where
  pub steady : Steady e J
  pub article : (a : Article) → Writes J (insert_article a)
  pub attempt : (a : IngestionAttempt) → Writes J (insert_attempt a)
  pub primary :
      (url : Text) (w : World) → J w → J (record w { log = primary_extracted url ∷ w.log })
  pub fallback :
      (url : Text)
      → IsValidated u url
      → (w : World) → J w
      → J (record w { log = fallback_extracted url ∷ w.log })
