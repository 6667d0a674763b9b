-- ===== src/Domain/Errors.antt =====
-- The exceptions that the modelled code raises or handles, and computations that may raise one.
-- A message is kept where the code reads it.
use agentic_analyst.Prelude.{ℕ, ◌≡◌, refl, Text}

-- The subclasses of UrlValidationError in ingestion/canonicalize.py.
pub data UrlFault : Type 0 where
  unsupported_scheme embedded_credentials invalid_host private_network : UrlFault

pub data Error : Type 0 where
  value_error integrity_error multiple_results : Error
  workflow_run_already_exists workflow_run_not_found workflow_run_identity : Error
  invalid_workflow_run_transition ingestion_attempt_not_found : Error
  topic_not_found topic_in_use runtime_error assertion_error : Error
  url_validation : UrlFault → Text → Error
  too_many_redirects response_too_large fetch_timeout fetch_network : Text → Error
  retryable_feed terminal_feed feed_parse : Text → Error
  extraction_failed file_extraction summary_validation : Text → Error
  model_error : Text → Error
  http_timeout http_network : Error
  -- fastapi.HTTPException, with its status code and its detail
  http_exception : ℕ → Text → Error
  other_error : Text → Error

-- What a call of fallible code gives back.
pub data Result {ℓ} (A : Type ℓ) : Type ℓ where
  err : Error → Result A
  ok : A → Result A

module _ {ℓ κ} {A : Type ℓ} {B : Type κ} where
  -- Goes on with the value, or passes the exception through.
  abbrev pub chain : (A → Result B) → Result A → Result B
  chain next (ok a) = next a
  chain next (err x) = err x

  -- A chain that gives a value had a value to go on with.
  pub chain-eq-ok :
      (next : A → Result B) (r : Result A) {b : B}
      → chain next r ≡ ok b
      → (a : A) × (r ≡ ok a) × (next a ≡ ok b)
  chain-eq-ok next (err x) h = cc
  chain-eq-ok next (ok a) h = (a, refl, h)

-- What holds of the value, where there is one.
abbrev pub Ensures {ℓ κ} : {A : Type ℓ} → (A → Type κ) → Result A → Type κ
Ensures P (ok a) = P a
Ensures P (err e) = Unit

pub Ensures-chain {ℓ κ μ ν} :
    {A : Type ℓ} {B : Type κ} (P : A → Type μ) (Q : B → Type ν) (next : A → Result B) (r : Result A)
    → ((a : A) → P a → Ensures Q (next a))
    → Ensures P r
    → Ensures Q (chain next r)
Ensures-chain P Q next (err x) k h = tt
Ensures-chain P Q next (ok a) k h = k a h

pub Ensures-ok {ℓ κ} :
    {A : Type ℓ} (P : A → Type κ) (m : Result A) {a : A} → Ensures P m → m ≡ ok a → P a
Ensures-ok P m h e = rw e at h
