-- ===== src/Ingestion/Flow.antt =====
-- The ingestion of a candidate, of URLs and of files: what they leave as it holds, and the results
-- that they give.
use agentic_analyst.Prelude.{
  ◌≡◌, refl, ◌++◌, Bool, true, false, List, Option, none, some, Text, codes, Bool-cases, inl, inr,
}
use agentic_analyst.Domain.Values.{Uuid, Datetime}
use agentic_analyst.Domain.Errors.{Error, url_validation, extraction_failed}
use agentic_analyst.Domain.Feeds.{ArticleCandidate, ExtractedArticle, IngestionResult}
use agentic_analyst.Store.Session.{
  World, Env, M, primary_extracted, fallback_extracted, pure, ◌>>=◌,
}
use agentic_analyst.Store.Logs.{Anything}
use agentic_analyst.Store.Upholds.{
  Upholds, Upholds-bind, Upholds-try, Upholds-pure, Upholds-raise, Upholds-emit, Upholds-Quiet,
  Upholds-ask, Upholds-now,
}
use agentic_analyst.Http.Urls.{UrlLibrary, canonicalize_url}
use agentic_analyst.Http.Quiet.{canonicalize-Quiet}
use agentic_analyst.Ingestion.Records.{Ports, record_failure}
use agentic_analyst.Ingestion.Candidate.{
  Extraction, extracted_as, ended_with, Canonical, canonical_as, refused_with, should_use_fallback,
  except_url_validation, url_validation_or_any, except_extraction_failed, or_extracted,
  primary_extractor, fallback_extractor, if_safe, fallback_extractor_if_safe, extract_primary,
  required, extract_fallback, reject, extract_article, finish, unless_duplicate, with_canonical,
  canonicalize_candidate, ingest_candidate,
}
use agentic_analyst.Ingestion.Contract.{IsOutcome, IsOutcomeOption, IsValidated, Rules}
use agentic_analyst.Ingestion.Outcomes.{
  record_failure-Upholds, check_duplicate-Upholds, finalize_extracted-Upholds,
}

abbrev ExtractionOutcome : Text → Extraction → Type 0
ExtractionOutcome url (extracted_as x) = Unit
ExtractionOutcome url (ended_with r) = IsOutcome url r

module _ {κ} (e : Env) (p : Ports) (u : UrlLibrary) (J : World → Type κ) (rules : Rules e u J) where
  abbrev CanonicalOutcome : Text → Canonical e p u → Type 0
  CanonicalOutcome url (canonical_as canonical fingerprint) = Unit
  CanonicalOutcome url (refused_with r) = IsOutcome url r

  except_url-Upholds {ℓ μ} :
      {A : Type ℓ} {R : A → Type μ} (handler : Error → M A) (x : Error)
      → ((y : Error) → Upholds J R (handler y))
      → Upholds J R (except_url_validation handler x)
  except_url-Upholds handler (url_validation fault message) h = h (url_validation fault message)
  except_url-Upholds handler x h = Upholds-raise J _

  primary-Upholds : (url : Text) → Upholds J Anything (primary_extractor e p u url)
  primary-Upholds url =
      Upholds-bind J _ _ (Upholds-emit J (primary_extracted url) (rules.primary url))
        (λ _ _. Upholds-ask J e rules.steady (p.primary_extract url))

  fallback-Upholds :
      (url : Text) → IsValidated u url → Upholds J Anything (fallback_extractor e p u url)
  fallback-Upholds url valid =
      Upholds-bind J _ _ (Upholds-emit J (fallback_extracted url) (rules.fallback url valid))
        (λ _ _. Upholds-ask J e rules.steady (p.fallback_extract url))

  if_safe-Upholds :
      (url : Text) (b : Bool)
      → (b ≡ true → IsValidated u url)
      → Upholds J Anything (if_safe e p u url b)
  if_safe-Upholds url true valid =
      Upholds-bind J _ _ (fallback-Upholds url (valid refl)) (λ x _. Upholds-pure J (some x) tt)
  if_safe-Upholds url false valid = Upholds-pure J none tt

  -- A URL that the check accepts is validated.
  canonicalize-Upholds :
      (url : Text) → Upholds J (λ _. IsValidated u url) (canonicalize_url u url true)
  canonicalize-Upholds url =
      Upholds-Quiet J e rules.steady _ (canonicalize-Quiet u url true) (λ w r h. (w, r, h))

  fallback_if_safe-Upholds :
      (url : Text) → Upholds J Anything (fallback_extractor_if_safe e p u url)
  unfolding fallback_extractor_if_safe
  fallback_if_safe-Upholds url =
      Upholds-bind J {Q = λ b. b ≡ true → IsValidated u url} _ _
        (Upholds-try J _ _
          (Upholds-bind J _ _ (canonicalize-Upholds url)
            (λ _ valid. Upholds-pure J true (λ _. valid)))
          (λ x. except_url-Upholds (λ _. pure false) x (λ _. Upholds-pure J false (λ h. cc))))
        (if_safe-Upholds url)

  failed_extraction-Upholds :
      (x : ExtractedArticle) (error : Error) → Upholds J Anything (except_extraction_failed x error)
  failed_extraction-Upholds x (extraction_failed message) = Upholds-pure J x tt
  failed_extraction-Upholds x error = Upholds-raise J _

  extract_primary-Upholds :
      (c url : Text) → Upholds J (ExtractionOutcome c) (extract_primary e p u url)
  unfolding extract_primary
  extract_primary-Upholds c url = Upholds-bind J _ _ (primary-Upholds url) (λ x _.
      elim (Bool-cases (should_use_fallback x p.article_min_content_length)) [
        | inl poor ↦ rw poor (
            Upholds-bind J {Q = Anything} _ _
              (Upholds-try J _ _
                (Upholds-bind J _ _ (fallback_if_safe-Upholds url)
                  (λ o _. Upholds-pure J (or_extracted x o) tt))
                (failed_extraction-Upholds x))
              (λ y _. Upholds-pure J (extracted_as y) tt))
        | inr good ↦ rw good (Upholds-pure J (extracted_as x) tt)
      ])

  required-Upholds :
      (c url : Text) (o : Option ExtractedArticle)
      → Upholds J (ExtractionOutcome c) (required e p u url o)
  required-Upholds c url none = Upholds-raise J _
  required-Upholds c url (some x) = Upholds-pure J (extracted_as x) tt

  ended-Upholds :
      (c : ArticleCandidate) (url fingerprint : Option Text) (code summary : Text)
      (start : Datetime) (topic_id : Uuid)
      → Upholds J (ExtractionOutcome c.url) (
          record_failure e p c url fingerprint code summary start topic_id >>= λ r.
          pure (ended_with r))
  ended-Upholds c url fingerprint code summary start topic_id =
      Upholds-bind J _ _
        (record_failure-Upholds e p u J rules c url fingerprint code summary start topic_id)
        (λ r h. Upholds-pure J (ended_with r) h)

  extract_fallback-Upholds :
      (c : ArticleCandidate) (url fingerprint : Text) (start : Datetime) (topic_id : Uuid)
      (x : Error)
      → Upholds J
          (ExtractionOutcome c.url)
          (extract_fallback e p u c url fingerprint start topic_id x)
  unfolding extract_fallback
  extract_fallback-Upholds c url fingerprint start topic_id x =
      Upholds-try J _ _
        (Upholds-bind J _ _ (fallback_if_safe-Upholds url) (λ o _. required-Upholds c.url url o))
        (λ y.
          ended-Upholds c (some url) (some fingerprint) (codes "extraction_failed")
            (codes "primary extractor failed: "
              ++ (p.describe x ++ (codes "; fallback extractor failed: " ++ p.describe y)))
            start topic_id)

  either-Upholds :
      (c : Text) (f g : Error → M Extraction) (x : Error)
      → ((y : Error) → Upholds J (ExtractionOutcome c) (f y))
      → ((y : Error) → Upholds J (ExtractionOutcome c) (g y))
      → Upholds J (ExtractionOutcome c) (url_validation_or_any f g x)
  either-Upholds c f g (url_validation fault message) hf hg = hf (url_validation fault message)
  either-Upholds c f g x hf hg = hg _

  extract_article-Upholds :
      (c : ArticleCandidate) (url fingerprint : Text) (start : Datetime) (topic_id : Uuid)
      → Upholds J (ExtractionOutcome c.url) (extract_article e p u c url fingerprint start topic_id)
  unfolding extract_article
  extract_article-Upholds c url fingerprint start topic_id =
      Upholds-try J _ _ (extract_primary-Upholds c.url url) (λ x.
        either-Upholds c.url (reject e p u c url fingerprint start topic_id)
          (extract_fallback e p u c url fingerprint start topic_id) x
          (λ y.
            ended-Upholds c (some url) (some fingerprint) (codes "invalid_url") (p.describe y) start
              topic_id)
          (extract_fallback-Upholds c url fingerprint start topic_id))

  module _ (c : ArticleCandidate) (start : Datetime) (topic_id : Uuid)
      (keywords : Option (List Text)) where
    finish-Upholds :
        (url fingerprint : Text) (x : Extraction)
        → ExtractionOutcome c.url x
        → Upholds J (IsOutcome c.url) (finish e p u c url fingerprint start topic_id keywords x)
    finish-Upholds url fingerprint (ended_with r) h = Upholds-pure J r h
    finish-Upholds url fingerprint (extracted_as x) h =
        finalize_extracted-Upholds e p u J rules c url fingerprint x start topic_id keywords

    unless_duplicate-Upholds :
        (url fingerprint : Text) (o : Option IngestionResult)
        → IsOutcomeOption c.url o
        → Upholds J
            (IsOutcome c.url)
            (unless_duplicate e p u c url fingerprint start topic_id keywords o)
    unless_duplicate-Upholds url fingerprint (some r) h = Upholds-pure J r h
    unless_duplicate-Upholds url fingerprint none h =
        Upholds-bind J _ _ (extract_article-Upholds c url fingerprint start topic_id)
          (finish-Upholds url fingerprint)

    with_canonical-Upholds :
        (o : Canonical e p u)
        → CanonicalOutcome c.url o
        → Upholds J (IsOutcome c.url) (with_canonical e p u c start topic_id keywords o)
    with_canonical-Upholds (refused_with r) h = Upholds-pure J r h
    with_canonical-Upholds (canonical_as url fingerprint) h =
        Upholds-bind J _ _ (check_duplicate-Upholds e p u J rules c url fingerprint start topic_id)
          (unless_duplicate-Upholds url fingerprint)

    refused-Upholds :
        (x : Error)
        → Upholds J (CanonicalOutcome c.url) (
            record_failure e p c none none (codes "invalid_url") (p.describe x) start topic_id
            >>= λ r. pure (refused_with r))
    refused-Upholds x =
        Upholds-bind J _ _
          (record_failure-Upholds e p u J rules c none none (codes "invalid_url") (p.describe x)
            start topic_id)
          (λ r h. Upholds-pure J (refused_with r) h)

    canonicalize_candidate-Upholds :
        Upholds J (CanonicalOutcome c.url) (canonicalize_candidate e p u c start topic_id)
    unfolding canonicalize_candidate
    canonicalize_candidate-Upholds =
        Upholds-try J _ _
          (Upholds-bind J _ _ (canonicalize-Upholds c.url)
            (λ r _. Upholds-pure J (canonical_as r.0 r.1) tt))
          (λ x. except_url-Upholds _ x refused-Upholds)

  pub ingest_candidate-Upholds :
      (c : ArticleCandidate) (topic_id : Uuid) (keywords : Option (List Text))
      → Upholds J (IsOutcome c.url) (ingest_candidate e p u c topic_id keywords)
  unfolding ingest_candidate
  ingest_candidate-Upholds c topic_id keywords =
      Upholds-bind J _ _ (Upholds-now J e rules.steady) (λ start _.
        Upholds-bind J _ _ (canonicalize_candidate-Upholds c start topic_id keywords)
          (with_canonical-Upholds c start topic_id keywords))
