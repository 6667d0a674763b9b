-- ===== src/Ingestion/Outcomes.antt =====
-- The recording of attempts and the storing of articles: their results, and what they leave as it
-- holds.
use agentic_analyst.Prelude.{
  refl, List, Option, none, some, Text, codes, length, ltb, arith, Bool-cases, inl, inr,
}
use agentic_analyst.Domain.Values.{
  Uuid, Datetime, duplicate, succeeded, failed, strip, is_empty, is_blank, or_moment,
}
use agentic_analyst.Domain.Errors.{Error, integrity_error}
use agentic_analyst.Domain.Articles.{Article}
use agentic_analyst.Domain.Feeds.{
  ArticleCandidate, ExtractedArticle, IngestionAttempt, IngestionResult,
}
use agentic_analyst.Store.Session.{World, Env, M}
use agentic_analyst.Store.Logs.{Anything}
use agentic_analyst.Store.Upholds.{
  Upholds, Upholds-bind, Upholds-try, Upholds-pure, Upholds-raise, Upholds-now, Upholds-uuid4,
  Upholds-query, Upholds-session, Upholds-execute,
}
use agentic_analyst.Http.Urls.{UrlLibrary}
use agentic_analyst.Ingestion.Statements.{
  insert_article, insert_attempt, find_article, get_article_by_fingerprint, save_article,
  record_ingestion_attempt,
}
use agentic_analyst.Ingestion.Records.{
  Ports, sanitize_error_summary, attempt_of, result_of, file_attempt, record_failure,
  record_duplicate, duplicate_of, check_duplicate,
}
use agentic_analyst.Ingestion.Finalize.{
  text_of, winner_id, race_status, race_code, race_summary, is_off_topic, article_of, validated,
  new_article, store_article, store_loser, on_integrity_error, save_extracted, with_published,
  finalize_extracted,
}
use agentic_analyst.Ingestion.Contract.{
  IsConsistent, IsShort, IsOutcome, IsOutcomeOption, Rules, sanitize-IsShort,
}

module _ {κ} (e : Env) (p : Ports) (u : UrlLibrary) (J : World → Type κ) (rules : Rules e u J) where
  record_attempt-Upholds :
      (a : IngestionAttempt) → Upholds J Anything (record_ingestion_attempt e a)
  unfolding record_ingestion_attempt
  record_attempt-Upholds a = Upholds-execute J e rules.steady (insert_attempt a) (rules.attempt a)

  get_article-Upholds :
      (fingerprint : Text) (topic_id : Uuid)
      → Upholds J Anything (get_article_by_fingerprint e fingerprint topic_id)
  unfolding get_article_by_fingerprint
  get_article-Upholds fingerprint topic_id =
      Upholds-query J e rules.steady (find_article fingerprint topic_id)

  file_attempt-Upholds :
      (url : Text) (a : IngestionAttempt) (r : IngestionResult)
      → IsOutcome url r
      → Upholds J (IsOutcome url) (file_attempt e p a r)
  unfolding file_attempt
  file_attempt-Upholds url a r h =
      Upholds-bind J _ _ (Upholds-session J e rules.steady _ (record_attempt-Upholds a))
        (λ _ _. Upholds-pure J r h)

  pub record_failure-Upholds :
      (c : ArticleCandidate) (url fingerprint : Option Text) (code summary : Text)
      (start : Datetime) (topic_id : Uuid)
      → Upholds J
          (IsOutcome c.url)
          (record_failure e p c url fingerprint code summary start topic_id)
  unfolding record_failure
  record_failure-Upholds c url fingerprint code summary start topic_id =
      Upholds-bind J _ _ (Upholds-now J e rules.steady) (λ end _.
        Upholds-bind J _ _ (Upholds-uuid4 J e rules.steady) (λ id _.
          file_attempt-Upholds c.url
            (attempt_of e p c topic_id url fingerprint failed none none (some code)
              (some (sanitize_error_summary summary)) start end id)
            (result_of e p c failed none (some code) (some (sanitize_error_summary summary)))
            (refl, tt, sanitize-IsShort summary)))

  record_duplicate-Upholds :
      (c : ArticleCandidate) (url fingerprint : Text) (id : Uuid) (start : Datetime)
      (topic_id : Uuid)
      → Upholds J (IsOutcome c.url) (record_duplicate e p c url fingerprint id start topic_id)
  unfolding record_duplicate
  record_duplicate-Upholds c url fingerprint id start topic_id =
      Upholds-bind J _ _ (Upholds-now J e rules.steady) (λ end _.
        Upholds-bind J _ _ (Upholds-uuid4 J e rules.steady) (λ i _.
          file_attempt-Upholds c.url
            (attempt_of e p c topic_id (some url) (some fingerprint) duplicate none (some id) none
              none start end i)
            (result_of e p c duplicate (some id) none none) (refl, tt, tt)))

  duplicate_of-Upholds :
      (c : ArticleCandidate) (url fingerprint : Text) (start : Datetime) (topic_id : Uuid)
      (o : Option Article)
      → Upholds J (IsOutcomeOption c.url) (duplicate_of e p c url fingerprint start topic_id o)
  duplicate_of-Upholds c url fingerprint start topic_id none = Upholds-pure J none tt
  duplicate_of-Upholds c url fingerprint start topic_id (some a) =
      Upholds-bind J _ _ (record_duplicate-Upholds c url fingerprint a.id start topic_id)
        (λ r h. Upholds-pure J (some r) h)

  pub check_duplicate-Upholds :
      (c : ArticleCandidate) (url fingerprint : Text) (start : Datetime) (topic_id : Uuid)
      → Upholds J (IsOutcomeOption c.url) (check_duplicate e p c url fingerprint start topic_id)
  unfolding check_duplicate
  check_duplicate-Upholds c url fingerprint start topic_id =
      Upholds-bind J _ _
        (Upholds-session J e rules.steady _ (get_article-Upholds fingerprint topic_id))
        (λ o _. duplicate_of-Upholds c url fingerprint start topic_id o)

  validated-Upholds : (a : Article) → Upholds J Anything (validated e p a)
  unfolding validated
  validated-Upholds a = elim (Bool-cases (is_blank a.url_fingerprint)) [
    | inl blank ↦ rw blank (Upholds-raise J _)
    | inr given ↦ rw given (Upholds-pure J a tt)
  ]

  new_article-Upholds :
      (c : ArticleCandidate) (url fingerprint : Text) (x : ExtractedArticle) (topic_id : Uuid)
      (title : Text) (published : Datetime) (text : Text)
      → Upholds J Anything (new_article e p c url fingerprint x topic_id title published text)
  unfolding new_article
  new_article-Upholds c url fingerprint x topic_id title published text =
      Upholds-bind J _ _ (Upholds-uuid4 J e rules.steady) (λ id _.
        Upholds-bind J _ _ (Upholds-now J e rules.steady) (λ t _.
          validated-Upholds
            (article_of e p c url fingerprint x topic_id title published text id t)))

  store_article-Upholds :
      (c : ArticleCandidate) (x : ExtractedArticle) (start : Datetime) (a : Article)
      → Upholds J (IsOutcome c.url) (store_article e p c x start a)
  unfolding store_article save_article
  store_article-Upholds c x start a =
      Upholds-bind J _ _
        (Upholds-session J e rules.steady _ (
          Upholds-bind J _ _ (Upholds-execute J e rules.steady (insert_article a) (rules.article a))
            (λ _ _. Upholds-bind J _ _ (Upholds-now J e rules.steady) (λ t _.
              Upholds-bind J _ _ (Upholds-uuid4 J e rules.steady) (λ id _. record_attempt-Upholds (
                attempt_of e p c a.topic_id (some a.url) (some a.url_fingerprint) succeeded
                  (some x.extractor) (some a.id) none none start t id))))))
        (λ _ _. Upholds-pure J (result_of e p c succeeded (some a.id) none none) (refl, tt, tt))

  race_outcome :
      (won : Option Uuid)
      → IsConsistent (race_status won) won (race_code won) × IsShort (race_summary won)
  race_outcome none = (tt, omega arith)
  race_outcome (some id) = (tt, tt)

  store_loser-Upholds :
      (c : ArticleCandidate) (url fingerprint : Text) (start : Datetime) (topic_id : Uuid)
      → Upholds J (IsOutcome c.url) (store_loser e p c url fingerprint start topic_id)
  unfolding store_loser
  store_loser-Upholds c url fingerprint start topic_id =
      Upholds-bind J _ _
        (Upholds-session J e rules.steady _ (
          Upholds-bind J _ _ (get_article-Upholds fingerprint topic_id) (λ winner _.
            Upholds-bind J _ _ (Upholds-now J e rules.steady) (λ t _.
              Upholds-bind J _ _ (Upholds-uuid4 J e rules.steady) (λ id _.
                Upholds-bind J _ _
                  (record_attempt-Upholds (
                    attempt_of e p c topic_id (some url) (some fingerprint)
                      (race_status (winner_id winner)) none (winner_id winner)
                      (race_code (winner_id winner)) none start t id))
                  (λ _ _. Upholds-pure J {R = Anything} (winner_id winner) tt))))))
        (λ won _.
          Upholds-pure J (result_of e p c (race_status won) won (race_code won) (race_summary won))
            (refl, (race_outcome won).0, (race_outcome won).1))

  integrity-Upholds :
      (url : Text) (m : M IngestionResult) (x : Error)
      → Upholds J (IsOutcome url) m
      → Upholds J (IsOutcome url) (on_integrity_error e p m x)
  integrity-Upholds url m integrity_error h = h
  integrity-Upholds url m x h = Upholds-raise J _

  save_extracted-Upholds :
      (c : ArticleCandidate) (url fingerprint : Text) (x : ExtractedArticle) (start : Datetime)
      (topic_id : Uuid) (title : Text) (published : Datetime) (text : Text)
      → Upholds J
          (IsOutcome c.url)
          (save_extracted e p c url fingerprint x start topic_id title published text)
  unfolding save_extracted
  save_extracted-Upholds c url fingerprint x start topic_id title published text =
      Upholds-bind J _ _ (new_article-Upholds c url fingerprint x topic_id title published text)
        (λ a _. Upholds-try J _ _ (store_article-Upholds c x start a) (λ error.
          integrity-Upholds c.url _ error (store_loser-Upholds c url fingerprint start topic_id)))

  with_published-Upholds :
      (c : ArticleCandidate) (url fingerprint : Text) (x : ExtractedArticle) (start : Datetime)
      (topic_id : Uuid) (keywords : Option (List Text)) (title : Text) (o : Option Datetime)
      → Upholds J
          (IsOutcome c.url)
          (with_published e p c url fingerprint x start topic_id keywords title o)
  with_published-Upholds c url fingerprint x start topic_id keywords title none =
      record_failure-Upholds c _ _ _ _ start topic_id
  with_published-Upholds c url fingerprint x start topic_id keywords title (some t) =
      elim (Bool-cases (ltb (length (strip x.text)) p.article_min_content_length)) [
        | inl short ↦ rw short (record_failure-Upholds c _ _ _ _ start topic_id)
        | inr long ↦ rw long (elim (Bool-cases (is_off_topic e p keywords (strip x.text))) [
          | inl off ↦ rw off (record_failure-Upholds c _ _ _ _ start topic_id)
          | inr on ↦
              rw on
                (save_extracted-Upholds c url fingerprint x start topic_id title t (strip x.text))
        ])
      ]

  pub finalize_extracted-Upholds :
      (c : ArticleCandidate) (url fingerprint : Text) (x : ExtractedArticle) (start : Datetime)
      (topic_id : Uuid) (keywords : Option (List Text))
      → Upholds J
          (IsOutcome c.url)
          (finalize_extracted e p c url fingerprint x start topic_id keywords)
  unfolding finalize_extracted
  finalize_extracted-Upholds c url fingerprint x start topic_id keywords =
      elim (Bool-cases (is_empty (strip (text_of x.title)))) [
        | inl missing ↦ rw missing (
            record_failure-Upholds c (some url) (some fingerprint) (codes "missing_title")
              (codes "extracted title is empty") start topic_id)
        | inr given ↦ rw given (
            with_published-Upholds c url fingerprint x start topic_id keywords
              (strip (text_of x.title)) (or_moment c.published_at x.published_at))
      ]
