-- ===== src/Ingestion/Results.antt =====
-- The results of `ingest_urls`, and the URLs for which the fallback extractor is called.
use agentic_analyst.Prelude.{◌≡◌, refl, List, [], ◌∷◌, none, Text, codes, All, arith}
use agentic_analyst.Domain.Values.{Uuid}
use agentic_analyst.Domain.Errors.{Result, ok, err, Ensures}
use agentic_analyst.Domain.Feeds.{IngestionResult}
use agentic_analyst.Store.Session.{
  World, Event, Env, M, fallback_extracted, handle, pure, observe, ◌>>=◌,
}
use agentic_analyst.Store.Upholds.{Upholds, Upholds-bind, Upholds-try, Upholds-pure}
use agentic_analyst.Http.Urls.{UrlLibrary}
use agentic_analyst.Ingestion.Records.{Ports}
use agentic_analyst.Ingestion.Candidate.{ingest_candidate}
use agentic_analyst.Ingestion.Direct.{direct_candidate, unexpected, ingest_url, ingest_urls}
use agentic_analyst.Ingestion.Contract.{IsOutcome, IsValidated, Rules}
use agentic_analyst.Ingestion.Flow.{ingest_candidate-Upholds}

-- One result for each URL, in their order.
abbrev pub AreOutcomes : List Text → List IngestionResult → Type 0
AreOutcomes [] [] = Unit
AreOutcomes (url ∷ urls) (r ∷ rs) = IsOutcome url r × AreOutcomes urls rs
AreOutcomes _ _ = ⊥

module _ (e : Env) (p : Ports) (u : UrlLibrary) where
  unexpected-IsOutcome :
      (url : Text)
      → IsOutcome url
          (unexpected e p u (direct_candidate url) (codes "unexpected error while ingesting URL"))
  unexpected-IsOutcome url = (refl, tt, omega arith)

  module _ {κ} (J : World → Type κ) (rules : Rules e u J) (topic_id : Uuid) where
    ingest_url-Upholds : (url : Text) → Upholds J (IsOutcome url) (ingest_url e p u topic_id url)
    unfolding ingest_url
    ingest_url-Upholds url =
        Upholds-try J _ _
          (ingest_candidate-Upholds e p u J rules (direct_candidate url) topic_id none)
          (λ x.
            Upholds-pure J
              (unexpected e p u (direct_candidate url)
                (codes "unexpected error while ingesting URL"))
              (unexpected-IsOutcome url))

    pub ingest_urls-Upholds :
        (urls : List Text) → Upholds J (AreOutcomes urls) (ingest_urls e p u topic_id urls)
    unfolding ingest_urls
    ingest_urls-Upholds [] = Upholds-pure J [] tt
    ingest_urls-Upholds (url ∷ urls) = Upholds-bind J _ _ (ingest_url-Upholds url) (λ r h.
        Upholds-bind J _ _ (ingest_urls-Upholds urls) (λ rs hs. Upholds-pure J (r ∷ rs) (h, hs)))

  no_rules : Rules e u (λ _. Unit {0})
  no_rules = record {
    steady = record {
      ticked = λ w n h. tt;
      observed = λ w h. tt;
      committed = λ w h. tt;
      rolled_back = λ w h. tt;
    };
    article = λ a w x d h same. tt;
    attempt = λ a w x d h same. tt;
    primary = λ url w h. tt;
    fallback = λ url valid w h. tt;
  }

  -- The computation returns in this world.
  abbrev Returns {ℓ} : {A : Type ℓ} → M A → World → Type ℓ
  Returns {A = A} m w = (a : A) × ((m w).0 ≡ ok a)

  ingest_url_total :
      (topic_id : Uuid) (url : Text) (w : World) → Returns (ingest_url e p u topic_id url) w
  unfolding ingest_url
  ingest_url_total topic_id url w =
      let m = ingest_candidate e p u (direct_candidate url) topic_id none in handled (m w).0 (m w).1
    where
      handled :
          (r : Result IngestionResult) (w' : World)
          → (a : IngestionResult) × ((handle r
                (λ _. pure (
                  unexpected e p u
                    (direct_candidate url)
                    (codes "unexpected error while ingesting URL")))
                w').0
              ≡ ok a)
      handled (ok a) w' = (a, refl)
      handled (err x) w' = (_, refl)

  bind_total {ℓ μ} :
      {A : Type ℓ} {B : Type μ} (m : M A) (f : A → M B) (w : World)
      → Returns m w
      → ((a : A) (w' : World) → Returns (f a) w')
      → Returns (m >>= f) w
  bind_total m f w (a, same) k = rw same (k a (m w).1)

  ingest_urls-Returns :
      (topic_id : Uuid) (urls : List Text) (w : World) → Returns (ingest_urls e p u topic_id urls) w
  unfolding ingest_urls
  ingest_urls-Returns topic_id [] w = ([], refl)
  ingest_urls-Returns topic_id (url ∷ urls) w =
      bind_total (ingest_url e p u topic_id url)
        (λ r. ingest_urls e p u topic_id urls >>= λ rs. pure (r ∷ rs)) w
        (ingest_url_total topic_id url w)
        (λ r w'.
          bind_total (ingest_urls e p u topic_id urls) (λ rs. pure (r ∷ rs)) w'
            (ingest_urls-Returns topic_id urls w') (λ rs w''. (r ∷ rs, refl)))

  Ensures-at {ℓ κ} :
      {A : Type ℓ} (R : A → Type κ) (r : Result A) (a : A) → r ≡ ok a → Ensures R r → R a
  Ensures-at R r a same h = rw same at h

  -- `ingest_urls` always returns, whatever the database, the network, the extractors and other
  -- processes do, and gives one result for each URL, in the order of the URLs: a success or a
  -- duplicate, with an article and no error code, or a failure, with an error code and no article;
  -- and no error summary is longer than 500 characters.
  pub ingest_urls_total :
      (topic_id : Uuid) (urls : List Text) (w : World)
      → (rs : List IngestionResult) × ((ingest_urls e p u topic_id urls w).0 ≡ ok rs)
        × AreOutcomes urls rs
  ingest_urls_total topic_id urls w =
      let (rs, same) = ingest_urls-Returns topic_id urls w in
      (
        rs,
        same,
        Ensures-at (AreOutcomes urls) (ingest_urls e p u topic_id urls w).0 rs same
            ((ingest_urls-Upholds (λ _. Unit) no_rules topic_id urls).run w tt).1,
      )

  abbrev pub IsGuarded : Event → Type 0
  IsGuarded (fallback_extracted url) = IsValidated u url
  IsGuarded _ = Unit

  rules-IsGuarded : Rules e u (λ w. All IsGuarded w.log)
  unfolding observe
  rules-IsGuarded = record {
    steady = record {
      ticked = λ w n h. h;
      observed = λ w h. h;
      committed = λ w h. h;
      rolled_back = λ w h. h;
    };
    article = λ a w x d h same. h;
    attempt = λ a w x d h same. h;
    primary = λ url w h. (tt, h);
    fallback = λ url valid w h. (valid, h);
  }

  -- Where every call of the fallback extractor in the log was for a URL that `canonicalize_url`
  -- accepts in some state of the process, this is still so behind `ingest_urls`, on every path: the
  -- fallback, which checks no address itself, is called for validated URLs only.
  pub ingest_urls-IsGuarded :
      (topic_id : Uuid) (urls : List Text) (w : World)
      → All IsGuarded w.log
      → All IsGuarded (ingest_urls e p u topic_id urls w).1.log
  ingest_urls-IsGuarded topic_id urls w h =
      ((ingest_urls-Upholds (λ w'. All IsGuarded w'.log) rules-IsGuarded topic_id urls).run w h).0
