-- ===== src/Ingestion/Distinct.antt =====
-- At most one article for each identifier, and for each topic and URL fingerprint.
use agentic_analyst.Prelude.{
  ℕ, ◌≡◌, sym, subst, false, not, ◌&&◌, ◌||◌, List, [], ◌∷◌, ◌++◌, none, Text, text_eq_iff, any,
  arith, ◌==◌, Bool-cases, inl, inr,
}
use agentic_analyst.Prelude.Apart.{Apart, snoc-Apart}
use agentic_analyst.Domain.Values.{Uuid}
use agentic_analyst.Domain.Errors.{ok}
use agentic_analyst.Domain.Articles.{Article}
use agentic_analyst.Domain.Feeds.{IngestionAttempt}
use agentic_analyst.Store.Tables.{Db}
use agentic_analyst.Store.Session.{World, Env, base_of}
use agentic_analyst.Store.Keeps.{Stands, InSnapshot-base, observe-Stands}
use agentic_analyst.Http.Urls.{UrlLibrary}
use agentic_analyst.Ingestion.Statements.{
  article_clash, has_topic, has_source, has_feed, insert_article, insert_attempt,
}
use agentic_analyst.Ingestion.Records.{Ports}
use agentic_analyst.Ingestion.Direct.{ingest_urls}
use agentic_analyst.Ingestion.Contract.{Rules}
use agentic_analyst.Ingestion.Results.{ingest_urls-Upholds}

-- No two articles share an identifier, or a topic and a URL fingerprint.
abbrev pub HasDistinctArticles : Db → Type 0
HasDistinctArticles d = Apart article_clash d.articles

article_clash_sym : (x y : Article) → article_clash x y ≡ false → article_clash y x ≡ false
article_clash_sym x y h = ground (
  arith,
  text_eq_iff x.url_fingerprint y.url_fingerprint,
  text_eq_iff y.url_fingerprint x.url_fingerprint,
)

insert_article_inversion :
    (a : Article) (d : Db) {out : Article × Db}
    → insert_article a d ≡ ok out
    → (any (article_clash a) d.articles ≡ false)
      × (out ≡ (a, record d { articles = d.articles ++ a ∷ [] }))
unfolding insert_article
insert_article_inversion a d h = elim (Bool-cases (any (article_clash a) d.articles)) [
  | inl clash ↦ let h' = rw clash at h in cc
  | inr free ↦ elim (Bool-cases (not (has_topic a.topic_id d && has_source a.source_id d))) [
    | inl missing ↦ let h' = rw (free, missing) at h in cc
    | inr there ↦ let h' = rw (free, there) at h in (free, cc)
  ]
]

insert_attempt_inversion :
    (a : IngestionAttempt) (d : Db) {out : IngestionAttempt × Db}
    → insert_attempt a d ≡ ok out
    → out.1.articles ≡ d.articles
unfolding insert_attempt
insert_attempt_inversion a d h =
    elim (Bool-cases (
      any (λ (x : IngestionAttempt). x.id == a.id) d.attempts
      || not
          (has_topic a.topic_id d && (has_source a.source_id d && has_feed a.source_feed_id d)))) [
            | inl refused ↦ let h' = rw refused at h in cc
            | inr fine ↦ let h' = rw fine at h in cc
          ]

module _ (e : Env) (u : UrlLibrary)
    (others : (n : ℕ) (d : Db) → HasDistinctArticles d → HasDistinctArticles (e.others n d)) where
  based : (w : World) → Stands HasDistinctArticles w → HasDistinctArticles (base_of w.snapshot w.db)
  based w h = InSnapshot-base HasDistinctArticles w.snapshot w.db h.0 h.1

  distinct_rules : Rules e u (Stands HasDistinctArticles)
  distinct_rules = record {
    steady = record {
      ticked = λ w n h. h;
      observed = λ w h. observe-Stands HasDistinctArticles e others w h;
      committed = λ w h. (h.0, tt);
      rolled_back = λ w h. (based w h, tt);
    };
    article = λ a w x d h same.
        let (free, out) = insert_article_inversion a w.db same in
        (
          subst (λ (o : Article × Db). HasDistinctArticles o.1) (sym out)
              (snoc-Apart article_clash article_clash_sym a w.db.articles h.0 free),
          based w h,
        );
    attempt = λ a w x d h same.
        (subst (Apart article_clash) (sym (insert_attempt_inversion a w.db same)) h.0, based w h);
    primary = λ url w h. h;
    fallback = λ url valid w h. h;
  }

-- If no two articles share an identifier, or a topic and a URL fingerprint, and what other
-- processes commit between the statements keeps that, then `ingest_urls`, started outside a
-- session, keeps it on every path, races and rollbacks included.
pub ingest_urls-HasDistinctArticles :
    (e : Env) (p : Ports) (u : UrlLibrary) (topic_id : Uuid) (urls : List Text) (w : World)
    → ((n : ℕ) (d : Db) → HasDistinctArticles d → HasDistinctArticles (e.others n d))
    → w.snapshot ≡ none
    → HasDistinctArticles w.db
    → HasDistinctArticles (ingest_urls e p u topic_id urls w).1.db
ingest_urls-HasDistinctArticles e p u topic_id urls w others closed h =
    ((ingest_urls-Upholds e p u (Stands HasDistinctArticles) (distinct_rules e u others) topic_id
        urls).run
      w (h, rw closed tt)).0.0
