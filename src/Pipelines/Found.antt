-- ===== src/Pipelines/Found.antt =====
-- A row that was stored is found again by the key that its unique constraint names.
use agentic_analyst.Prelude.{
  ◌≡◌, refl, Bool, true, false, not, ◌||◌, List, [], ◌∷◌, ◌++◌, none, some, select, any, arith,
  ◌==◌, ==_refl, text_eq, text_eq_refl, Bool-cases, inl, inr,
}
use agentic_analyst.Domain.Values.{cadence_eq, Cadence}
use agentic_analyst.Domain.Errors.{ok}
use agentic_analyst.Domain.Articles.{ArticleBatch, BatchSummary}
use agentic_analyst.Domain.Briefs.{Brief}
use agentic_analyst.Store.Tables.{Db, scalar_one_or_none}
use agentic_analyst.Ingestion.Statements.{has_topic}
use agentic_analyst.Briefs.Queries.{get_brief_by_cadence_interval}
use agentic_analyst.Briefs.Statements.{same_interval, insert_brief}
use agentic_analyst.Summaries.Statements.{
  insert_batch, insert_summary, same_summary, get_article_batch_by_key,
  get_batch_summary_by_identity,
}
use agentic_analyst.Store.Session.{World, Env, query, observe}
use agentic_analyst.Store.Alone.{alone}

module _ {ℓ} {A : Type ℓ} (test clash : A → Bool)
    (covers : (x : A) → clash x ≡ false → test x ≡ false) where
  select-snoc :
      (a : A) (xs : List A)
      → any clash xs ≡ false
      → test a ≡ true
      → select test (xs ++ a ∷ []) ≡ a ∷ []
  select-snoc a [] free hit = rw hit refl
  select-snoc a (x ∷ xs) free hit = elim (Bool-cases (clash x)) [
    | inl clashes ↦ let no = rw clashes at free in cc
    | inr apart ↦ rw (covers x apart) (select-snoc a xs (rw apart at free) hit)
  ]

  scalar-snoc :
      (a : A) (xs : List A)
      → any clash xs ≡ false
      → test a ≡ true
      → scalar_one_or_none (select test (xs ++ a ∷ [])) ≡ ok (some a)
  unfolding scalar_one_or_none
  scalar-snoc a xs free hit = rw (select-snoc a xs free hit) refl

cadence_eq_refl : (c : Cadence) → cadence_eq c c ≡ true
cadence_eq_refl c = ground arith

insert_batch_found :
    (b : ArticleBatch) (d : Db) {out : ArticleBatch × Db}
    → insert_batch b d ≡ ok out
    → scalar_one_or_none
        (select (λ (x : ArticleBatch). text_eq x.batch_key b.batch_key) out.1.batches)
      ≡ ok (some b)
unfolding insert_batch
insert_batch_found b d h =
    elim (Bool-cases
      (any (λ (x : ArticleBatch). x.id == b.id || text_eq x.batch_key b.batch_key) d.batches)) [
        | inl clash ↦ let h' = rw clash at h in cc
        | inr free ↦
            let h' = rw free at h in
            let found =
              scalar-snoc (λ (x : ArticleBatch). text_eq x.batch_key b.batch_key)
                (λ (x : ArticleBatch). x.id == b.id || text_eq x.batch_key b.batch_key)
                (λ x apart. ground arith) b d.batches free (text_eq_refl b.batch_key) in
            cc
      ]

insert_summary_found :
    (s : BatchSummary) (d : Db) {out : BatchSummary × Db}
    → insert_summary s d ≡ ok out
    → (out.1.batches ≡ d.batches)
      × (scalar_one_or_none
            (select (same_summary s.batch_id s.model s.prompt_version) out.1.summaries)
          ≡ ok (some s))
unfolding insert_summary
insert_summary_found s d h =
    elim (Bool-cases (
      any (λ (x : BatchSummary). x.id == s.id || same_summary s.batch_id s.model s.prompt_version x)
        d.summaries)) [
          | inl clash ↦ let h' = rw clash at h in cc
          | inr free ↦
              elim (Bool-cases (not (any (λ (b : ArticleBatch). b.id == s.batch_id) d.batches))) [
                | inl missing ↦ let h' = rw (free, missing) at h in cc
                | inr there ↦
                    let h' = rw (free, there) at h in
                    let found =
                      scalar-snoc (same_summary s.batch_id s.model s.prompt_version)
                        (λ (x : BatchSummary).
                          x.id == s.id || same_summary s.batch_id s.model s.prompt_version x)
                        (λ x apart. ground arith) s d.summaries free (same_own s) in
                    (cc, cc)
              ]
        ]
  where
    same_own : (x : BatchSummary) → same_summary x.batch_id x.model x.prompt_version x ≡ true
    same_own x = rw (==_refl x.batch_id, text_eq_refl x.model, text_eq_refl x.prompt_version) refl

insert_brief_found :
    (b : Brief) (d : Db) {out : Brief × Db}
    → insert_brief b d ≡ ok out
    → (out.1.batches ≡ d.batches)
      × (out.1.summaries ≡ d.summaries)
      × (get_brief_by_cadence_interval b.cadence b.covered_start b.covered_end b.topic_id out.1
          ≡ ok (some b))
unfolding insert_brief get_brief_by_cadence_interval
insert_brief_found b d h =
    elim (Bool-cases (any (λ (x : Brief). x.id == b.id || same_interval b x) d.briefs)) [
      | inl clash ↦ let h' = rw clash at h in cc
      | inr free ↦ elim (Bool-cases (not (has_topic b.topic_id d))) [
        | inl missing ↦ let h' = rw (free, missing) at h in cc
        | inr there ↦
            let h' = rw (free, there) at h in
            let found =
              scalar-snoc (same_interval b) (λ (x : Brief). x.id == b.id || same_interval b x)
                (λ x apart. ground arith) b d.briefs free (same_own b) in
            (cc, cc, cc)
      ]
    ]
  where
    same_own : (x : Brief) → same_interval x x ≡ true
    same_own x =
        rw
          (
            ==_refl x.topic_id,
            cadence_eq_refl x.cadence,
            ==_refl x.covered_start,
            ==_refl x.covered_end,
          )
          refl

-- After a batch, a summary and a brief were stored one after the other, and before other sessions
-- commit, get_article_batch_by_key finds the batch by its key, get_batch_summary_by_identity the
-- summary by its batch, model and prompt version, and get_brief_by_cadence_interval the brief by its
-- topic, cadence and interval, each as it was stored and without a second row.
pub stored_found :
    (b : ArticleBatch) (s : BatchSummary) (r : Brief) (d : Db) (first : ArticleBatch × Db)
    (second : BatchSummary × Db) (third : Brief × Db)
    → insert_batch b d ≡ ok first
    → insert_summary s first.1 ≡ ok second
    → insert_brief r second.1 ≡ ok third
    → (e : Env) (w : World) → w.snapshot ≡ none
    → w.db ≡ third.1
    → ((get_article_batch_by_key (alone e) b.batch_key w).0 ≡ ok (some b))
      × ((get_batch_summary_by_identity (alone e) s.batch_id s.model s.prompt_version w).0
          ≡ ok (some s))
      × (get_brief_by_cadence_interval r.cadence r.covered_start r.covered_end r.topic_id third.1
          ≡ ok (some r))
unfolding get_article_batch_by_key get_batch_summary_by_identity query observe
stored_found b s r d first second third h1 h2 h3 e w closed here =
    let found = insert_batch_found b d h1 in
    let (batches, summary) = insert_summary_found s first.1 h2 in
    let (batches', summaries, brief) = insert_brief_found r second.1 h3 in
    (rw (closed, here, batches', batches) found, rw (closed, here, summaries) summary, brief)
