-- ===== src/Pipelines/Evidence.antt =====
-- Which summaries the selection takes: the eligible ones that no brief of another interval cites.
use agentic_analyst.Prelude.{
  ◌≡◌, refl, Bool, true, false, not, List, [], ◌∷◌, ◌++◌, none, any, select, ==_refl, Bool-cases,
  inl, inr, ap, ◌∙◌, arith,
}
use agentic_analyst.Domain.Values.{Uuid, Date, Cadence, is_empty}
use agentic_analyst.Domain.Errors.{ok, Ensures}
use agentic_analyst.Domain.Articles.{BatchSummary}
use agentic_analyst.Domain.Briefs.{Brief}
use agentic_analyst.Store.Tables.{Db, scalar_one_or_none}
use agentic_analyst.Store.Upholds.{Upholds, Upholds-bind, Upholds-pure}
use agentic_analyst.Store.Alone.{alone, Reads, Upholds-read, Upholds-scope}
use agentic_analyst.Store.Session.{Event, World, Env, M, query, ◌>>=◌}
use agentic_analyst.Briefs.Queries.{
  cites, is_batch_summary_cited, list_eligible_batch_summaries_for_window,
}
use agentic_analyst.Pipelines.Selection.{prepend, drop_cited, select_summaries}

select-snoc_refused {ℓ} :
    {A : Type ℓ} (test : A → Bool) (a : A) (xs : List A)
    → test a ≡ false
    → select test (xs ++ a ∷ []) ≡ select test xs
select-snoc_refused test a [] h = rw h refl
select-snoc_refused test a (x ∷ xs) h = rw (select-snoc_refused test a xs h) refl

cites_own : (id : Uuid) (b : Brief) → cites id b.cadence b.covered_start b.covered_end b ≡ false
cites_own id b = rw (==_refl b.covered_start, ==_refl b.covered_end) (ground arith)

-- A brief does not count against the selection for its own cadence and interval: once it is stored,
-- a retry for the interval finds the same summaries uncited as before.
pub is_batch_summary_cited-own :
    (id : Uuid) (b : Brief) (d : Db)
    → is_batch_summary_cited id b.cadence b.covered_start b.covered_end
        (record d { briefs = d.briefs ++ b ∷ [] })
      ≡ is_batch_summary_cited id b.cadence b.covered_start b.covered_end d
unfolding is_batch_summary_cited
is_batch_summary_cited-own id b d =
    rw
      (
        is_batch_summary_cited,
        select-snoc_refused (cites id b.cadence b.covered_start b.covered_end) b d.briefs
            (cites_own id b),
      )
      refl

-- No brief of another interval cites the summary.
abbrev pub is_uncited : Cadence → Date → Date → Db → BatchSummary → Bool
is_uncited cadence start end d s = not (any (cites s.id cadence start end) d.briefs)

any-select {ℓ} :
    {A : Type ℓ} (test : A → Bool) (xs : List A) → any test xs ≡ not (is_empty (select test xs))
any-select test [] = refl
any-select test (x ∷ xs) = elim (Bool-cases (test x)) [
  | inl hit ↦ rw hit refl
  | inr miss ↦ rw miss (any-select test xs)
]

module _ (summary_id : Uuid) (cadence : Cadence) (start end : Date) (d : Db) where
  -- What the query answers is whether some brief of another interval cites the summary.
  pub is_batch_summary_cited-any :
      {b : Bool}
      → is_batch_summary_cited summary_id cadence start end d ≡ ok b
      → any (cites summary_id cadence start end) d.briefs ≡ b
  unfolding is_batch_summary_cited scalar_one_or_none
  is_batch_summary_cited-any {b} h =
      any-select (cites summary_id cadence start end) d.briefs
      ∙ cases (select (cites summary_id cadence start end) d.briefs) refl
    where
      cases :
          (briefs : List Brief)
          → select (cites summary_id cadence start end) d.briefs ≡ briefs
          → not (is_empty briefs) ≡ b
      cases [] found = let h' = rw (is_batch_summary_cited, found) at h in cc
      cases (x ∷ []) found = let h' = rw (is_batch_summary_cited, found) at h in cc
      cases (x ∷ y ∷ others) found = let h' = rw (is_batch_summary_cited, found) at h in cc

module _ (e : Env) (d : Db) (log : List Event) (cadence : Cadence) (start end : Date) where
  pub drop_cited-Upholds :
      (candidates : List BatchSummary)
      → Upholds
          (Reads d log)
          (λ xs. xs ≡ select (is_uncited cadence start end d) candidates)
          (drop_cited (alone e) cadence start end candidates)
  unfolding drop_cited
  drop_cited-Upholds [] = Upholds-pure (Reads d log) [] refl
  drop_cited-Upholds (s ∷ candidates) =
      Upholds-bind (Reads d log) (query (alone e) (is_batch_summary_cited s.id cadence start end)) _
        (Upholds-read e d log (is_batch_summary_cited s.id cadence start end))
        λ b answer.
          taken b (is_batch_summary_cited-any s.id cadence start end d answer)
            (drop_cited-Upholds candidates)
    where
      taken :
          (b : Bool)
          → any (cites s.id cadence start end) d.briefs ≡ b
          → Upholds
              (Reads d log)
              (λ xs. xs ≡ select (is_uncited cadence start end d) candidates)
              (drop_cited (alone e) cadence start end candidates)
          → Upholds
              (Reads d log)
              (λ xs. xs ≡ select (is_uncited cadence start end d) (s ∷ candidates))
              (prepend (alone e) s b (drop_cited (alone e) cadence start end candidates))
      taken true known rest = rw known rest
      taken false known rest = rw known (
          Upholds-bind (Reads d log) (drop_cited (alone e) cadence start end candidates) _ rest
            λ xs same. Upholds-pure (Reads d log) (s ∷ xs) (ap (λ l. s ∷ l) same))

-- If no other session interferes, the selection is exactly the eligible summaries of the window, in
-- their order, that no brief of the cadence with another interval cites, if it does not fail; and it
-- leaves the database as it is.
pub select_summaries_lem :
    (e : Env) (cadence : Cadence) (topic_id : Uuid) (start end : Date) (w : World)
    → w.snapshot ≡ none
    → ((select_summaries (alone e) cadence topic_id start end w).1.db ≡ w.db)
      × Ensures
          (λ xs.
            xs
            ≡ select
                (is_uncited cadence start end w.db)
                (list_eligible_batch_summaries_for_window start end topic_id w.db))
          (select_summaries (alone e) cadence topic_id start end w).0
unfolding select_summaries
select_summaries_lem e cadence topic_id start end w closed =
    let out =
      (Upholds-scope e w.db w.log (body) (
          Upholds-bind (Reads w.db w.log)
            (query (alone e)
              (λ d. ok (list_eligible_batch_summaries_for_window start end topic_id d)))
            (drop_cited (alone e) cadence start end)
            (Upholds-read e w.db w.log
              (λ d. ok (list_eligible_batch_summaries_for_window start end topic_id d)))
            (λ candidates answer.
              kept candidates answer
                (drop_cited-Upholds e w.db w.log cadence start end candidates)))).run
        w (refl, closed, refl) in
    (out.0.0, out.1)
  where
    body : M (List BatchSummary)
    body =
        query (alone e) (λ d. ok (list_eligible_batch_summaries_for_window start end topic_id d))
        >>= drop_cited (alone e) cadence start end

    kept :
        (candidates : List BatchSummary)
        → ok (list_eligible_batch_summaries_for_window start end topic_id w.db) ≡ ok candidates
        → Upholds
            (Reads w.db w.log)
            (λ xs. xs ≡ select (is_uncited cadence start end w.db) candidates)
            (drop_cited (alone e) cadence start end candidates)
        → Upholds
            (Reads w.db w.log)
            (λ xs.
              xs
              ≡ select
                  (is_uncited cadence start end w.db)
                  (list_eligible_batch_summaries_for_window start end topic_id w.db))
            (drop_cited (alone e) cadence start end candidates)
    kept candidates answer rest =
        let same : list_eligible_batch_summaries_for_window start end topic_id w.db ≡ candidates =
          cc in
        rw same rest
