-- ===== src/Summaries/Evidence.antt =====
-- Every citation of a summary that `summarize_batch` returns points into the articles.
use agentic_analyst.Prelude.{
  ℕ, ◌≡◌, refl, sym, ap, ◌∙◌, subst, false, List, [], ◌∷◌, ◌++◌, Option, none, some, Text, ◌==◌,
  All, Exists, Bool-cases, inl, inr, ==_iff,
}
use agentic_analyst.Domain.Values.{Uuid, is_empty}
use agentic_analyst.Domain.Errors.{Result, ok, chain, chain-eq-ok}
use agentic_analyst.Domain.Articles.{Citation, Source, Article, ArticleBatch, BatchSummary}
use agentic_analyst.Store.Session.{Env, ask, lift, uuid4, now}
use agentic_analyst.Store.Returns.{Returns, Returns-bind, Returns-then, Returns-lift}
use agentic_analyst.Store.Upholds.{Ensures-eq}
use agentic_analyst.Summaries.Texts.{normalize_whitespace, contains, contains-split}
use agentic_analyst.Summaries.Prompts.{
  Printers, BatchSummaryModelResult, Message, content_of, build_batch_summary_messages,
}
use agentic_analyst.Summaries.Summarizer.{
  collect_pairs, build_article_source_lookup, lookup_by, article_key, check_excerpt, check_article,
  check_citations, validate_citations, has_citations, summary_row, new_summary, summarize_batch,
}

-- The excerpt, if there is one, is a part of the article's text, where a run of spaces counts as
-- one space.
abbrev pub IsExcerpt : Option Text → Article → Type 0
IsExcerpt none a = Unit
IsExcerpt (some excerpt) a =
    (front : Text) × (back : Text) × (normalize_whitespace (content_of a)
      ≡ front ++ (normalize_whitespace excerpt ++ back))

abbrev pub IsSupported : List Article → Citation → Type 0
IsSupported articles c =
    Exists (λ (a : Article). (a.id ≡ c.article_id) × IsExcerpt c.excerpt a) articles

-- The summary is of this batch, cites something, and every citation is supported.
abbrev pub IsGrounded : ArticleBatch → Text → Text → List Article → BatchSummary → Type 0
IsGrounded batch model prompt_version articles s =
    (s.batch_id ≡ batch.id)
    × (s.model ≡ model)
    × (s.prompt_version ≡ prompt_version)
    × (is_empty s.citations ≡ false)
    × All (IsSupported articles) s.citations

lookup_by-Exists {ℓ} :
    {A : Type ℓ} (P : A → Type 0) (key : A → Uuid) (id : Uuid) (xs : List A) (a : A)
    → lookup_by key id xs ≡ some a
    → P a
    → Exists (λ x. (key x ≡ id) × P x) xs
unfolding lookup_by
lookup_by-Exists P key id [] a h holds = cc
lookup_by-Exists {A} P key id (x ∷ xs) a h holds =
    kept (lookup_by key id xs) refl (λ e. lookup_by-Exists P key id xs a e holds)
  where
    kept :
        (o : Option A)
        → lookup_by key id xs ≡ o
        → (lookup_by key id xs ≡ some a → Exists (λ y. (key y ≡ id) × P y) xs)
        → Exists (λ y. (key y ≡ id) × P y) (x ∷ xs)
    kept (some b) found later =
        let h' = rw found at h in let same : b ≡ a = cc in inr (later (found ∙ ap some same))
    kept none missing later = elim (Bool-cases (key x == id)) [
      | inl hit ↦
          let h' = rw (missing, hit) at h in
          let same : x ≡ a = cc in inl ((==_iff (key x) id).0 hit, subst P (sym same) holds)
      | inr miss ↦ let h' = rw (missing, miss) at h in cc
    ]

module _ (p : Printers) where
  check_excerpt-IsExcerpt :
      (c : Citation) (a : Article) (o : Option Text) → check_excerpt p c a o ≡ ok tt → IsExcerpt o a
  check_excerpt-IsExcerpt c a none h = tt
  check_excerpt-IsExcerpt c a (some excerpt) h =
      elim (Bool-cases
        (contains (normalize_whitespace excerpt) (normalize_whitespace (content_of a)))) [
          | inl found ↦ contains-split _ _ found
          | inr missing ↦ let h' = rw missing at h in cc
        ]

  check_article-IsSupported :
      (articles : List Article) (c : Citation) (o : Option Article)
      → lookup_by article_key c.article_id articles ≡ o
      → check_article p c o ≡ ok tt
      → IsSupported articles c
  check_article-IsSupported articles c none found h = cc
  check_article-IsSupported articles c (some a) found h =
      lookup_by-Exists (IsExcerpt c.excerpt) article_key c.article_id articles a found
        (check_excerpt-IsExcerpt c a c.excerpt h)

  check_citations-IsSupported :
      (articles : List Article) (citations : List Citation)
      → check_citations p articles citations ≡ ok tt
      → All (IsSupported articles) citations
  unfolding check_citations
  check_citations-IsSupported articles [] h = tt
  check_citations-IsSupported articles (c ∷ citations) h =
      let (u, first, rest) =
        chain-eq-ok (λ _. check_citations p articles citations)
          (check_article p c (lookup_by article_key c.article_id articles)) h in
      (
        check_article-IsSupported articles c _ refl first,
        check_citations-IsSupported articles citations rest,
      )

  validate_citations_lem :
      (articles : List Article) (citations : List Citation)
      → validate_citations p articles citations ≡ ok tt
      → (is_empty citations ≡ false) × All (IsSupported articles) citations
  unfolding validate_citations
  validate_citations_lem articles [] h = cc
  validate_citations_lem articles (c ∷ citations) h =
      (refl, check_citations-IsSupported articles (c ∷ citations) h)

module _ (e : Env) where
  new_summary-IsGrounded :
      (batch : ArticleBatch) (articles : List Article) (model prompt_version : Text)
      (r : BatchSummaryModelResult)
      → (is_empty r.citations ≡ false) × All (IsSupported articles) r.citations
      → Returns
          (IsGrounded batch model prompt_version articles)
          (new_summary e batch model prompt_version r)
  unfolding new_summary has_citations
  new_summary-IsGrounded batch articles model prompt_version r (full, supported) =
      Returns-then (uuid4 e) _ λ id. Returns-then (now e) _ λ t.
        Returns-lift (has_citations (summary_row batch model prompt_version r id t))
          (rw full (refl, refl, refl, full, supported))

-- Whatever the model answers: a summary that `summarize_batch` returns is one of this batch, model
-- and prompt version, it cites at least one article, and each of its citations names one of the
-- given articles and quotes, if it quotes, a part of its text, where a run of spaces counts as one
-- space.
pub summarize_batch-IsGrounded :
    (p : Printers) (e : Env) (system_prompt : Text)
    (generate : List Message → ℕ → Result BatchSummaryModelResult) (batch : ArticleBatch)
    (articles : List Article) (sources : List Source) (model prompt_version : Text)
    → Returns
        (IsGrounded batch model prompt_version articles)
        (summarize_batch p e system_prompt generate batch articles sources model prompt_version)
unfolding summarize_batch
summarize_batch-IsGrounded p e system_prompt generate batch articles sources model prompt_version =
    Returns-then
      (lift (
        chain (collect_pairs p batch.article_ids) (build_article_source_lookup p articles sources)))
      _
      λ pairs.
        Returns-then
          (ask (generate (build_batch_summary_messages p system_prompt pairs prompt_version))) _
          λ r.
            Returns-bind
              {Q = λ _. (is_empty r.citations ≡ false) × All (IsSupported articles) r.citations}
              (lift (validate_citations p articles r.citations)) _
              (Returns-lift _ (
                Ensures-eq (validate_citations p articles r.citations)
                  (λ _ passed. validate_citations_lem p articles r.citations passed)))
              λ _ grounded. new_summary-IsGrounded e batch articles model prompt_version r grounded
