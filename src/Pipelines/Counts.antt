-- ===== src/Pipelines/Counts.antt =====
-- What the counts of a daily result promise.
use agentic_analyst.Prelude.{
  ℕ, ◌+◌, ◌≤◌, ◌≡◌, refl, List, [], ◌∷◌, Option, none, some, length, take, length-take_bound,
  length-append, arith,
}
use agentic_analyst.Domain.Values.{Uuid, Date}
use agentic_analyst.Domain.Errors.{ok}
use agentic_analyst.Domain.Articles.{ArticleBatch, BatchSummary}
use agentic_analyst.Store.Session.{Env, M, query, now, session_scope, ◌>>=◌}
use agentic_analyst.Store.Returns.{
  Returns, Returns-bind, Returns-then, Returns-pure, Returns-session, Returns-weaken,
}
use agentic_analyst.Topics.Sources.{list_due_source_feeds}
use agentic_analyst.Summaries.Statements.{
  save_article_batch, get_article_batch_by_key, get_batch_summary_by_identity,
}
use agentic_analyst.Runner.Keys.{Formats}
use agentic_analyst.Runner.Execute.{GraphState}
use agentic_analyst.Pipelines.Daily.{
  Services, Resolved, Summarized, none_resolved, none_summarized, none_polled, due_feeds,
  poll_feeds, eligible_articles, group_articles, resolve_batch, resolve_batches, create_summary,
  load_batch, summarize_new, store_summary, summarize_missing, summarize_batches,
}
use agentic_analyst.Pipelines.DailyRun.{Progress, prepare}

abbrev pub summaries_of : Summarized → ℕ
summaries_of z = z.summaries_created + z.summaries_reused

-- Each batch was stored or found, and has at most one summary that was stored or found.
abbrev pub IsCounted : Services → Progress → Type 0
IsCounted s p =
    (p.feeds_polled ≤ s.settings.max_feeds_per_run)
    × (length p.resolved.batches ≡ p.resolved.batches_created + p.resolved.batches_reused)
    × (summaries_of p.summarized ≤ length p.resolved.batches)

module _ (e : Env) (s : Services) where
  due_feeds_bound :
      (topic_id : Uuid)
      → Returns (λ feeds. length feeds ≤ s.settings.max_feeds_per_run) (due_feeds e s topic_id)
  unfolding due_feeds
  due_feeds_bound topic_id =
      Returns-then
        (session_scope (now e >>= λ t. query e (λ d. ok (list_due_source_feeds t topic_id d)))) _
        (λ feeds.
          Returns-pure (take s.settings.max_feeds_per_run feeds)
            (length-take_bound s.settings.max_feeds_per_run feeds))

  abbrev Balanced : Resolved → Type 0
  Balanced r = length r.batches ≡ r.batches_created + r.batches_reused

  resolve_batch-Balanced :
      (batch : ArticleBatch) (r : Resolved) (o : Option ArticleBatch)
      → Balanced r
      → Returns Balanced (resolve_batch e s batch r o)
  resolve_batch-Balanced batch r (some existing) h =
      Returns-pure _ (omega (arith, length-append r.batches (existing ∷ [])))
  resolve_batch-Balanced batch r none h =
      Returns-then (save_article_batch e batch) _
        (λ saved. Returns-pure _ (omega (arith, length-append r.batches (saved ∷ []))))

  resolve_batches-Balanced :
      (batches : List ArticleBatch) (r : Resolved)
      → Balanced r
      → Returns Balanced (resolve_batches e s batches r)
  unfolding resolve_batches
  resolve_batches-Balanced [] r h = Returns-pure r h
  resolve_batches-Balanced (batch ∷ batches) r h =
      Returns-bind (get_article_batch_by_key e batch.batch_key >>= resolve_batch e s batch r)
        (resolve_batches e s batches)
        (Returns-then (get_article_batch_by_key e batch.batch_key) (resolve_batch e s batch r)
          (λ o. resolve_batch-Balanced batch r o h))
        (λ r' h'. resolve_batches-Balanced batches r' h')

  -- At most one summary more than before.
  create_summary_bound :
      (id : Uuid) (o : Option BatchSummary) (z : Summarized)
      → summaries_of (create_summary id o z) ≤ 1 + summaries_of z
  create_summary_bound id none z = omega arith
  create_summary_bound id (some x) z = omega arith

  summarize_missing_bound :
      (batch : ArticleBatch) (z : Summarized) (o : Option BatchSummary)
      → Returns (λ z'. summaries_of z' ≤ 1 + summaries_of z) (summarize_missing e s batch z o)
  summarize_missing_bound batch z (some existing) = Returns-pure _ (omega arith)
  summarize_missing_bound batch z none =
      Returns-then (load_batch e s batch >>= summarize_new e s batch >>= store_summary e s) _
        (λ o. Returns-pure (create_summary batch.id o z) (create_summary_bound batch.id o z))

  summarize_batches_bound :
      (batches : List ArticleBatch) (z : Summarized)
      → Returns
          (λ z'. summaries_of z' ≤ length batches + summaries_of z)
          (summarize_batches e s batches z)
  unfolding summarize_batches
  summarize_batches_bound [] z = Returns-pure z (omega arith)
  summarize_batches_bound (batch ∷ batches) z =
      Returns-bind {Q = λ z'. summaries_of z' ≤ 1 + summaries_of z}
        (session_scope (
            get_batch_summary_by_identity e batch.id s.settings.batch_summary_model
              s.settings.batch_summary_prompt_version)
          >>= summarize_missing e s batch z)
        (summarize_batches e s batches)
        (Returns-then _ (summarize_missing e s batch z) (summarize_missing_bound batch z))
        (λ z' h. Returns-weaken (summarize_batches_bound batches z') (λ z'' k. omega arith))

  pub prepare-IsCounted :
      (f : Formats) (invoke : GraphState → M (Unit {0})) (target_date : Date) (topic_id : Uuid)
      → Returns (IsCounted s) (prepare e f invoke s target_date topic_id)
  unfolding prepare
  prepare-IsCounted f invoke target_date topic_id =
      Returns-bind (due_feeds e s topic_id) _ (due_feeds_bound topic_id) λ feeds few.
        Returns-then (poll_feeds e s feeds none_polled) _ λ polled.
          Returns-then (eligible_articles e s target_date topic_id) _ λ articles.
            Returns-then (group_articles e s articles) _ λ grouped.
              Returns-bind (session_scope (resolve_batches e s grouped.batches none_resolved)) _
                (Returns-session _ (resolve_batches-Balanced grouped.batches none_resolved refl))
                λ resolved balanced.
                  Returns-bind (summarize_batches e s resolved.batches none_summarized) _
                    (summarize_batches_bound resolved.batches none_summarized)
                    λ summarized bound. Returns-pure _ (few, balanced, omega arith)
