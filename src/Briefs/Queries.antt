-- ===== src/Briefs/Queries.antt =====
-- The statements on briefs, narratives and batch summaries. Where a query leaves the order of
-- equal rows open, the model keeps the order of the table.
use agentic_analyst.Prelude.{
  ◌+◌, Bool, true, not, ◌&&◌, ◌||◌, List, Option, none, some, select, any, head?, take, sort_by,
  ltb, leb, ◌==◌, is_some,
}
use agentic_analyst.Domain.Values.{Uuid, Date, Cadence, cadence_eq, midnight}
use agentic_analyst.Domain.Errors.{Result, ok, err}
use agentic_analyst.Domain.Articles.{Article, ArticleBatch, BatchSummary}
use agentic_analyst.Domain.Briefs.{Brief, NarrativeStateVersion}
use agentic_analyst.Store.Tables.{Db, scalar_one_or_none}
use agentic_analyst.Store.Session.{Env, M, pure, query, ◌>>=◌}

-- `order_by(covered_end.desc(), created_at.desc())`
abbrev pub latest_first : Brief → Brief → Bool
latest_first a b =
    ltb b.covered_end a.covered_end
    || (a.covered_end == b.covered_end && leb b.created_at a.created_at)

abbrev pub precedes : Uuid → Date → Brief → Bool
precedes topic_id before b =
    b.topic_id == topic_id && (ltb b.covered_end before && is_some b.narrative_state_version_id)

-- The first query of `get_narrative_version_as_of`.
unfoldable pub latest_narrative_id : Date → Uuid → Db → Option Uuid
latest_narrative_id before topic_id d =
    elim (head? (sort_by latest_first (select (precedes topic_id before) d.briefs))) [
      | none ↦ none
      | some b ↦ b.narrative_state_version_id
    ]

unfoldable pub list_prior_briefs : Cadence → Date → Option Uuid → Db → List Brief
list_prior_briefs cadence before topic_id d = take 31 (
    sort_by (λ a b. leb b.covered_end a.covered_end)
      (select
        (λ (b : Brief).
          cadence_eq b.cadence cadence
          && (ltb b.covered_end before && elim topic_id [ none ↦ true | some t ↦ b.topic_id == t ]))
        d.briefs))

unfoldable pub get_brief_by_cadence_interval :
    Cadence → Date → Date → Uuid → Db → Result (Option Brief)
get_brief_by_cadence_interval cadence start end topic_id d = scalar_one_or_none (
    select
      (λ (b : Brief).
        b.topic_id == topic_id
        && (cadence_eq b.cadence cadence && (b.covered_start == start && b.covered_end == end)))
      d.briefs)

-- `is_batch_summary_cited`, with the interval to leave out.
abbrev pub cites : Uuid → Cadence → Date → Date → Brief → Bool
cites summary_id cadence start end b =
    cadence_eq b.cadence cadence
    && (any (λ i. i == summary_id) b.cited_batch_summary_ids
        && not (b.covered_start == start && b.covered_end == end))

unfoldable pub is_batch_summary_cited : Uuid → Cadence → Date → Date → Db → Result Bool
is_batch_summary_cited summary_id cadence start end d =
    elim (scalar_one_or_none (select (cites summary_id cadence start end) d.briefs)) [
      | ok o ↦ ok (is_some o)
      | err x ↦ err x
    ]

-- An article of the topic that was published on a day of the window.
abbrev pub in_window : Date → Date → Uuid → Article → Bool
in_window start end topic_id a =
    a.topic_id == topic_id
    && (leb (midnight start) a.published_at && ltb a.published_at (midnight (end + 1)))

abbrev pub has_article_in_window : Date → Date → Uuid → Db → BatchSummary → Bool
has_article_in_window start end topic_id d s =
    any
      (λ (b : ArticleBatch).
        b.id == s.batch_id
        && any
            (λ (a : Article). any (λ i. i == a.id) b.article_ids && in_window start end topic_id a)
            d.articles)
      d.batches

-- `list_eligible_batch_summaries_for_window`
unfoldable pub list_eligible_batch_summaries_for_window :
    Date → Date → Uuid → Db → List BatchSummary
list_eligible_batch_summaries_for_window start end topic_id d =
    sort_by
      (λ (a b : BatchSummary).
        ltb a.created_at b.created_at || (a.created_at == b.created_at && leb a.id b.id))
      (select (has_article_in_window start end topic_id d) d.summaries)

module _ (e : Env) where
  -- The second query of `get_narrative_version_as_of`.
  abbrev pub load_narrative : Option Uuid → M (Option NarrativeStateVersion)
  load_narrative none = pure none
  load_narrative (some i) =
      query e
        (λ d. scalar_one_or_none (select (λ (n : NarrativeStateVersion). n.id == i) d.narratives))

  unfoldable pub get_narrative_version_as_of : Date → Uuid → M (Option NarrativeStateVersion)
  get_narrative_version_as_of before topic_id =
      query e (λ d. ok (latest_narrative_id before topic_id d)) >>= load_narrative
