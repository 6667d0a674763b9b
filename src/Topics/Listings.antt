-- ===== src/Topics/Listings.antt =====
-- The order and the contents of the lists that the scheduler and the API read.
use agentic_analyst.Prelude.{
  ◌+◌, ◌-◌, ◌*◌, ◌<◌, ◌↔◌, ==_iff, Exists, any, select, sort_by, ℕ, ◌≤◌, ◌≡◌, refl, Bool, true,
  false, ◌&&◌, ◌||◌, List, Option, none, some, length, length-take_bound, take, leb, ltb, arith,
  ◌==◌,
}
use agentic_analyst.Prelude.Sorting.{IsOrder}
use agentic_analyst.Prelude.Reflection.{leb_iff, ltb_iff, &&_iff, any_iff, Lists, sort_by-Lists}
use agentic_analyst.Domain.Values.{Uuid, Date, Datetime, midnight, IngestionStatus}
use agentic_analyst.Domain.Feeds.{SourceFeed}
use agentic_analyst.Domain.Articles.{Source, Article, ArticleBatch, BatchSummary}
use agentic_analyst.Store.Tables.{Db}
use agentic_analyst.Briefs.Queries.{
  in_window, has_article_in_window, list_eligible_batch_summaries_for_window,
}
use agentic_analyst.Topics.Sources.{
  in_topic, is_due, polled_le, list_due_source_feeds, clamp_limit, list_ingestion_attempts,
}

-- Never polled is earlier than every moment.
abbrev pub no_later : Option Datetime → Option Datetime → Bool
no_later (some s) (some t) = leb s t
no_later (some s) none = false
no_later none o = true

abbrev pub polled_before : SourceFeed → SourceFeed → Bool
polled_before a b = no_later a.last_polled_at b.last_polled_at

polled_le_lem : (o p : Option Datetime) → polled_le o p ≡ no_later o p
polled_le_lem none none = refl
polled_le_lem none (some t) = refl
polled_le_lem (some s) none = refl
polled_le_lem (some s) (some t) = refl

-- The feed was never polled, or its interval, in minutes, has passed by this moment, where moments
-- count microseconds.
abbrev pub HasElapsed : Datetime → ℕ → Option Datetime → Type 0
HasElapsed moment minutes none = Unit
HasElapsed moment minutes (some polled) = polled + minutes * 60_000_000 ≤ moment

-- A source of the topic has the feed, which is enabled and whose interval has passed.
abbrev pub IsDueFeed : Datetime → Uuid → Db → SourceFeed → Type 0
IsDueFeed moment topic_id d f =
    Exists (λ (s : Source). (s.id ≡ f.source_id) × (s.topic_id ≡ topic_id)) d.sources
    × ((f.enabled ≡ true) × HasElapsed moment f.poll_interval_minutes f.last_polled_at)

is_due_iff :
    (moment : Datetime) (f : SourceFeed) (o : Option Datetime)
    → (is_due moment f o ≡ true) ↔ HasElapsed moment f.poll_interval_minutes o
is_due_iff moment f none = (λ h. tt, λ h. refl)
is_due_iff moment f (some polled) = leb_iff (polled + f.poll_interval_minutes * 60_000_000) moment

IsDueFeed-iff :
    (moment : Datetime) (topic_id : Uuid) (d : Db) (f : SourceFeed)
    → (in_topic topic_id d f && (f.enabled && is_due moment f f.last_polled_at) ≡ true)
      ↔ IsDueFeed moment topic_id d f
IsDueFeed-iff moment topic_id d f =
    &&_iff (in_topic topic_id d f) (f.enabled && is_due moment f f.last_polled_at)
      (any_iff (λ (s : Source). s.id == f.source_id && s.topic_id == topic_id)
        (λ s.
          &&_iff (s.id == f.source_id) (s.topic_id == topic_id) (==_iff s.id f.source_id)
            (==_iff s.topic_id topic_id))
        d.sources)
      (&&_iff f.enabled (is_due moment f f.last_polled_at) (λ h. h, λ h. h)
        (is_due_iff moment f f.last_polled_at))

no_later_total : (a b : Option Datetime) → no_later a b ≡ false → no_later b a ≡ true
no_later_total none b h = cc
no_later_total (some a) none h = refl
no_later_total (some a) (some b) h = ground arith

no_later_trans :
    (a b c : Option Datetime) → no_later a b ≡ true → no_later b c ≡ true → no_later a c ≡ true
no_later_trans none b c h k = refl
no_later_trans (some a) none c h k = cc
no_later_trans (some a) (some b) none h k = cc
no_later_trans (some a) (some b) (some c) h k = ground arith

polled_order : IsOrder polled_before
polled_order = record {
  total = λ a b. no_later_total a.last_polled_at b.last_polled_at;
  trans = λ a b c. no_later_trans a.last_polled_at b.last_polled_at c.last_polled_at;
}

due_in_order :
    (moment : Datetime) (topic_id : Uuid) (d : Db)
    → list_due_source_feeds moment topic_id d
      ≡ sort_by polled_before (
          select
            (λ f. in_topic topic_id d f && (f.enabled && is_due moment f f.last_polled_at))
            d.feeds)
unfolding list_due_source_feeds
due_in_order moment topic_id d i =
    sort_by (λ (a b : SourceFeed). polled_le_lem a.last_polled_at b.last_polled_at i)
      (select (λ f. in_topic topic_id d f && (f.enabled && is_due moment f f.last_polled_at))
        d.feeds)

-- The feeds to poll are exactly the enabled feeds of the topic's sources that were never polled or
-- whose interval has passed, each as often as it stands in the table, with those never polled first
-- and the others by the time of their last poll.
pub list_due_source_feeds-Lists :
    (moment : Datetime) (topic_id : Uuid) (d : Db)
    → Lists polled_before
        (IsDueFeed moment topic_id d)
        d.feeds
        (list_due_source_feeds moment topic_id d)
list_due_source_feeds-Lists moment topic_id d = rw (due_in_order moment topic_id d) (
    sort_by-Lists polled_before (IsDueFeed moment topic_id d) d.feeds
      (λ f. in_topic topic_id d f && (f.enabled && is_due moment f f.last_polled_at))
      (IsDueFeed-iff moment topic_id d) polled_order)

abbrev pub created_before : BatchSummary → BatchSummary → Bool
created_before a b =
    ltb a.created_at b.created_at || (a.created_at == b.created_at && leb a.id b.id)

-- Published from the first microsecond of the day `start` on, and before the day behind `end`, where
-- the first day has ordinal 1.
abbrev pub IsWithin : Date → Date → Uuid → Article → Type 0
IsWithin start end topic_id a =
    (a.topic_id ≡ topic_id)
    × (((start - 1) * 86_400_000_000 ≤ a.published_at) × (a.published_at < end * 86_400_000_000))

-- The batch of the summary has an article of the topic that was published in the window.
abbrev pub HasArticleWithin : Date → Date → Uuid → Db → BatchSummary → Type 0
HasArticleWithin start end topic_id d s =
    Exists
      (λ (b : ArticleBatch).
        (b.id ≡ s.batch_id)
        × Exists
            (λ (a : Article). Exists (λ i. i ≡ a.id) b.article_ids × IsWithin start end topic_id a)
            d.articles)
      d.batches

before_end :
    (t : Datetime) (end : Date) → (ltb t (midnight (end + 1)) ≡ true) ↔ (t < end * 86_400_000_000)
unfolding midnight
before_end t end =
    let last = ltb_iff t ((end + 1 - 1) * 86_400_000_000) in
    (λ h. ground (arith, last.0 h), λ h. last.1 (omega arith))

in_window_iff :
    (start end : Date) (topic_id : Uuid) (a : Article)
    → (in_window start end topic_id a ≡ true) ↔ IsWithin start end topic_id a
unfolding midnight
in_window_iff start end topic_id a =
    &&_iff (a.topic_id == topic_id) _ (==_iff a.topic_id topic_id) (
      &&_iff (leb (midnight start) a.published_at) (ltb a.published_at (midnight (end + 1)))
        (leb_iff (midnight start) a.published_at) (before_end a.published_at end))

HasArticleWithin-iff :
    (start end : Date) (topic_id : Uuid) (d : Db) (s : BatchSummary)
    → (has_article_in_window start end topic_id d s ≡ true)
      ↔ HasArticleWithin start end topic_id d s
HasArticleWithin-iff start end topic_id d s =
    any_iff
      (λ (b : ArticleBatch).
        b.id == s.batch_id
        && any
            (λ (a : Article). any (λ i. i == a.id) b.article_ids && in_window start end topic_id a)
            d.articles)
      (λ b. &&_iff (b.id == s.batch_id) _ (==_iff b.id s.batch_id) (
        any_iff
          (λ (a : Article). any (λ i. i == a.id) b.article_ids && in_window start end topic_id a)
          (λ a.
            &&_iff (any (λ i. i == a.id) b.article_ids) (in_window start end topic_id a)
              (any_iff (λ i. i == a.id) (λ i. ==_iff i a.id) b.article_ids)
              (in_window_iff start end topic_id a))
          d.articles))
      d.batches

-- The summaries that a window may cite are exactly those whose batch has an article of the topic
-- that was published on a day of the window, each as often as it stands in the table, by the time
-- of their creation and then by their identifier.
pub list_eligible_batch_summaries-Lists :
    (start end topic_id : ℕ) (d : Db)
    → Lists created_before
        (HasArticleWithin start end topic_id d)
        d.summaries
        (list_eligible_batch_summaries_for_window start end topic_id d)
unfolding list_eligible_batch_summaries_for_window
list_eligible_batch_summaries-Lists start end topic_id d =
    sort_by-Lists created_before (HasArticleWithin start end topic_id d) d.summaries
      (has_article_in_window start end topic_id d) (HasArticleWithin-iff start end topic_id d)
      (record { total = λ a b h. ground arith; trans = λ a b c h k. ground arith })

clamp_limit_bound : (limit : ℕ) → (1 ≤ clamp_limit limit) × (clamp_limit limit ≤ 200)
unfolding clamp_limit
clamp_limit_bound limit = (ground arith, ground arith)

cut_at_200 {ℓ} : {A : Type ℓ} (n : ℕ) (xs : List A) → n ≤ 200 → length (take n xs) ≤ 200
cut_at_200 n xs bound = omega (arith, length-take_bound n xs)

-- A listing of attempts never has more than 200 rows, whatever limit is asked for.
pub list_ingestion_attempts_bound :
    (status : Option IngestionStatus) (limit : ℕ) (d : Db)
    → length (list_ingestion_attempts status limit d) ≤ 200
unfolding list_ingestion_attempts
list_ingestion_attempts_bound status limit d =
    cut_at_200 (clamp_limit limit) _ (clamp_limit_bound limit).1
