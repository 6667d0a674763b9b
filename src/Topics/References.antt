-- ===== src/Topics/References.antt =====
-- Sources, articles, briefs and attempts belong to topics that are there, also when a topic goes.
use agentic_analyst.Prelude.{
  ◌≡◌, refl, Bool, true, false, not, ◌&&◌, ◌||◌, List, [], ◌∷◌, ◌++◌, Option, none, some, All,
  All-map, All-append, any, select, arith, ◌==◌, Bool-cases, inl, inr, ==_iff,
}
use agentic_analyst.Domain.Values.{Uuid, Datetime}
use agentic_analyst.Domain.Errors.{Result, ok, err, Ensures}
use agentic_analyst.Domain.Articles.{Topic, Source, Article}
use agentic_analyst.Domain.Briefs.{Brief}
use agentic_analyst.Domain.Feeds.{IngestionAttempt}
use agentic_analyst.Store.Tables.{Db, scalar_one_or_none}
use agentic_analyst.Ingestion.Statements.{
  has_topic, has_source, has_feed, article_clash, insert_article, insert_attempt,
}
use agentic_analyst.Topics.Statements.{
  insert_topic, assign_topic, topic_rows, with_row, updated_row, write_topic, refers_to,
  remove_topic,
}
use agentic_analyst.Topics.Sources.{insert_source, same_source}

abbrev pub is_known : List Topic → Uuid → Bool
is_known topics id = any (λ (t : Topic). t.id == id) topics

-- Every row that names a topic names one that is there.
abbrev pub HasTopics : Db → Type 0
HasTopics d =
    All (λ (s : Source). is_known d.topics s.topic_id ≡ true) d.sources
    × All (λ (a : Article). is_known d.topics a.topic_id ≡ true) d.articles
    × All (λ (b : Brief). is_known d.topics b.topic_id ≡ true) d.briefs
    × All (λ (a : IngestionAttempt). is_known d.topics a.topic_id ≡ true) d.attempts

is_known-select :
    (id other : Uuid) (topics : List Topic)
    → (other == id) ≡ false
    → is_known topics other ≡ true
    → is_known (select (λ (t : Topic). not (t.id == id)) topics) other ≡ true
is_known-select id other [] differ h = h
is_known-select id other (t ∷ topics) differ h = elim (Bool-cases (t.id == id)) [
  | inl gone ↦ rw gone (is_known-select id other topics differ (ground arith))
  | inr kept ↦ rw kept (elim (Bool-cases (t.id == other)) [
    | inl hit ↦ rw hit refl
    | inr miss ↦ rw miss (is_known-select id other topics differ (rw miss at h))
  ])
]

module _ {A : Type 0} (topic_of : A → Uuid) where
  -- Rows that do not name the topic do without it.
  All-unreferenced :
      (id : Uuid) (topics : List Topic) (xs : List A)
      → any (λ x. topic_of x == id) xs ≡ false
      → All (λ x. is_known topics (topic_of x) ≡ true) xs
      → All (λ x. is_known (select (λ (t : Topic). not (t.id == id)) topics) (topic_of x) ≡ true) xs
  All-unreferenced id topics [] free h = tt
  All-unreferenced id topics (x ∷ xs) free h = elim (Bool-cases (topic_of x == id)) [
    | inl hit ↦ let no = rw hit at free in cc
    | inr miss ↦ (
      is_known-select id (topic_of x) topics miss h.0,
      All-unreferenced id topics xs (rw miss at free) h.1,
    )
  ]

is_known-append :
    (topics : List Topic) (t : Topic) (id : Uuid)
    → is_known topics id ≡ true
    → is_known (topics ++ t ∷ []) id ≡ true
is_known-append [] t id h = cc
is_known-append (x ∷ topics) t id h = elim (Bool-cases (x.id == id)) [
  | inl hit ↦ rw hit refl
  | inr miss ↦ rw miss (is_known-append topics t id (rw miss at h))
]

is_known-assign :
    (topic : Topic) (t : Datetime) (topics : List Topic) (id : Uuid)
    → is_known (assign_topic topic t topics) id ≡ is_known topics id
is_known-assign topic t [] id = refl
is_known-assign topic t (x ∷ topics) id = elim (Bool-cases (x.id == topic.id)) [
  | inl hit ↦ rw (hit, is_known-assign topic t topics id) refl
  | inr miss ↦ rw (miss, is_known-assign topic t topics id) refl
]

-- The topics may change as long as those that are there stay.
HasTopics-topics :
    (d : Db) (topics : List Topic)
    → ((id : Uuid) → is_known d.topics id ≡ true → is_known topics id ≡ true)
    → HasTopics d
    → HasTopics (record d { topics = topics })
HasTopics-topics d topics k h = (
  All-map (λ (s : Source). k s.topic_id) d.sources h.0,
  All-map (λ (a : Article). k a.topic_id) d.articles h.1,
  All-map (λ (b : Brief). k b.topic_id) d.briefs h.2,
  All-map (λ (a : IngestionAttempt). k a.topic_id) d.attempts h.3,
)

pub insert_topic-HasTopics :
    (topic : Topic) (d : Db) → HasTopics d → Ensures (λ r. HasTopics r.1) (insert_topic topic d)
unfolding insert_topic
insert_topic-HasTopics topic d h =
    elim (Bool-cases (any (λ (t : Topic). t.id == topic.id) d.topics)) [
      | inl clash ↦ rw clash tt
      | inr free ↦ rw free (
          HasTopics-topics d (d.topics ++ topic ∷ [])
            (λ id known. is_known-append d.topics topic id known) h)
    ]

pub write_topic-HasTopics :
    (topic : Topic) (t : Datetime) (d : Db)
    → HasTopics d
    → Ensures (λ r. HasTopics r.1) (write_topic topic t d)
unfolding write_topic
write_topic-HasTopics topic t d h = updated (scalar_one_or_none (topic_rows topic.id d))
  where
    updated :
        (r : Result (Option Topic))
        → Ensures (λ r. HasTopics r.1) (with_row (updated_row topic t d) r)
    updated (err x) = tt
    updated (ok none) = tt
    updated (ok (some row)) =
        HasTopics-topics d (assign_topic topic t d.topics)
          (λ id known. rw (is_known-assign topic t d.topics id) known) h

differs-missing :
    (topics : List Topic) (id other : Uuid)
    → is_known topics id ≡ false
    → is_known topics other ≡ true
    → (other == id) ≡ false
differs-missing topics id other missing known = elim (Bool-cases (other == id)) [
  | inl same ↦ let same' = (==_iff other id).0 same in let known' = rw same' at known in cc
  | inr differ ↦ differ
]

-- The reference forbids what the test of `delete_topic` has not seen.
pub remove_topic-HasTopics :
    (id : Uuid) (d : Db) → HasTopics d → Ensures (λ r. HasTopics r.1) (remove_topic id d)
unfolding remove_topic
remove_topic-HasTopics id d h = elim (Bool-cases (refers_to id d)) [
  | inl used ↦ elim (Bool-cases (is_known d.topics id)) [
    | inl there ↦ rw (used, there) tt
    | inr missing ↦
        rw (used, missing)
          (HasTopics-topics d (select (λ (t : Topic). not (t.id == id)) d.topics)
            (λ other known.
              is_known-select id other d.topics (differs-missing d.topics id other missing known)
                known)
            h)
  ]
  | inr free ↦ rw free (
    All-unreferenced (λ (s : Source). s.topic_id) id d.topics d.sources (ground arith) h.0,
    All-unreferenced (λ (a : Article). a.topic_id) id d.topics d.articles (ground arith) h.1,
    All-unreferenced (λ (b : Brief). b.topic_id) id d.topics d.briefs (ground arith) h.2,
    All-unreferenced (λ (a : IngestionAttempt). a.topic_id) id d.topics d.attempts (ground arith)
        h.3,
  )
]

pub insert_source-HasTopics :
    (source : Source) (d : Db) → HasTopics d → Ensures (λ r. HasTopics r.1) (insert_source source d)
unfolding insert_source
insert_source-HasTopics source d h =
    elim (Bool-cases (
      any (λ (x : Source). x.id == source.id || same_source source.topic_id source.stable_id x)
        d.sources
      || not (has_topic source.topic_id d))) [
        | inl refused ↦ rw refused tt
        | inr fine ↦ rw fine (
          All-append (λ (s : Source). is_known d.topics s.topic_id ≡ true) (source ∷ []) d.sources
              h.0 (ground arith, tt),
          h.1,
          h.2,
          h.3,
        )
      ]

pub insert_article-HasTopics :
    (article : Article) (d : Db)
    → HasTopics d
    → Ensures (λ r. HasTopics r.1) (insert_article article d)
unfolding insert_article
insert_article-HasTopics article d h =
    elim (Bool-cases (
      any (article_clash article) d.articles
      || not (has_topic article.topic_id d && has_source article.source_id d))) [
        | inl refused ↦ rw refused tt
        | inr fine ↦ rw fine (
          h.0,
          All-append (λ (a : Article). is_known d.topics a.topic_id ≡ true) (article ∷ [])
              d.articles h.1 (ground arith, tt),
          h.2,
          h.3,
        )
      ]

pub insert_attempt-HasTopics :
    (attempt : IngestionAttempt) (d : Db)
    → HasTopics d
    → Ensures (λ r. HasTopics r.1) (insert_attempt attempt d)
unfolding insert_attempt
insert_attempt-HasTopics attempt d h =
    elim (Bool-cases (
      any (λ (x : IngestionAttempt). x.id == attempt.id) d.attempts
      || not (
          has_topic attempt.topic_id d
          && (has_source attempt.source_id d && has_feed attempt.source_feed_id d)))) [
            | inl refused ↦ rw refused tt
            | inr fine ↦ rw fine (
              h.0,
              h.1,
              h.2,
              All-append (λ (a : IngestionAttempt). is_known d.topics a.topic_id ≡ true)
                  (attempt ∷ []) d.attempts h.3 (ground arith, tt),
            )
          ]
