-- ===== src/Api/Listed.antt =====
-- What `GET /briefs` answers.
use agentic_analyst.Prelude.{
  ℕ, ◌+◌, ◌≡◌, refl, Bool, true, ◌&&◌, List, Option, none, some, Text, codes, take, leb, ltb,
  select, sort_by, arith, ◌==◌,
}
use agentic_analyst.Prelude.Sorting.{IsOrder, Answers, sort_by-Answers}
use agentic_analyst.Domain.Values.{Uuid, Date, Cadence, cadence_eq}
use agentic_analyst.Domain.Errors.{Result, ok, err, http_exception}
use agentic_analyst.Domain.Briefs.{Brief}
use agentic_analyst.Store.Tables.{Db}
use agentic_analyst.Store.Session.{World, Env, observe, query, session_scope}
use agentic_analyst.Briefs.Queries.{list_prior_briefs}
use agentic_analyst.Api.Briefs.{parse_cadence, list_briefs}

abbrev pub ended_after : Brief → Brief → Bool
ended_after a b = leb b.covered_end a.covered_end

abbrev pub is_about : Option Uuid → Brief → Bool
is_about none b = true
is_about (some t) b = b.topic_id == t

-- A brief of this cadence, of the topic if one is asked for, whose interval has ended.
abbrev pub is_listed : Cadence → Date → Option Uuid → Brief → Bool
is_listed cadence today topic_id b =
    cadence_eq b.cadence cadence && (leb b.covered_end today && is_about topic_id b)

-- The answer over a database.
pub data Listing (today : Date) (text : Text) (topic_id : Option Uuid) (d : Db)
    : Result (List Brief) → Type 0 where
  is_unknown :
      parse_cadence text ≡ none
      → Listing today text topic_id d (err (http_exception 422 (codes "unknown cadence")))
  is_answered :
      (cadence : Cadence) (all : List Brief)
      → parse_cadence text ≡ some cadence
      → Answers ended_after (is_listed cadence today topic_id) d.briefs all
      → Listing today text topic_id d (ok (take 31 all))

ended_order : IsOrder ended_after
ended_order = record { total = λ a b h. ground arith; trans = λ a b c h k. ground arith }

ltb_suc : (m n : ℕ) → ltb m (n + 1) ≡ leb m n
ltb_suc m n = ground arith

same_test :
    (cadence : Cadence) (today : Date) (topic_id : Option Uuid) (b : Brief)
    → (cadence_eq b.cadence cadence
        && (ltb b.covered_end (today + 1)
            && elim topic_id [ none ↦ true | some t ↦ b.topic_id == t ]))
      ≡ is_listed cadence today topic_id b
same_test cadence today none b = rw (ltb_suc b.covered_end today) refl
same_test cadence today (some t) b = rw (ltb_suc b.covered_end today) refl

before_tomorrow :
    (cadence : Cadence) (today : Date) (topic_id : Option Uuid) (d : Db)
    → list_prior_briefs cadence (today + 1) topic_id d
      ≡ take 31 (sort_by ended_after (select (is_listed cadence today topic_id) d.briefs))
unfolding list_prior_briefs
before_tomorrow cadence today topic_id d i =
    take 31
      (sort_by ended_after (select (λ (b : Brief). same_test cadence today topic_id b i) d.briefs))

-- An unknown cadence is answered with 422. Otherwise `GET /briefs` answers with at most 31 briefs:
-- the first of the list of exactly those briefs of the cadence, and of the topic if one is given,
-- that end no later than today, by their last day with the latest first.
pub list_briefs-Listing :
    (e : Env) (today : Date) (text : Text) (topic_id : Option Uuid) (w : World)
    → Listing today text topic_id (observe e w).db (list_briefs e today text topic_id w).0
unfolding list_briefs query session_scope
list_briefs-Listing e today text topic_id w = cases (parse_cadence text) refl
  where
    cases :
        (parsed : Option Cadence)
        → parse_cadence text ≡ parsed
        → Listing today text topic_id (observe e w).db (list_briefs e today text topic_id w).0
    cases none h = rw h (is_unknown h)
    cases (some c) h =
        rw (h, before_tomorrow c today topic_id (observe e w).db)
          (is_answered c _ h (
            sort_by-Answers ended_after (is_listed c today topic_id) (observe e w).db.briefs
              ended_order))
