-- ===== src/Api/Tests.antt =====
-- Requests to a small database, and the theorems on them there.
use agentic_analyst.Prelude.{
  map, ◌≡◌, refl, List, [], ◌∷◌, Option, none, some, Text, codes, true, false,
}
use agentic_analyst.Domain.Errors.{ok, err, http_exception}
use agentic_analyst.Store.Session.{observe}
use agentic_analyst.Store.Alone.{alone}
use agentic_analyst.Api.Topics.{delete_topic_route, require_key}
use agentic_analyst.Api.Briefs.{list_briefs, parse_cadence, check_search}
use agentic_analyst.Api.Answers.{Deleted, delete_topic_route-Deleted}
use agentic_analyst.Api.Listed.{Listing, list_briefs-Listing}
use agentic_analyst.Api.Sources.{save_feed, checked_feed}
use agentic_analyst.Domain.Feeds.{SourceFeed}
use agentic_analyst.Store.Tables.{Db}
use agentic_analyst.Samples.{idle, world_of, archive, feed}

delete_topic_route-Deleted_example :
    Deleted 7 archive
      (delete_topic_route (alone idle) 7 (world_of archive)).0
      (delete_topic_route (alone idle) 7 (world_of archive)).1.db
delete_topic_route-Deleted_example = delete_topic_route-Deleted idle 7 (world_of archive) refl

list_briefs-Listing_example :
    Listing 9
      (codes "daily")
      (some 7)
      (observe idle (world_of archive)).db
      (list_briefs idle 9 (codes "daily") (some 7) (world_of archive)).0
list_briefs-Listing_example = list_briefs-Listing idle 9 (codes "daily") (some 7) (world_of archive)

cadence_test : parse_cadence (codes "yearly") ≡ none
unfolding parse_cadence agentic_analyst.Prelude.text_eq
cadence_test = refl

-- A blank key counts as a missing one.
key_tests :
    (require_key false (some (codes "  ")) ≡ err (http_exception 401 (codes "API key required")))
    × (require_key true (some (codes "  ")) ≡ ok (codes "local"))
    × (require_key false (some (codes "k")) ≡ ok (codes "k"))
unfolding require_key agentic_analyst.Domain.Values.is_blank
key_tests = (refl, refl, refl)

search_test :
    check_search (codes "war") 51 none
    ≡ err (http_exception 422 (codes "limit must be between 1 and 50"))
unfolding check_search agentic_analyst.Domain.Values.strip
search_test = refl

-- A feed that was polled at 3, in the table of the archive.
abbrev polled : Db
polled = record archive { feeds = record feed { last_polled_at = some 3 } ∷ [] }

-- A second registration of the feed forgets that it was polled.
again_test :
    map
      (λ (f : SourceFeed). f.last_polled_at)
      (save_feed idle 30 5
        (
          record { feed_url = []; enabled = true; poll_interval_minutes = none },
          codes "u",
          codes "f",
        )
        (world_of polled)).1.db.feeds
    ≡ none ∷ []
unfolding save_feed checked_feed agentic_analyst.Ingestion.Statements.upsert_source_feed
    agentic_analyst.Store.Session.uuid4 agentic_analyst.Store.Session.now
    agentic_analyst.Domain.Values.is_blank agentic_analyst.Store.Tables.scalar_one_or_none
    agentic_analyst.Prelude.text_eq agentic_analyst.Ingestion.Statements.update_feed
again_test = refl
