-- ===== src/Ingestion/Tests.antt =====
-- Examples of ingestion: two pasted URLs of one page, whose second is a duplicate.
use agentic_analyst.Prelude.{
  ℕ, ◌≡◌, refl, List, [], ◌∷◌, Option, none, some, Text, codes, All, true, map,
}
use agentic_analyst.Domain.Values.{IngestionStatus, primary_http, duplicate, succeeded}
use agentic_analyst.Domain.Errors.{Result, ok, err, other_error, extraction_failed}
use agentic_analyst.Domain.Articles.{Topic}
use agentic_analyst.Domain.Feeds.{ExtractedArticle, IngestionResult}
use agentic_analyst.Store.Tables.{Db, empty_db}
use agentic_analyst.Store.Session.{World, Env, raise}
use agentic_analyst.Http.Tests.{library, start_world}
use agentic_analyst.Ingestion.Records.{Ports}
use agentic_analyst.Ingestion.Direct.{ingest_urls}
use agentic_analyst.Ingestion.Results.{
  AreOutcomes, IsGuarded, ingest_urls_total, ingest_urls-IsGuarded,
}
use agentic_analyst.Ingestion.Distinct.{HasDistinctArticles, ingest_urls-HasDistinctArticles}

abbrev page : ExtractedArticle
page = record {
  url = codes "u";
  title = some (codes "Title");
  text = codes "A text";
  language = some (codes "en");
  extractor = primary_http;
  raw_content_hash = codes "h";
  published_at = some 5;
  author = none;
}

abbrev pub ports : Ports
ports = record {
  article_min_content_length = 3;
  article_max_response_size_bytes = 100;
  primary_extract = λ url n. ok page;
  fallback_extract = λ url n. err (extraction_failed []);
  file_extractor = λ type. none;
  fetch = λ url etag modified. raise (other_error []);
  parse_feed = λ raw url source feed. ok [];
  is_relevant = λ keywords fields. true;
  suffix = λ name. [];
  sha256 = λ s. s;
  show = λ n. codes "n";
  describe = λ x. codes "error";
  class_name = λ x. codes "Error";
}

abbrev env : Env
env = record { others = λ n d. d; clock = λ n. n; uuid = λ n. n }

abbrev topic : Topic
topic = record {
  id = 7;
  name = codes "T";
  description = codes "d";
  interest_detail = none;
  keywords = codes "k" ∷ [];
  created_at = 0;
  updated_at = 0;
}

abbrev topic_world : World
topic_world = record start_world { db = record empty_db { topics = topic ∷ [] } }

abbrev urls : List Text
urls = codes "https://news.org/a" ∷ codes "https://news.org/a" ∷ []

ingest_urls_total_example :
    (rs : List IngestionResult) × ((ingest_urls env ports library 7 urls topic_world).0 ≡ ok rs)
    × AreOutcomes urls rs
ingest_urls_total_example = ingest_urls_total env ports library 7 urls topic_world

ingest_urls-IsGuarded_example :
    All (IsGuarded env ports library) (ingest_urls env ports library 7 urls topic_world).1.log
ingest_urls-IsGuarded_example = ingest_urls-IsGuarded env ports library 7 urls topic_world tt

ingest_urls-HasDistinctArticles_example :
    HasDistinctArticles (ingest_urls env ports library 7 urls topic_world).1.db
ingest_urls-HasDistinctArticles_example =
    ingest_urls-HasDistinctArticles env ports library 7 urls topic_world (λ n d h. h) refl tt

abbrev statuses : Result (List IngestionResult) → List IngestionStatus
statuses (ok rs) = map (λ r. r.status) rs
statuses (err x) = []

-- The first URL is stored, and the second is its duplicate.
duplicate_test :
    statuses (ingest_urls env ports library 7 urls topic_world).0 ≡ succeeded ∷ duplicate ∷ []
unfolding ingest_urls agentic_analyst.Prelude.text_eq
    agentic_analyst.Ingestion.Statements.find_article
    agentic_analyst.Store.Tables.scalar_one_or_none
    agentic_analyst.Ingestion.Statements.insert_article
    agentic_analyst.Ingestion.Statements.insert_attempt
duplicate_test = refl
