-- ===== src/Batching/Tests.antt =====
-- The batcher on small inputs, and its theorems there.
use agentic_analyst.Prelude.{
  ℕ, ◌+◌, ◌*◌, ◌/◌, ◌≡◌, refl, ◌&&◌, List, [], ◌∷◌, map, none, some, Text, codes, text_eq, text_le,
  leb, arith, if◌then◌else◌, All, sort_by, ◌==◌,
}
use agentic_analyst.Prelude.Counting.{count_if}
use agentic_analyst.Domain.Values.{Uuid, is_blank}
use agentic_analyst.Domain.Errors.{ok}
use agentic_analyst.Domain.Articles.{Article, ordered_unique, batch_allowed}
use agentic_analyst.Batching.Tokens.{Platform, DigestsArePrinted, title_tokens, jaccard}
use agentic_analyst.Batching.Grouping.{
  Request, BatcherResult, sort_key_le, add_to_language, by_language, place, scan, batch_of,
  close_group, form_groups, each_language, batch_articles,
}
use agentic_analyst.Batching.Kept.{ids, accounted}
use agentic_analyst.Batching.Conserves.{batch_articles_conserves}
use agentic_analyst.Batching.Totality.{AreDistinct, batch_articles_total}
use agentic_analyst.Batching.Cohesion.{IsCohesive, batch_articles-IsCohesive}

-- Floats as thousandths, and case by the ASCII letters.
abbrev pub platform : Platform
platform = record {
  lower = map (λ c. if leb b'A' c && leb c b'Z' then c + 32 else c);
  divide = λ a b. a * 1000 / b;
  at_least = λ x y. leb y x;
  zero_float = 0;
  sha256_hex = λ text. codes "9f86d081";
  show_uuid = λ id. id ∷ [];
  show_threshold = λ x. x ∷ [];
}

abbrev request : Request
request = record {
  title_similarity_threshold = 400;
  grouping_algorithm_version = codes "v1";
  uuid = λ n. 900 + n;
  now = λ n. 7;
}

abbrev article : Uuid → ℕ → Text → Article
article id time title = record {
  id = id;
  topic_id = 1;
  source_id = none;
  url = [];
  url_fingerprint = codes "f";
  title = title;
  author = none;
  published_at = time;
  ingested_at = 0;
  language = some (codes "en");
  raw_content_hash = none;
  cleaned_content = none;
}

abbrev news : List Article
news =
    article 4 40 (codes "Rates rise at central bank")
    ∷ article 1 10 (codes "Central bank rates")
    ∷ article 2 20 (codes "A storm in the north")
    ∷ article 3 30 (codes "central BANK rates!")
    ∷ []

tokens_of_title :
    title_tokens platform (codes "A-B central BANK") ≡ codes "central" ∷ codes "bank" ∷ []
unfolding title_tokens text_eq
tokens_of_title = refl

abbrev outcome : BatcherResult
outcome = record {
  batches =
      record {
        id = 901;
        article_ids = 1 ∷ 3 ∷ 4 ∷ [];
        batch_key = codes "9f86d081";
        grouping_method = agentic_analyst.Domain.Values.title_token_jaccard;
        embedding_model = codes "none";
        similarity_threshold = some 400;
        grouping_run_id = some 900;
        created_at = 7;
      }
      ∷ [];
  carried_forward_ids = 2 ∷ [];
}

batch_articles-news : batch_articles platform request news ≡ ok outcome
unfolding batch_articles each_language by_language add_to_language sort_by sort_key_le form_groups
    scan place batch_of close_group jaccard title_tokens batch_allowed ordered_unique is_blank
    text_eq text_le
batch_articles-news = refl

digests : DigestsArePrinted platform
unfolding is_blank
digests text = refl

news-AreDistinct : AreDistinct (ids news)
news-AreDistinct id = ground arith

batch_articles_conserves_example :
    count_if (λ x. 3 == x) (accounted outcome) ≡ count_if (λ x. 3 == x) (ids news)
batch_articles_conserves_example =
    batch_articles_conserves platform request news outcome 3 batch_articles-news

batch_articles_total_example :
    (result : BatcherResult) × (batch_articles platform request news ≡ ok result)
batch_articles_total_example = batch_articles_total platform request news digests news-AreDistinct

batch_articles-IsCohesive_example : All (IsCohesive platform request news) outcome.batches
batch_articles-IsCohesive_example =
    batch_articles-IsCohesive platform request news outcome batch_articles-news
