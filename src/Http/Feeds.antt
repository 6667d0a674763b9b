-- ===== src/Http/Feeds.antt =====
-- ingestion/feed_client.py
use agentic_analyst.Prelude.{
  ℕ, true, false, ◌&&◌, ◌||◌, [], ◌∷◌, ◌++◌, Option, none, some, Text, codes, ltb, leb, ◌==◌,
  if◌then◌else◌,
}
use agentic_analyst.Domain.Errors.{
  Error, Result, ok, err, url_validation, too_many_redirects, response_too_large, fetch_timeout,
  fetch_network, retryable_feed, terminal_feed,
}
use agentic_analyst.Domain.Feeds.{FeedFetchResult}
use agentic_analyst.Store.Session.{M, raise, lift, try_except, ◌>>=◌}
use agentic_analyst.Http.Urls.{UrlLibrary}
use agentic_analyst.Http.Fetch.{Dict, dict_get, HttpClient, BoundedFetchResult, bounded_fetch}

abbrev pub conditional : Text → Option Text → Dict
conditional name none = []
conditional name (some value) = (name, value) ∷ []

-- The `except` clauses of `fetch`: which failures may succeed on a retry.
unfoldable pub classify : Error → Error
classify (fetch_timeout message) = retryable_feed message
classify (fetch_network message) = retryable_feed message
classify (response_too_large message) = terminal_feed message
classify (too_many_redirects message) = terminal_feed message
classify (url_validation fault message) = terminal_feed message
classify x = x

module _ (u : UrlLibrary) (client : HttpClient) (size_limit_bytes : ℕ) (user_agent : Text) where
  -- What becomes of a response, by its status.
  unfoldable pub feed_result : Text → BoundedFetchResult → Result FeedFetchResult
  feed_result feed_url result =
      let etag = dict_get (codes "etag") result.headers in
      let modified = dict_get (codes "last-modified") result.headers in
      let status = result.status_code in
      if status == 304
      then ok (record {
        status_code = 304;
        not_modified = true;
        etag = etag;
        last_modified = modified;
        final_url = result.final_url;
        raw_bytes = none;
      })
      else if leb 200 status && ltb status 300
      then ok (record {
        status_code = status;
        not_modified = false;
        etag = etag;
        last_modified = modified;
        final_url = result.final_url;
        raw_bytes = some result.body;
      })
      else if status == 429 || leb 500 status
      then err (
          retryable_feed
            (codes "retryable feed status " ++ (u.show status ++ (codes " for " ++ feed_url))))
      else err (
          terminal_feed
            (codes "terminal feed status " ++ (u.show status ++ (codes " for " ++ feed_url))))

  unfoldable pub fetch : Text → Option Text → Option Text → M FeedFetchResult
  unfolding bounded_fetch classify feed_result
  fetch feed_url etag last_modified =
      let headers =
        conditional (codes "If-None-Match") etag
        ++ conditional (codes "If-Modified-Since") last_modified in
      try_except (bounded_fetch u client size_limit_bytes feed_url user_agent headers)
        (λ x. raise (classify x))
      >>= λ result. lift (feed_result feed_url result)
