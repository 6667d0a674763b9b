-- ===== src/Http.antt =====
-- The URL checks and the HTTP client of ingestion: canonicalize.py, bounded_http.py, feed_client.py.
pub mod Urls
pub mod Fetch
pub mod Feeds
pub mod Addresses
pub mod Quiet
pub mod Requests
pub mod Bodies
pub mod Tests
