-- ===== src/Topics.antt =====
-- The topics with their sources and feeds: the functions on them in
-- src/analyst_engine/persistence/repositories.py, and src/analyst_engine/topics/matcher.py.
pub mod Statements
pub mod Sources
pub mod References
pub mod Kept
pub mod Matcher
pub mod Occurrences
pub mod Relevance
pub mod Listings
pub mod Deletion
mod Tests
