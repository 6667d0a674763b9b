-- ===== src/Batching.antt =====
-- Deterministic grouping of articles: src/analyst_engine/batching/batcher.py.
-- What the interpreter's library computes (case tables, division of floats, SHA-256, the text of
-- a UUID and of a float) is the record `Platform`.
pub mod Tokens
pub mod Grouping
mod Kept
pub mod Conserves
pub mod Totality
pub mod Cohesion
pub mod Tests
