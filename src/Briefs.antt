-- ===== src/Briefs.antt =====
-- Briefs, narratives and batch summaries in the database: queries and insertions of
-- src/analyst_engine/persistence/repositories.py.
pub mod Queries
pub mod Statements
pub mod Sound
