-- ===== src/Summaries.antt =====
-- Batches, their summaries and the summariser: the functions of
-- src/analyst_engine/persistence/repositories.py on them, and src/analyst_engine/summarization/.
pub mod Statements
pub mod Texts
pub mod Prompts
pub mod Summarizer
pub mod Evidence
mod Tests
