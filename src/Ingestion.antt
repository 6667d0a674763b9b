-- ===== src/Ingestion.antt =====
-- src/analyst_engine/ingestion/service.py and the statements on articles, attempts and feeds.
pub mod Statements
pub mod Records
pub mod Finalize
pub mod Candidate
pub mod Direct
pub mod Polling
pub mod Contract
pub mod Outcomes
pub mod Flow
pub mod Results
pub mod Distinct
pub mod Tests
