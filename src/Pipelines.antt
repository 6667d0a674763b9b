-- ===== src/Pipelines.antt =====
-- src/analyst_engine/pipeline/ and the jobs of src/analyst_engine/scheduling.py: from the articles
-- of a topic to the brief of a day, a week or a month.
pub mod Selection
pub mod Periodic
pub mod Evidence
pub mod Results
pub mod Retry
pub mod Daily
pub mod DailyRun
pub mod Counts
pub mod DailyResults
pub mod DailyEvidence
pub mod Schedule
mod Tests
pub mod Found
mod FoundTests
