-- ===== src/Calendar.antt =====
-- Dates as the pipelines compute with them: `datetime.date` by its ordinal, and the windows of
-- src/analyst_engine/pipeline/periodic_brief.py and src/analyst_engine/workflows/runner.py.
pub mod Blocks
pub mod Civil
pub mod Ordinals
pub mod Windows
mod Tests
