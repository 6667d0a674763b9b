-- ===== src/Runs.antt =====
-- Workflow runs in the database: the lifecycle part of
-- src/analyst_engine/persistence/repositories.py.
pub mod Statements
pub mod Rows
pub mod Unique
pub mod Closed
pub mod Outcomes
mod Tests
