-- ===== src/Runner.antt =====
-- The durable orchestration of a cadence workflow: src/analyst_engine/workflows/runner.py.
pub mod Keys
pub mod Execute
pub mod Idempotence
pub mod Reads
pub mod Preserves
pub mod Settled
pub mod Endings
pub mod Ended
pub mod Outcome
mod Tests
