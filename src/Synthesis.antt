-- ===== src/Synthesis.antt =====
-- src/analyst_engine/workflows/graphs.py: the frontier synthesis and the node that stores it.
pub mod Frontier
pub mod Cited
pub mod Node
pub mod Upholds
pub mod Outputs
pub mod Insertions
pub mod Composed
mod Tests
