-- ===== src/Store.antt =====
-- The database as the code sees it: tables, sessions and what other sessions do meanwhile.
-- src/analyst_engine/persistence/engine.py, with the tables of persistence/models.py. A row is the
-- domain record that the mappers of persistence/repositories.py turn it into.
pub mod Tables
pub mod Session
pub mod Keeps
pub mod Logs
pub mod Upholds
pub mod Returns
pub mod Alone
