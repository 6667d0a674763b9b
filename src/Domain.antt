-- ===== src/Domain.antt =====
-- The data contracts of src/analyst_engine/domain/models.py, field by field.
-- A UUID is a number that is only compared. A datetime is the number of microseconds since the
-- start of the day whose ordinal is 1 (0001-01-01 UTC), a date is its ordinal, a float is the
-- number that its IEEE bits spell, and a str is its list of code points.
pub mod Values
pub mod Errors
pub mod Articles
pub mod Briefs
pub mod Feeds
