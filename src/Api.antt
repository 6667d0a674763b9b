-- ===== src/Api.antt =====
-- The handlers of src/analyst_engine/api/app.py: what they check, what they call, and which errors
-- they turn into HTTP statuses. FastAPI parses the requests and prints the responses.
pub mod Topics
pub mod Briefs
pub mod Sources
pub mod Answers
pub mod Listed
mod Tests
