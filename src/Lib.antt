-- ===== src/Lib.antt =====
-- A verification library for the analyst engine: articles are ingested from feeds, grouped into
-- batches, summarised, and synthesised into briefs by durable workflow runs.
--
-- The parts, and the files that model them (paths from the repository's root):
--   Domain     src/analyst_engine/domain/models.py: enumerations, records and their validators;
--              Domain/Errors has the exceptions and the results of fallible code.
--   Batching   src/analyst_engine/batching/batcher.py: title tokens, Jaccard similarity and
--              batch_articles. Its `while remaining` loop runs on fuel, the number of articles of
--              the partition; each round removes at least the seed, so that suffices.
--   Store      src/analyst_engine/persistence/engine.py (session_scope) over the tables of
--              persistence/models.py. A session is a state-passing computation over the database.
--   Runs       the workflow-run functions of src/analyst_engine/persistence/repositories.py, as
--              statements on the table of runs; Runs/Closed has the step relation of the table.
--   Topics     the topic, source, feed and attempt functions of persistence/repositories.py that the
--              API and the pipelines call, and src/analyst_engine/topics/matcher.py.
--   Briefs     queries and insertions of briefs, narratives, expectations and embeddings in
--              persistence/repositories.py; Briefs/Sound has the invariant of the briefs.
--   Summaries  the batch and summary functions of persistence/repositories.py, and
--              src/analyst_engine/summarization/: prompts.py and summarizer.py.
--   Calendar   `datetime.date` by its ordinal, and the week and month windows of
--              src/analyst_engine/pipeline/periodic_brief.py.
--   Runner     src/analyst_engine/workflows/runner.py: _ensure_run, _claim_run, _load_context,
--              _execute. It calls Runs and Briefs in sessions of Store, as the code does.
--   Synthesis  src/analyst_engine/workflows/graphs.py: _frontier_synthesis and the node that stores
--              its output, with the savepoint round the embedding. Synthesis/Composed puts the node
--              in the place of the graph that Runner drives.
--   Http       src/analyst_engine/ingestion/canonicalize.py, bounded_http.py and feed_client.py:
--              resolve_validated_address, canonicalize_url, bounded_fetch, FeedClient.fetch. The loop
--              over redirects runs on the number of turns that are left, the range of the source.
--   Ingestion  src/analyst_engine/ingestion/service.py: poll_feed, ingest_urls, ingest_file and all
--              that they call, over Store, with the insertions of persistence/repositories.py and the
--              URL checks of Http. Its extractors, feed client and relevance test are what the service
--              is built with, a record of parameters.
--
--   Pipelines  src/analyst_engine/pipeline/: the daily, weekly and monthly pipelines, which call
--              Ingestion, Batching, Summaries and Runner in turn, and the loops over the topics of
--              src/analyst_engine/scheduling.py.
--   Api        src/analyst_engine/api/app.py: the handlers of topics, sources, attempts and briefs
--              and the search of the archive, over Topics and Briefs, and the errors that they turn
--              into HTTP statuses.
--   Samples    small inputs that the tests share.
--
-- Time and interleaving: `Env` gives what other sessions commit before each statement, the clock
-- and uuid4, each by a count of the meetings. Once a session has written, it holds its row locks
-- and unique keys, so other commits are placed before that write or after the session.
-- A row is the domain record that the mappers of persistence/repositories.py make of it; a UUID,
-- a datetime (microseconds) and a date (ordinal) are numbers, a float is its bit pattern, and a
-- dict of JSON values is its text. The range of dates (years 1 to 9999) is not checked.
--
-- Parameters: the interpreter's library where its tables or algorithms are not in the repository
-- (str.lower, float division, SHA-256, the printed forms of UUIDs, dates and floats, the class
-- names of errors, urllib.parse, ipaddress, getaddrinfo), httpx's exchange of one request,
-- the answers of the models, pgvector's distances, the letters that `re.IGNORECASE` takes for the
-- same, and the other processes. The lengths of text columns are
-- not checked, and the cancellation of a task is not modelled.
--
-- Not modelled: the parsing of feeds, HTML and files, whose results are parameters here; and, as
-- glue around libraries, the other handlers of the HTTP API, the printing of its responses,
-- configuration, process start-up, the scheduler's cron triggers, database migrations, model
-- providers, LangGraph's checkpoints and tests. The gateway's message for a brief prints its input,
-- so the model is there a function of the input.
pub mod Prelude
pub mod Domain
pub mod Batching
pub mod Calendar
pub mod Store
pub mod Runs
pub mod Topics
pub mod Briefs
pub mod Summaries
pub mod Runner
pub mod Synthesis
pub mod Http
pub mod Ingestion
pub mod Pipelines
pub mod Api
pub mod Samples
