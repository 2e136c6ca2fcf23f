-- ===== src/Lib.antt =====
-- A model of the back end of the SOC analyst platform (backend/app), with proofs.
--
-- The platform takes log files into a database, runs detectors over the entries, lets analysts
-- collect the resulting anomalies in incidents, and asks a language model about an incident. The
-- endpoints stand behind bearer tokens and rate limits, which keep their state in Redis; the other
-- state is in PostgreSQL.
--
-- A table is a list of its rows, or the rows that the code at hand touches, and each function
-- returns what it changes. Times are numbers. Errors that the code raises are the `raised` side of
-- an `Outcome`; an exception that nothing catches leaves the operation without tables, as its
-- session is not committed. Names are those of the source.
--
--   Prelude          lists, tests, duplicates, sorting and outcomes that the other modules share
--   Enums, Authz     app/models/enums.py, app/core/authz.py
--   Redis            the commands sent to the Redis server, as an interface with what is relied on
--   RateLimit        app/services/rate_limit.py
--   Access           app/services/token_denylist.py (Denylist), app/core/security.py and
--                    app/api/deps.py (Session), app/services/auth.py (Accounts), app/api/limits.py
--                    and app/api/v1/endpoints/auth.py (Login), app/api/v1/endpoints/users.py
--                    (Administration)
--   Incidents        app/services/incidents.py; Data has the rows
--   Detection        app/services/detection: types.py, registry.py, engine.py, signals.py and
--                    detectors/brute_force.py (BruteForce)
--   Assessment       build_assessment and reconcile_severity of app/services/ai/analyzer.py
--   Pystr, Chunking  text as code points, and app/services/rag/chunking.py
--   Prompts          app/services/ai/prompts.py: Markers and Dumps on single texts and values, Case,
--                    Calm and Fences on the whole message
--   Ingestion        app/services/ingestion/pipeline.py and types.py, the JSON part of parsers.py,
--                    and normalizer.py (Normalizer)
--   Knowledge        app/services/rag/ingestion.py; Retrieval has retrieval.py, and Endpoints the
--                    requests of app/api/v1/endpoints/knowledge.py that change the corpus
--   Attachments      app/services/attachments.py; Filenames has sanitise_filename of
--                    app/api/v1/endpoints/log_sources.py, and Endpoints the attachment requests of
--                    app/api/v1/endpoints/incidents.py
--   Examples         the theorems at concrete inputs, with a Redis server in memory
--
-- Two loops run on fuel. The loop of chunk_text gets one round more than the text has characters,
-- and each round moves on by one at least; the slicing into batches gets a round for each row, and
-- each batch has one at least. All other functions recurse on lists.
--
-- JSON Web Tokens, Argon2, UUIDs, SHA-256, embeddings, the reading of JSON, UTF-8, dates and
-- addresses, the Unicode tables and the other file formats enter as arguments, and floating-point
-- arithmetic is an interface (Detection.Floats, Knowledge.Retrieval). Logging, the texts of audit
-- descriptions and the rendering of responses are left out, and so are the statistical detectors and
-- the one of suspicious addresses, the gathering of a case and the call of the language model, the
-- providers of embeddings, the remaining endpoints, configuration and the front end. Concurrent
-- transactions are not modelled: each operation sees the tables that the one before left.
mod Prelude
pub mod Enums
pub mod Authz
pub mod Redis
pub mod RateLimit
pub mod Access
pub mod Incidents
pub mod Detection
pub mod Assessment
pub mod Pystr
pub mod Chunking
pub mod Prompts
pub mod Knowledge
pub mod Attachments
pub mod Ingestion
mod Examples
