-- ===== src/Lib.antt =====
-- The server of an API monitor (Python, FastAPI, SQLAlchemy). A request comes with a token, a key or
-- a ticket; it is resolved to a caller (app/deps.py) and to the organization it acts on; the handlers
-- of app/routers then change the tables of app/models.py through one database session, and record
-- what they did in the audit log. Captured traffic goes through a queue (app/worker.py) to
-- app/services/traffic_processor.py, which stores it, matches it against the registered endpoints,
-- and raises alerts; jobs of an elected replica roll it up, prune it, and classify endpoints.
--
-- Prelude: Boolean tests, lists and text. Models: the rows of app/models.py. Session: one request's
-- SQLAlchemy session (app/database.py) as a state monad over what is committed and what is only
-- written, with app/services/audit_service.py; `run` drops what was not committed. Session/Query:
-- queries and bulk updates of one table. Session/Keys: autoincremented keys. Session/Deletion and
-- Session/Newest: ORDER BY, LIMIT and DELETE by keys. Session/Chunks: the loop that commits chunk by
-- chunk.
-- Security: app/security.py. Auth: app/routers/auth.py, a module per group of routes, each handler
-- under its own name, split where the code branches. Deps: app/deps.py. Orgs: app/routers/orgs.py
-- (Creation: the new organization; its search for a slug has one query more than there are
-- organizations as fuel, which is enough since the slugs it tries all differ).
-- Startup: the checks and origins of app/config.py. Pathutil: app/services/pathutil.py.
-- Leader: app/services/leader.py, with a step relation for a
-- cluster of replicas. Discovery: the shadow endpoints and the zombie statuses of
-- app/services/discovery_service.py; `days` are exact where the code divides floats. Zombies: the
-- recomputation of zombie states, with app/routers/zombie.py. Registry: the registered and discovered
-- endpoints, app/services/registry_service.py and app/routers/shadow.py. Alerts:
-- app/services/alerts_util.py, app/routers/alerts.py and the idle scan. Traffic: the roll-up and the
-- deletions of app/services/traffic_processor.py and app/jobs/scheduler.py. Processing: one captured
-- request. Connections: app/routers/connections.py. Worker: app/worker.py and
-- app/services/queue_service.py. MlModels: the versions of
-- app/services/ml_anomaly.py and app/routers/ml_models.py. Scenarios: a small database, on which the
-- theorems are applied.
--
-- A time is a natural number of microseconds (milliseconds in Leader), and a request reads the
-- clock once. Random values are arguments. bcrypt, SHA-256, PyJWT and pyotp are the fields of
-- `Crypto`, the Unicode tables those of `Unicode`, HMAC and pickle those of `Serializer`, floats
-- those of `Floats`, urllib's query strings those of `QueryCodec`, and Redis is a record of commands
-- with the laws that its manual states (`IsRedis`), or a list of commands in Worker,
-- where the id of a message is its place in the order of the stream. `one_or_none` on
-- two rows is an exception, as in SQLAlchemy. Sessions do not flush before a query: the code that
-- queries a table to which it has added rows is written out with what the query sees.
-- An audit target is a constructor for each format string of the code. Numbers are printed with
-- one more unit of fuel than their value, which is more than they have digits. The loops over chunks
-- run on fuel, of which more than the number of rows is enough, and the consumer of the queue on five
-- passes for each message; all other recursion is structural.
--
-- Not modelled: the validation of request bodies, rate limits, process logs, metrics, and the routes
-- that only read; two requests are run one after the other, not interleaved. `strip` takes off ASCII
-- white space only, and comparisons in constant time are equality. Training and scoring of models,
-- the parsers of imported descriptions, the catalog of providers, the policy on the targets of
-- probes, the reading of the settings, the ingest routes and the reclaiming of messages after a
-- crash are not modelled.
pub mod Prelude
pub mod Models
pub mod Session
pub mod Security
pub mod Auth
pub mod Deps
pub mod Pathutil
pub mod Orgs
pub mod Leader
pub mod Scenarios
pub mod Discovery
pub mod Traffic
pub mod MlModels
pub mod Worker
pub mod Registry
pub mod Zombies
pub mod Alerts
pub mod Processing
pub mod Connections
pub mod Startup
