-- ===== src/Lib.antt =====
-- Nervora, a secure gateway for tool calls of AI agents: a model of its core and what is proved of it.
--
-- The program. An agent calls a tool through the gateway. `Executor.invoke` checks the role, validates
-- the arguments, and routes the call by the tool's classification: a destructive tool passes a gate of
-- token and human approval, a tool that needs a dry run leaves a pending approval, an asynchronous
-- tool is queued under an idempotency key, and any other runs at once. The output is redacted, and
-- the call is recorded in the audit tables, in the same transaction. The worker receives the queued
-- jobs, runs their tools, and completes, retries or dead-letters their messages. Gateway and worker
-- share the database and the queue and nothing else.
--
-- The files.
--   Base              shared helpers: tests on numbers, lists, texts, and rows of a table under a key
--   Json              JSON values and dicts, and a dict in the order of its keys (Sorting)
--   Rbac              packages/rbac/roles.py and policy.py: `evaluate`
--   Pii               packages/pii/redactor.py: `redact`, with its inner `_walk` as `walk`; Regex has the
--                     backtracking matcher, `search` and `sub`, and Patterns the five expressions
--   Servicebus        packages/servicebus/interface.py (Interface) as a record of operations that may
--                     raise, `MessageQueue`, and of operations that return, `ReturningQueue`, which the
--                     gateway and the worker take as a parameter, and local.py (Row, Local), whose
--                     `local_queue` fills the latter; Local/Calls has the histories of a queue, Local/RowLocks
--                     two calls of `receive` that overlap; Azure is
--                     azure_bus.py over its client library (`Sdk`), and Factory is factory.py
--   Audit             packages/audit/models.py (Models), repository.py (Repository), and
--                     `session_scope` of db.py with the uniqueness constraints (Session), and the
--                     cached engines and session factories of db.py (Engine)
--   Common            packages/common/settings.py and ids.py, whose `sha256_hex` is in Hashing, with what
--                     json.dumps writes for it
--   Auth              packages/auth/identity.py (Identity), tokens.py with `get_principal` of
--                     apps/mcp-gateway/app/deps.py (Tokens), and `DevTokenSigner` with the personas of
--                     apps/demo-agent/agent.py (Minting)
--   ToolRegistry      packages/tool_registry/spec.py and registry.py
--   Numbers           sums and texts of ints, and doubles, as the tools compute with them
--   Telemetry         packages/telemetry/otel.py, with `tracer` and `span` in Spans, and the record of
--                     apps/mcp-gateway/app/logging_mw.py, whose middleware is in AccessLog
--   Databricks        packages/databricks_connector: mock.py (Mock), real.py and factory.py (Factory)
--   ReferenceTools    packages/tool_registry/tools.py: its tables (Fixtures), its input models, its nine
--                     handlers (Lookups, Reports, Crm, Billing), and `build_registry` (Assembly)
--   World             the database and the queue, as the gateway and the worker share them
--   Gateway           apps/mcp-gateway/app/executor.py: `_handle_sync` and `_handle_dry_run` in
--                     Execution, `_handle_async` in Queueing, `_handle_destructive` in Destructive,
--                     `invoke` and `finish` in Executor; the other children hold what is proved
--   Api               apps/mcp-gateway/app/main.py with schemas.py: the routes over tools (Tools) and over
--                     rows of the database (Records), the start-up in `lifespan` (Startup), and the call
--                     of a tool behind its authentication (Served)
--   Worker            apps/worker/worker.py: `_process`, `_handle_failure` and `poll_once`; Loop has
--                     `run_forever`, whose sleep is an argument, and `rounds` is its polls alone;
--                     Raising has `_process` and `poll_once` over a queue that may raise; Startup has `Worker.__init__`,
--                     and Main has `main`; Fleet has several workers on one queue, as a step relation
--   EndToEnd          an asynchronous call on its way through gateway, local queue and worker
--   DemoAgent         apps/demo-agent/agent.py: its requests and what it prints of the answers, and
--                     `run_demo` (Script)
--
-- The state. `Db` has the tables as lists, newest row first, which is the order of their
-- autoincremented ids; a row under a primary key is found as `session.get` finds it. A handler is a
-- function from the pending rows of the session to its result and new rows; `session_scope` commits
-- them if the unique columns stay unique, and otherwise rolls back. The queue commits by itself, so a
-- rollback keeps what was published. A method that raises returns a value that says so.
--
-- JSON from outside, a message body, the claims of a token, is read for texts, lists and dicts where
-- the code expects them; another value in such a place counts as missing.
--
-- Bounds. Only the demo agent's polling of a job runs on a count, the twenty rounds of its loop.
-- Every other loop goes over a list, a dict, the rows of a table or the characters of a text,
-- `run_forever` over what its tests find, and the digits of a number by its accessibility. A double
-- is scaled at most 1074 and 971 times, the bounds of its exponent. Counts are Python ints, so the
-- natural numbers do not wrap. Times are in seconds, latencies in hundredths of a millisecond, and
-- `Db.now` is what the clock says during the transaction.
--
-- Parameters. PyJWT is the record `Jwt`: what it decodes and raises. pydantic is `model_validate`,
-- from an input model and a dict to its values or an error. What `uuid`, the clock and the tracer
-- give a call is its `Ambient`. An executor takes its `hash`, for which there is `sha256_hex` over
-- the hex digest and the repr of a float, of which Common/Hashing/Numbers states what is relied on
-- (`PrintsFloats`); the mock connector takes the digest and Python's repr of a value. httpx is the
-- record `Client` of the demo agent, which is also given Python's str and the indented JSON. The
-- Unicode tables behind `\d`, `\w` and `\s` are the record `Unicode`. A redactor and an executor
-- take any patterns by `search` and `sub`, and `patterns` fills them with the five expressions.
-- The client library azure-servicebus is the record `Sdk`, and a tracer of OpenTelemetry the
-- record `Tracer`. A tool's code returns or raises, and does not reach the gateway's own state,
-- which it is not handed.
--
-- Left out. Timestamps that no code reads; the widths of text columns; the spans around the steps of
-- gateway and worker; the command line of the demo agent; OpenTelemetry's instrumentation and the
-- creation of tables. Transactions are serial, but for two
-- calls of `receive` with row locks in Servicebus/Local/RowLocks; and but for these and Worker/Fleet,
-- where the transactions of several workers interleave, each theorem is about calls one after the
-- other. Two calls of `receive` that overlap on SQLite, which has no row locks, are left out.
pub mod Base
pub mod Json
pub mod Rbac
pub mod Pii
pub mod Servicebus
pub mod Audit
pub mod Common
pub mod Auth
pub mod Numbers
pub mod ToolRegistry
pub mod Telemetry
pub mod Databricks
pub mod ReferenceTools
pub mod World
pub mod Gateway
pub mod Worker
pub mod EndToEnd
pub mod DemoAgent
pub mod Api
