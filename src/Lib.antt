-- ===== src/Lib.antt =====
-- The backend of the integration platform (backend/app): which graphs may run, who may do what, and
-- the life of a run from its creation to its end. Paths are under backend/app.
--
-- A request carries a context (core/context.py): the caller, its workspace and what it may do, which
-- core/permissions.py resolves from the preset of a role and the overrides of a member. `create` of
-- services/executions.py asks it for leave, counts the runs in flight behind an advisory lock, freezes
-- the graph that is to run, validates it by services/graph.py and inserts a queued row. The worker
-- (worker.py) claims the row, hands it to the engine by `dispatch`, polls the engine and writes what
-- it reports by `ingest`, or interrupts a run that the engine no longer confirms. A user may cancel or
-- retry a run meanwhile.
--
-- Permissions, Permissions.Overrides: core/permissions.py. A role, a module, an action, the organisation
--   roles; the matrix; `effective` and `parse_overrides`. A set of actions is a Boolean function.
-- Context: core/context.py.
-- Json: the values of request bodies and JSONB columns, with Python's truth, `str` and equality. A
--   number is an integer; fractions are left out.
-- Graph: services/graph.py. Schema is a registry entry with its fields and ports, Text the patterns on
--   ids and names, Expression `_check_expression` and `_walk_config_values`, Nodes and Connections the
--   loops of `validate_graph`, Validate the whole, Cycle `_has_cycle`, Credentials the two readers at
--   the end of the file. The dicts of the code are association lists in insertion order.
-- Executions: models/enums.py, models/execution.py, services/executions.py, engine/dto.py, worker.py. The
--   store holds the tables that the service reads and writes. Create is `create`, Engine is
--   `claim_queued`, `dispatch` and `_on_terminal`, Ingest is `poll`, `ingest`, `mark_interrupted` and
--   `_interrupt_if_stale`, Control is `get`, `cancel` and `retry`, Reconcile is the
--   query of the reconciler of worker.py and its turn on one run. A raise is the error of a result, and discards what the
--   request wrote. Moves is the life of a row as a step relation, and Slots is about the
--   counts of the runs in flight.
-- Errors: core/errors.py. The exceptions by their codes, and results chained by do blocks.
-- Access: models/identity.py, services/access.py, core/security.py, api/deps.py, the login route of
--   api/v1/auth.py and `get_session` of core/db.py. Password is `password_problems`, Login is `authenticate`,
--   `change_password` and `current_user`, Reach is `reachable` and `request_context` (Known, Sound), Members the seats and
--   the settings of a workspace.
-- Schedules: services/schedules.py; Parse is Python's `int` and `split`.
-- Workflows: services/workflows.py. The derived health and the offered actions read the store of
--   Executions. Flow is the life cycle over tables of its own, with all the columns that it decides by:
--   Sync is `_sync_trigger_from_graph`, Edit is `create`, `rename`, `get_draft`, `save_draft`, `duplicate`
--   and `delete`, Publish is `validate`, `publish`, `get_version`, `activate` and `deactivate`; Requests
--   and Served make a request of any of them. Flow's `Draft` and `FlowVersion` are the rows that the
--   `Workflow` and `Version` of Executions show a part of.
-- Triggers: services/triggers.py. The scheduler's `fire_schedule` here, the gateway in Webhook. A firing calls
--   Executions' `create` and Schedules' `next_run_at`, on a binding of Workflows.Flow.
-- RateLimit: core/rate_limit.py. Alerts: services/alerts.py; Rules is the requests on rules and notifications.
-- Tests: a small workspace, and the theorems at it.
--
-- What other requests may do between two reads is an argument: `create` takes the store of its first
-- look-up and the store behind the lock, and `dispatch` is two functions, before its commit and from
-- the engine's answer on. The requests on workflows and on seats lock nothing; they are modelled one after the
-- other, on the tables that they read. The advisory lock itself is assumed: behind it no other `create` of the
-- workspace runs. The engine's answers are arguments. The vault, the redaction, the bounding of a
-- preview and the reading of a time stamp are parameters, fields of `Env`; passlib, zoneinfo, croniter,
-- hashlib, hmac, base64, the secret store, the random tokens and Python's case folding are fields of `Security`, `Calendar`, `Tools`,
-- `Gateway` and `Digests`.
--
-- `has_cycle` runs on fuel, one unit for each node of the dict and one to spare: the visits that are open
-- have painted different nodes, and a node outside the dict has no neighbours. The decimal digits of a
-- number run on fuel above their count. All other functions are structural.
--
-- Left out: messages and audit details, short ids, hashes and traces, the read views and their paging,
-- the time stamps of a node result, an Idempotency-Key that is empty; what a webhook notes on its run, the loops of the worker, monitoring,
-- the life cycle of credentials, organisations, provisioning, the other routers and the engine's adapter.
-- The engine service and the front end are other programs.
pub mod Base
pub mod Json
pub mod Permissions
pub mod Graph
pub mod Context
pub mod Errors
pub mod Executions
pub mod Access
pub mod Schedules
pub mod Workflows
pub mod Triggers
pub mod RateLimit
pub mod Alerts
pub mod Tests
