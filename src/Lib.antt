-- ===== src/Lib.antt =====
-- Agent Runtime Observatory: a model of the governed run of an agent, its trace and replay, and
-- the review debt that its policy decisions leave.
--
-- A run executes a script step by step. Each step's arguments are resolved against the outputs
-- of earlier steps, the policy bundle allows, denies or flags the call, the tool works on an
-- in-memory workspace, and the step, its decision, risk signal, evidence and artifact are
-- recorded in the run and in a trace. A trace can be loaded and replayed. A decision that needs
-- review is debt until a person's attestation, bound to the digest of the run's content, clears
-- it.
--
-- Files and the code they model (paths from the repository's root):
--   Schema/Models, Schema/Models/Run, Schema/Models/Governance:
-- packages/schema/aro_schema/models.py
--     (types, field validators, `AgentRun.verdict`, `_identity_invariants`, `ReplayReport.ok`)
--   Json: packages/schema/aro_schema/digests.py (`canonical_json`, `digest_obj`, `digest_text`)
--   Schema/Subject: packages/schema/aro_schema/review_debt.py (`run_subject_digest`,
--     `subject_matches`); Schema/ReviewDebt: `compute_review_debt` of the same file
--   Runtime/Policy: packages/runtime/aro_runtime/policy.py (`PolicyEngine.evaluate`)
--   Runtime/Workspace, Runtime/Tools: packages/runtime/aro_runtime/tools.py
--   Runtime/Script: packages/runtime/aro_runtime/script.py
--   Runtime/Resolve: `_resolve_args` of packages/runtime/aro_runtime/executor.py
--   Runtime/Event: the trace's events, and packages/runtime/aro_runtime/hooks.py as a log of calls
--   Runtime/Executor: `execute_script` of packages/runtime/aro_runtime/executor.py, one function
-- for
--     each stretch of its body
--   Runtime/Trace: packages/runtime/aro_runtime/trace.py (the text that `TraceWriter` writes, and
--     `load_trace` on the text of the file)
--   Runtime/Replay: packages/runtime/aro_runtime/replay.py (`replay_trace`)
--   Runtime/Bundle: `Example` and `run_example` of packages/runtime/aro_runtime/examples.py
--   Runtime/Store: packages/runtime/aro_runtime/store.py, the tables as lists of rows in row-id
-- order
--   Worker: apps/worker/aro_worker/main.py (`process_once`, `chaos_injector_from_env`, the loop of `main`)
--   Api: apps/api/aro_api/main.py (`create_run`, `create_attestation`, the views of runs, debt and
--     metrics, `_RateLimiter`)
--   Metrics: packages/telemetry/aro_telemetry/metrics.py (`refresh_review_debt_gauges`,
-- `MetricsHooks`)
--   Clinic/Snapshot: packages/clinic/src/wutai_clinic/kernel/state_snapshot.py
--   Clinic/Checks: packages/clinic/src/wutai_clinic/kernel/manipulation_checks.py
--   Clinic/Chain: packages/clinic/src/wutai_clinic/evidence/chain.py (`EvidenceChain`)
--   Clinic/Registry: packages/clinic/src/wutai_clinic/evidence/registry.py (the standard gates)
--   Clinic/Grammar: packages/clinic/src/wutai_clinic/engine/grammar_gate.py
--   Clinic/Pruner, Clinic/Pruner/Segments, Clinic/Pruner/Policy:
--     packages/clinic/src/wutai_clinic/engine/pruner.py
--   Clinic/Trajectory: packages/clinic/src/wutai_clinic/schemas/trajectory.py
--   Clinic/Diagnoser: packages/clinic/src/wutai_clinic/engine/diagnoser.py (the classes
--     of a step, gaps and streaks)
--   Golden: packages/evals/aro_evals/golden.py (`evaluate_example`)
--   Prelude, Text, Outcome, Platform: shared helpers, Python's text functions, returns and
--     exceptions as values, and what the code calls and does not implement
--   Examples: a concrete platform, script and policy, with the theorems applied to them
-- Runtime/Executor/Effect is an independent description of a round of the loop, against which
-- the loop's body is proved (Effect/Round) and from which the invariants follow (Executor/Loop,
-- Executor/Sound). The modules named Join, Clearing, Laws, FirstMatch, Frame, Patch, Lines,
-- RoundTrip, Keys and Clean hold the proofs about the module above them, as do Store/Queue, Worker/Attempts,
-- Api/Clearing, Golden/Recorded, Metrics/Counts and Clinic/Checks/Gate.
--
-- Parameters. SHA-256, `re.search`, `urlparse`, the decimal value of a character and the texts
-- of the interpreter's exceptions are fields of `Platform`. Where a theorem needs one of them to
-- behave it says so: `ReadsVersion` asks that "2" is a digit of value 2 and that ":" is no
-- digit. The clock is a parameter of a run. `json` and the parts of pydantic that look up and
-- validate an event are the record `Codec` of Runtime/Trace; `ReadsBack` of Runtime/Trace/Lines says
-- of one event that its JSON is one line for `str.splitlines` and that the codec reads it back. The
-- validators that the program itself puts on a script are `validate_script`.
--
-- Bounds. The loops of the code run over lists and are structural recursion. The depth-first
-- visit of an evidence chain recurses on the number of nested calls that the interpreter allows,
-- an argument of it; one call more than there are nodes is enough, since a path holds each key once.
-- Python's integers are unbounded; the limit of `int` on the number of digits is not modelled.
--
-- Differences from the code. Instants and durations are natural numbers: nanoseconds of the
-- monotonic clock for the rate limiter, whose differences are taken as exact. A dict is a list
-- of entries in insertion order, and a float is kept as its printed text. A `ToolError` and
-- the other exceptions are values; a non-text `path` or `content` is an AttributeError at the
-- first operation that needs a text. A file is read as it was written. The types of the fields
-- of a header are checked where the event is read, and not where the replay validates the
-- script. A crashed run gives back the state at the exception. A method of the store is one
-- transaction; rows of one instant are listed in row-id order; delays are whole microseconds.
-- Fresh ids, instants, `repr` and pydantic's messages are arguments.
--
-- Not modelled: opening and migrating the database, HTTP parsing, the worker's environment and
-- counters, the rendering of metrics; files, pydantic's parsing and defaults, YAML,
-- `Workspace.from_dir`, the Postgres store (SQL on a server), OpenTelemetry (a library's
-- calls), command line, scripts and web interface (input and output only), and the rest of the
-- clinic package (statistics over recorded trajectories and external agent runners).
pub mod Prelude
pub mod Text
pub mod Outcome
pub mod Platform
pub mod Json
pub mod Schema
pub mod Runtime
pub mod Worker
pub mod Api
pub mod Metrics
pub mod Clinic
pub mod Golden
pub mod Examples
