-- ===== src/Lib.antt =====
-- Agent OS: the mission core of the multi-agent system, its workers, and the Agent OS 3.0 layer.
--
-- A mission is a goal with success criteria. Mission control moves it through its statuses, the
-- task graph holds its tasks and their dependencies, the executor sends ready tasks to workers and
-- reacts to what they report, the evidence engine and the verification pipeline decide whether a
-- claim counts as verified, failure recovery classifies what went wrong and the strategy manager
-- keeps what is to change in the next attempt. The policy engine allows, denies or holds actions,
-- and the approval manager lets humans decide what was held. The evaluator judges what a worker
-- returns, and the handoff manager passes work from one worker to another. The goal decomposer turns
-- a mission into tasks, and the mission evaluator judges it once they are done. Workers take tasks
-- from Redis queues under a lock per task, and Hermes consumes what they push to the results. The
-- Agent OS 3.0 layer records trajectories and checkpoints, continues goals within budgets, runs
-- schedules and refines prompts. State lies in PostgreSQL tables and in Redis.
--
-- Files and the code they model (paths from the repository's root):
--   Prelude, Prelude/*    lists, sorting, tests and chains of steps that the components share
--   Errors, Exec          the exceptions, and methods that read and write a state and may raise;
--                         what was written before a raise stays written
--   Text                  str.lower, the `in` of strings, str(n) and slices
--   Regex                 the part of `re` that failure recovery uses; Regex/Phrases: what it finds
--   Json                  decoded JSON values with natural numbers, Python's == and truth on them;
--                         Json/Keys: reading a dict that was assigned to
--   Redis                 task records, locks, markers and lists of the workers and the consumer
--   Sql, Sql/*            SELECT, UPDATE … WHERE, INSERT on lists of rows, and laws for keyed tables
--   Mission/Ids           the ids of tasks as Python compares them
--   Mission/Tables        the rows of migrations/002_mission_control.sql and
--                         migrations/003_evidence_verification.sql
--   Mission/Control       services/mission/control.py: create_mission, transition,
--                         transition_if_current, increment_retry, set_final_verification, list_active
--   Mission/TaskGraph     services/mission/task_graph.py: add_task, ready_tasks, claim_for_dispatch,
--                         update_status; TaskGraph/Cycles: validate_acyclic;
--                         TaskGraph/Kahn: topological_order
--   Mission/Evidence      services/mission/evidence.py, all methods
--   Mission/Pipeline      services/mission/verification_pipeline.py, and VERIFIER_REGISTRY of
--                         services/mission/verifiers.py
--   Mission/Recovery      services/mission/failure_recovery.py; Recovery/Patterns: _PATTERNS
--   Mission/Strategy      services/mission/strategy.py; Strategy/Templates: STRATEGY_TEMPLATES
--   Mission/Reports       services/mission/executor.py: process_completed_hermes_task,
--                         _verification_spec and check_mission_progress
--   Mission/Dispatch      services/mission/executor.py: dispatch_ready_tasks; Mission/Payloads: what it
--                         sends; Mission/Restart: recover_after_restart
--   Mission/Decomposition services/mission/decomposition.py
--   Mission/Verdict       services/mission/mission_evaluator.py
--   Mission/Replies       the fence around a model's reply, which both of these remove
--   Mission/Costs         services/mission/cost_tracker.py
--   Mission/Idempotency   services/mission/idempotency.py; a side effect is a log of the keys it was
--                         performed for
--   Policy                services/policy/engine.py; Policy/Rules: services/policy/rules.yaml
--   Approval              services/approval/manager.py
--   Evaluator             services/evaluator/evaluator.py, with scores in millionths
--   Handoff               services/handoff/manager.py, with Redis as task records and pushes
--   Worker                services/workers/common/base_worker.py; Worker/Fleet: several workers at
--                         once, interleaved between the commands on the lock
--   Consumer              services/hermes/result_consumer.py
--   AgentOs/Trajectory    TrajectoryRecorder of services/hermes/agent_os30/trajectory.py
--   AgentOs/Checkpoints   CheckpointStore of the same file
--   AgentOs/Goals         goals, budgets and heartbeats of services/hermes/agent_os30/autonomy.py
--   AgentOs/Controller    AutonomyController.bounded_continue of the same file
--   AgentOs/Scheduler     Scheduler of the same file
--   AgentOs/Harness       services/hermes/agent_os30/harness.py
--                         The tables of these are those of services/hermes/agent_os30/persistence.py.
-- Copies and other versions of some modules lie at the root, under services/hermes and under
-- services/workers/verification; those under services/mission, services/policy, services/approval,
-- services/evaluator and services/handoff are modelled. The modules below a
-- component hold its proofs, and its Samples the runs and instances at concrete inputs.
--
-- How the model stands to the code:
--   - a table is the list of its rows in insertion order; what uuid4 and datetime.now return is an
--     argument; identifiers and times are numbers, JSONB columns hold decoded values;
--   - one SQL statement is one step. Control/Interleaving and TaskGraph/Interleaving let any number
--     of callers run at once, each between the statement that reads and the one that writes, and
--     Idempotency/Race has two calls that both check first; Worker/Fleet has any number of workers
--     between the commands on the lock, with crashes, and Consumer has the consumer stop or lose a
--     command after its handler; the other components take calls one after another;
--   - a Redis command is atomic, and a key that expired is a missing one: expiries are steps of their
--     own, where a theorem allows them. Lost commands are modelled in Mission/Dispatch, where
--     one that raises has no effect, and after the handler of Consumer; the alarm of a worker's
--     timeout inside `handle` alone, and of results those that json.dumps can encode;
--   - the database driver is a parameter where ids are compared or encoded: a UUID column is read as
--     its text, as the fakes of the repository's tests do, or as a uuid.UUID object, as asyncpg does.
--     The dependencies of a task are texts of a JSON column. Mission/Ids tells the values apart;
--   - background tasks of the Scheduler are a list of writes, each of which may run at any time and
--     fail. Writes that are awaited succeed;
--   - foreign keys are not modelled: an INSERT names rows that are there, and succeeds. Counts in JSON
--     columns are natural numbers; MAX_RETRIES of the workers is its default;
--   - handlers, steps and callbacks of other code, the replies of a model, json.loads and the digest
--     of an event are arguments. Costs of a goal are in millionths;
--   - a transition's UPDATE is conditional on the status that was read, as in the source;
--   - the primary keys of the migrations appear as a hypothesis on the table where a theorem needs
--     them, and a drawn uuid4 as a fresh identifier;
--   - validate_acyclic recurses on a bound of as many steps as the mission has tasks. Each level of
--     the recursion paints one more task gray, so the bound is never reached. Python's own
--     recursion limit is not modelled;
--   - the loop of topological_order has as many rounds as the mission has tasks, each of which is
--     pulled at most once. Its counts are natural numbers: one that is 0 is never lowered;
--   - decimal counts down from n + 1, more than the digits of n;
--   - the services of the outside world that verifiers ask (HTTP, storage, browser) are one
--     argument, a function from verifier, claim and context to how the attempt ends;
--   - str.lower is exact for what an ASCII term can tell: A–Z, and the two code points outside ASCII
--     with an ASCII letter in their lower case. The alphanumeric and decimal code points from 128 on
--     are an argument of the regular expressions;
--   - texts that json.dumps or str makes of a dict in the executor, and the YAML that the policy
--     engine loads, enter as their results.
-- Not modelled: progress files and notifications, the trajectory that the executor writes to a
-- runtime store, the bodies of the verifiers, the HTTP endpoints of services/hermes/app.py, memory,
-- model routing, the skill validator, the resource, security and worker tables of the Agent OS 3.0
-- layer, and the handlers of the workers: I/O, or glue around these components.
pub mod Prelude
pub mod Errors
pub mod Exec
pub mod Text
pub mod Json
pub mod Sql
pub mod Mission
pub mod Policy
pub mod Approval
pub mod Evaluator
pub mod Handoff
pub mod Worker
pub mod AgentOs
pub mod Consumer
pub mod Redis
pub mod Regex
