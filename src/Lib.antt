-- ===== src/Lib.antt =====
-- Doppel Agent is a local coding agent: a Python service that runs agent turns against a model provider,
-- executes tools in a workspace under approval, and keeps its runs, tasks, notes and tool effects in SQLite.
--
-- The parts modelled here are those that decide. A plan of a work order is validated and ordered; the store of
-- work orders keeps its revisions and reserves one attempt at a time for a ready task, and the orchestrator
-- hands each attempt to the runtime and takes over what becomes of its run; the scheduler runs a bounded number of operations; each run calls a provider behind retries and
-- a circuit breaker, and what the provider reports of its usage is metered and priced; each tool call goes through the
-- permission check and the approval broker, and through the ledger, which runs it at most once; the run store,
-- the task manager and the note store keep what was accepted, and the workspace lock separates readers from a
-- writer. The parts meet through values only: results, stored rows and answers.
--
-- Files and the code that they are about:
-- - Prelude, Py: shared names, lists, text, results, dictionaries; the dynamic values that validators read.
-- - Plans: src/doppel_agent/tasks/work_orders.py. PlanTask, WorkOrderPlan, plan_from_payload, topological_order
--   and dispatch_request under their own names; the validation is split by the loops of the source.
-- - Orders: src/doppel_agent/persistence/work_orders.py with its tables in
--   src/doppel_agent/persistence/migrations.py, and src/doppel_agent/tasks/orchestrator.py. An Order is a row of
--   work_orders with the rows that it owns; each operation takes an order to an order or raises, which rolls it
--   back. Queries, States and Sync are the methods with an underscore in front, Reserve, Control, Revise and
--   Store the public ones, Orchestrator has _step and _cancel_order. Runs is met through its rows: World holds
--   the table of runs as the store finds it, and it may be another one at each operation.
-- - Provider: src/doppel_agent/provider.py. Circuit is the state of the breaker; enter_circuit, record_success,
--   record_failure and release_probe are the methods with an underscore in front; owned_turn and anext_turn are
--   the asynchronous request with its retries. Requests interleaves them.
-- - Ledger: src/doppel_agent/persistence/tool_ledger.py. Connection is _connect with every failure of SQLite,
--   Once has execute_once, _begin, _finish and aexecute_once, History any sequence of calls.
-- - Patching: apply of src/doppel_agent/workspace/patching.py from the first round of its loop on. commit_change
--   is one round, roll_back one round of the rollback. A run has the files by path and a list of turns: at each
--   call to the system others may change files, and the call may fail.
-- - Billing: src/doppel_agent/provider_usage.py, the usage details of src/doppel_agent/provider_observation.py, and
--   src/doppel_agent/billing_tariff.py: Rates, Amounts, Estimates and Tariff have its functions under their names
--   without the underscore.
-- - Scheduler: src/doppel_agent/concurrency/scheduler.py. The state is the record of the object's fields, with
--   its jobs in a store by number; each function is what a coroutine does between two suspensions. A start may
--   come while the workers of an earlier shutdown still end: drains are the shutdowns that go on.
-- - Runs: src/doppel_agent/persistence/runs.py, the turns of src/doppel_agent/persistence/conversations.py and
--   the unique indexes of src/doppel_agent/persistence/migrations.py. Tables holds the rows; Turns, Store, Claims
--   and Restart the operations, each one transaction, and Histories any sequence of them.
-- - Tasks: src/doppel_agent/tasks/manager.py. Table, Cycle and Manager hold the operations on the rows.
-- - Locks: src/doppel_agent/concurrency/workspace_locks.py.
-- - Approvals: src/doppel_agent/web/approvals.py and src/doppel_agent/permissions.py.
-- - Notes: src/doppel_agent/context/notes.py and src/doppel_agent/context/selection.py.
-- - Mcp: validate_arguments of src/doppel_agent/mcp/executor.py.
-- - Context: ContextPolicy of src/doppel_agent/context/policy.py.
--
-- Bounds and fuel. Integers of the source are unbounded, and so are the native numbers; times are numbers. The
-- loop of topological_order has fuel of one more than the tasks: every pass but the last emits a task. The
-- search for cycles in Tasks/Cycle has fuel of one more than the nodes, since the nodes on its path differ. The
-- retry loop recurs on the attempts that are left. The propagation of blocked tasks in Orders/States has one
-- round for each row and one more: each round but the last blocks a row. Decimal printing has more fuel than
-- the number that is printed.
--
-- Outside the model: SQLite and asyncio themselves (their effects are data of the calls and the order of steps),
-- hashing and JSON text (given as strings or functions), the calendar, processes, HTTP, the web console, reports and settings.
-- Of a patch, the checks before its first replacement, its temporary files and its receipt are left out, and so are
-- the ledger's operations on receipts; a hash is that of its content. Of the work orders, time stamps, listings and the remembered selections are left out; execution_settings, the
-- context resolver and bind_predecessors are functions that the model takes.
pub mod Prelude
pub mod Py
pub mod Plans
pub mod Orders
pub mod Provider
pub mod Ledger
pub mod Patching
pub mod Billing
pub mod Scheduler
pub mod Runs
pub mod Tasks
pub mod Locks
pub mod Approvals
pub mod Notes
pub mod Mcp
pub mod Context
