-- ===== src/Lib.antt =====
-- WorkflowScheduler, InMemoryOrchestrator and MetricsAlertPolicyStore of control_center, the state
-- machines behind the HTTP routes of WhereCode's control centre.
--
-- control_center/services/workflow_scheduler.py keeps workflow runs and their work items,
-- discussions, gate checks and artifacts in dictionaries and writes each change to a
-- SQLiteStateStore. control_center/services/orchestrator.py keeps projects, tasks and commands in
-- the same way, and runs commands through an action executor that it is given.
--
-- Prelude has the shared names, list functions and the sort; Text has str.strip; Dict and Value
-- have Python's dict, as an association list in the order of insertion, and JSON values; Py has
-- methods that mutate an object and may raise: an exception keeps what was written before it.
-- Models has control_center/models/v3_workflow.py, with the validators as Boolean tests, and
-- Models/Hierarchy control_center/models/hierarchy.py with the requests of models/api.py.
--
-- Scheduler/State has the fields of WorkflowScheduler, the rows of the store, and the actions that
-- methods are made of. An object is shared by reference in the source; here a key stands for it,
-- and an assignment to its attributes is modify_workitem or modify_run. Scheduler/Dependencies,
-- Scheduler/Status, Scheduler/Discussion, Scheduler/Create, Scheduler/Items and Scheduler/Control
-- have the operations, under the source's names. Scheduler/History runs any list of calls.
-- Orchestrator/State, Refresh, Advance, Handlers, Detail and Summary have InMemoryOrchestrator in the
-- same form; Orchestrator/Requests runs any list of calls of its public methods. Each of them, but
-- reset, holds the lock throughout, so it is one step. reset takes no lock; only the tests' fixtures
-- call it, between requests, and a reset while another method awaits the executor is not modelled. A
-- float of the metrics is the expression that it is rounded from.
--
-- Scheduler/Load is a restart on a state store, with the order in which SQLite lists rows as a
-- parameter, and Scheduler/Metrics has the metrics. Engine has
-- control_center/services/workflow_engine.py, a client of the scheduler: Engine/Bootstrap adds the
-- items of a run from task packages, Engine/Run is the execution loop, Engine/Execute one item of it,
-- and Engine/Reflow the gates and the reflow of a module; Helpers, Spec and Reports have
-- workflow_engine_bootstrap_helpers.py and workflow_engine_runtime_helpers.py. The executors are
-- parameters. While the engine awaits one, other tasks may call the scheduler, so an executor comes
-- with the calls that are made meanwhile. Engine/Kept says what the engine asks of an invariant of
-- the scheduler, and Engine/Safe runs any list of calls of the engine and of the scheduler.
--
-- Policy has MetricsAlertPolicyStore of control_center/services/metrics_alert_policy_store.py and the
-- modules beside it, a store of its own with files: Policy/State has its fields, the rows and the
-- files, where the text of a JSON line stands for its row; Rows says which lines are read back as
-- rows, since a text with a line boundary that JSON leaves as it is makes a reader give up the whole
-- file; Normalize, Purge, Approvals, Cleanup, Rollback and Restart have the functions under the
-- source's names, and Policy/History runs any list of calls and restarts. Policy/Authorization has
-- metrics_authorization.py, with the headers of a request and str.lower as parameters. The rows are
-- those that the program writes, so the readers' tests for an object and its keys pass. Numbers in a
-- policy are whole, a float stands for its integral part, and int of a text is a parameter. Times
-- have a zone.
--
-- Router has the decision of control_center/services/agent_router.py and its default rules; the rules
-- are any list in the order of the router, str.lower is a parameter, and Router/Routed says what a
-- decision is without the loops.
--
-- now_utc and new_id are a parameter, World, or Host for the policy store, with the hypothesis
-- IsUnique where fresh identifiers matter: no identifier is issued twice with one prefix. The action
-- executor is a parameter that answers anything; it is given the command and leaves metadata on it.
-- Times are naturals, in microseconds. Each loop goes through a list, but the search of
-- find_module_descendants, which is bounded by a number of rounds: one for the failed item and one
-- for each item of the run, since an item is visited once.
--
-- The routes, the text of the prompts, the decomposition of requirements, the
-- registry of verification policies, the configuration of the agent router, the rules of the agents
-- and the action layer are not modelled. A caller
-- that changes the metadata of an item from outside the scheduler is outside the model, and so are
-- faults of the database and of files.
pub mod Prelude
pub mod Text
pub mod Dict
pub mod Value
pub mod Py
pub mod Models
pub mod Scheduler
pub mod Orchestrator
pub mod Engine
pub mod Policy
pub mod Router
