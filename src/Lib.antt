-- ===== src/Lib.antt =====
-- Bastet Agent OS: the control plane's own decisions, as functions on explicit state.
--
-- A project's work is a graph of stages taken from a template. src/bastet_agent_os/workflow.py parses
-- and checks the template, seeds one row per stage in the table `job_stage_nodes`, and says which
-- stages may run; src/bastet_agent_os/stage_runtime.py moves these rows as stages are claimed, finish,
-- are recovered or are retried; src/bastet_agent_os/execution_leases.py keeps other work with one
-- owner; src/bastet_agent_os/run_tokens.py issues the credential of a run;
-- src/bastet_agent_os/governance.py decides whether a run may use a resource, and how much of it;
-- src/bastet_agent_os/project_lifecycle.py keeps the project's own status;
-- src/bastet_agent_os/maintenance_mode.py stops dispatch while components are updated;
-- src/bastet_agent_os/schedules.py turns recurring schedules into dispatched jobs;
-- src/bastet_agent_os/project_budget.py stops new work at a daily ceiling;
-- src/bastet_agent_os/quota_wait.py says when a vendor's quota lifts; and
-- src/bastet_agent_os/context_engine.py fits a run's context into its budget.
--
-- Which file models which part:
--   Prelude          shared names, Boolean tests, lists, sets of strings as lists, results; Prelude/Int
--                    and Prelude/Text for the integers and the texts that the parser reads
--   Graph            the recursive `visit` and the loop of `ancestors` of `parse_stages`, over any
--                    graph; a graph is the function that gives the `needs` of a name
--   Workflow         Json (values as the parser meets them), Stage (`StageDef` and the errors), Item
--                    (one item of the template), Parse (`parse_stages`), Ready (`ready_stages`, the
--                    node table), Rework (`rework_target_for`), Gate (`evaluate_gate`,
--                    with `classify_failure` of execution_capabilities.py in Failure)
--   Runtime          `claim_ready_node`, `finish_node`, `recover_orphaned_nodes`,
--                    `reset_failed_subgraph`
--   Lifecycle        project_lifecycle.py: the transitions of a project and its status from its jobs
--   Governance       governance.py: grants, spending and reservations
--   Schedules        schedules.py: Cron (`_values`, `parse_cron`), Next (`next_run`), Store (`validate`,
--                    create, update, delete), Ticker (the scheduler's tick, its dispatches in
--                    Ticker/Dispatch)
--   Context          context_engine.py: `build_context`, its selector and its clipping
--   ProjectBudget    project_budget.py: the daily ceiling and the receipts of its pauses
--   TaskPlan         project_lifecycle.py: Ids (`_task_id`), Normalize (`normalize_task_graph`), and in
--                    TaskPlan.antt the stored plan, `task_plan`, save, clear, link and unlink
--   QuotaWait        quota_wait.py: the failures of a vendor's quota, and `parse_reset`
--   Users            users.py: the users, their roles and their tokens
--   Leases, Tokens, Maintenance   execution_leases.py, run_tokens.py and maintenance_mode.py
--
-- Correspondence. A table of the database is the list of its rows in order, and a statement is a
-- function on it; a row holds the columns that some modelled statement reads. A raised error is a
-- value of an error type with one constructor for each `raise`. A set of names is a list read through
-- membership. The clock, the hash and the random source are arguments. Time stamps are natural
-- numbers: the program compares ISO texts of one form and zone, whose order is that of the seconds.
-- The expiry of a grant is a text, which the database compares with a text of another form.
--
-- Fuel. `visit` recurses at most one deeper than there are names, and the parser gives it one more
-- than the stages. `ancestors` takes at most as many rounds as the graph has edges, those of its start
-- counted twice, and one to stop; `reset_failed_subgraph` one round for the root, one for each stage
-- and one to stop. The range of a cron part takes at most one step for each number from its first to
-- its last, and one to stop. The search of `next_run` has the bound of the source.
-- `_task_id` tries two candidates more than there are ids in use; the visit of a task graph has one
-- more than there are tasks.
--
-- Not modelled: input and output, the text of prompts and error messages, the git commands, the
-- database engine and its transactions, the web client, and the executors. Of the template's fields,
-- one has the type that its dataclass declares, or is missing or null; of the lists of ids the elements
-- may be anything.
pub mod Prelude
pub mod Graph
pub mod Workflow
pub mod ProjectBudget
pub mod Runtime
pub mod Schedules
pub mod Leases
pub mod TaskPlan
pub mod Tokens
pub mod Maintenance
pub mod Lifecycle
pub mod Context
pub mod Governance
pub mod QuotaWait
pub mod Users
