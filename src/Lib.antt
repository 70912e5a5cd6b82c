-- ===== src/Lib.antt =====
-- The gateway of DGX MoA Agent (gateway/src/dgx_moa), an OpenAI-compatible service that routes
-- requests to a local Executor model or to remote ones: the parts of it that admit, count and
-- change state. A request is given a turn on the local Executor by the scheduler, or is sent to
-- a remote one; the work on it runs as a loop with budgets, evidence and a reason to stop; and
-- the models behind the roles are loaded and unloaded by the lifecycle store, which is told by
-- leases and guards what is in use. What a request is to do, step by step, is an execution
-- graph, whose runtime attempts the nodes and follows the edges. Beside the work, auxiliary
-- models may be launched and their findings reconciled; an action is kept from what the failure
-- ledger and the resource authority refuse. A further part, the evolution registry, decides
-- which version of a prompt or a policy is active. The parts share no state: the controller
-- (gateway/src/dgx_moa/controller.py and api.py, not modelled) calls them in turn.
--
-- Scheduler models gateway/src/dgx_moa/executor_scheduler.py. A Scheduler is an
-- ExecutorScheduler: pins, owners, queues and the round-robin ring keep their names. `admit` is
-- the part of acquire under the lock, `finish_wait` the end of its wait, and release,
-- set_local_enabled and pinned keep their names; `_promote` is in Scheduler/Release.antt.
-- Scheduler/Arrivals.antt has the order of a queue's entries; Scheduler/Invariant.antt,
-- Scheduler/Preservation.antt and Scheduler/Leaving.antt state and carry the invariant,
-- Scheduler/Runs.antt runs sequences of calls, Scheduler/Turns.antt is about fairness and
-- Scheduler/Routes.antt about what a request is given.
--
-- Loop models gateway/src/dgx_moa/loop_engineering.py. Loop.antt has the budgets, the evidence
-- and the iterations, Loop/Criteria.antt the acceptance criteria, Loop/Failures.antt the
-- failures; Loop/Budget.antt runs sequences of these operations, and Loop/Evidence.antt,
-- Loop/Stall.antt, Loop/Ended.antt, Loop/Resolved.antt and Loop/Strikes.antt are about what
-- they leave. The controller and the API also write to a loop directly, when they set its
-- budgets or reopen it; these writes are not modelled, and no sequence here has them.
--
-- Lifecycle models the class LifecycleStore of gateway/src/dgx_moa/lifecycle.py. A
-- LifecycleStore is the rows of model_lifecycle, by role, of model_lifecycle_leases and of
-- lifecycle_samples; an operation is one transaction, whose outcome, a Step, is a refusal,
-- after which SQLite rolls back, or a result with the new rows. Lifecycle.antt has the
-- statements that the operations share, Lifecycle/Opening.antt the rows of a new database (the
-- checks of __init__ on its roles and units are left out, so that a store opens here on any),
-- and Lifecycle/Leases.antt, Lifecycle/Updates.antt, Lifecycle/Transitions.antt,
-- Lifecycle/Unload.antt, Lifecycle/Guards.antt and Lifecycle/Recovery.antt the operations under
-- their names in the source (_updated_record is updated_record, _reconcile_transition is
-- reconcile_transition). Lifecycle/Rows.antt and Lifecycle/Counts.antt read the tables back,
-- Lifecycle/Invariant.antt, Lifecycle/Quiet.antt, Lifecycle/Preservation.antt,
-- Lifecycle/Saving.antt and Lifecycle/Claims.antt carry the invariant, Lifecycle/Runs.antt has
-- the histories of transactions, and Lifecycle/Admission.antt, Lifecycle/Moves.antt,
-- Lifecycle/Progress.antt (with Lifecycle/Clearing.antt) and Lifecycle/Exclusion.antt are about
-- what single operations promise.
--
-- Evolution models the class EvolutionRegistry of gateway/src/dgx_moa/evolution.py: its tables
-- evolution_artifacts and evolution_canaries as lists of rows, and the operations under their
-- names (get is get_artifact, promote is promote_artifact). Evolution/Versions.antt is about
-- what a put leaves, Evolution/Promotion.antt has the histories of calls and the invariant, and
-- Evolution/Histories.antt carries it.
--
-- Graph models the class ExecutionGraphRuntime of gateway/src/dgx_moa/execution_graph.py, which
-- runs the graph of a request: nodes that are ready are attempted, the outcome of an attempt
-- selects edges, and these make further nodes ready or close the run. Graph/Kinds.antt has the
-- kinds of nodes and edges and the states, Graph/Types.antt the data, with GraphRuntime for the
-- object's fields and Ran for a call that returns or raises, with the state that it leaves in
-- both cases; `journal` is what was written to the store. Graph.antt and Graph/Ready.antt have
-- the reads, the checkpoints and _persist, Graph/Start.antt start_attempt, Graph/Edges.antt
-- _select_outcome_edges, _apply_selected_edges and _close_unselected_for_terminal,
-- Graph/Finish.antt finish_attempt, Graph/Fail.antt fail_attempt and cancel, Graph/Rerun.antt
-- partial_rerun and resume, and Graph/Driving.antt the calls that are made of these.
-- Graph/Spread.antt is the walk of _descendants and partial_rerun; its fuel, one round for each
-- start and one for each edge, is enough, since a round takes a queued node and each node is
-- queued once, by an edge (Graph/Spread/Closure.antt). Graph/Invariant.antt states what every
-- runtime keeps; Graph/Known.antt, Graph/Attempts.antt, Graph/Selecting.antt,
-- Graph/Choosing.antt, Graph/Finishing.antt, Graph/Ending.antt, Graph/Starting.antt,
-- Graph/Failing.antt and Graph/Resuming.antt carry it through the calls, Graph/Runs.antt has
-- the sequences of calls, and Graph/Restoring.antt, Graph/Closing.antt, Graph/Cancelling.antt,
-- Graph/Rerunning.antt and Graph/Started.antt are about single calls; Graph/Once.antt,
-- Graph/Ended.antt, Graph/Finality.antt and Graph/Onward.antt are about the end of a run. A
-- graph is taken as valid: it has an entry and a terminal node, each node id once. The names of
-- checkpoints are taken as the numbers they stand for, of which pydantic's pattern allows less
-- than a million; a call reads the clock once.
--
-- Delegates models the class AsyncMoARuntime of gateway/src/dgx_moa/async_moa.py, which
-- launches auxiliary models beside the work and reconciles what they find: Delegates/Types.antt
-- has the data and the budgets of the efforts, Delegates.antt the operations under their names
-- (classify is staleness_of), Delegates/Runs.antt the sequences of calls and what they keep to,
-- Delegates/Cooling.antt the cooldown and Delegates/Reconciled.antt the answer of finalize. A
-- task of asyncio is known by how it has ended, and its end is a step of the run. finalize
-- fixes the handles that it awaits before it awaits them: begin_finalize names them, and
-- finish_finalize answers for them as they are when the await ends, none while one of them
-- runs; what is spawned meanwhile is not among them.
--
-- Ledger models the class FailureLedger of gateway/src/dgx_moa/actions/ledger.py, by which an
-- action that failed is not tried again in the same state; its operations keep their names, and
-- Ledger/Histories.antt is about what they say after a history.
--
-- Authority models the class ResourceAuthority of gateway/src/dgx_moa/actions/resources.py,
-- which decides which resources an action may name: Authority.antt has the checks,
-- Authority/Harvest.antt what a session's items authorise (_harvest_item is harvest_item), and
-- Authority/Vouched.antt relates the two. What the module takes from str, posixpath and urllib
-- is the record Texts, of which nothing is assumed.
--
-- Base and its child modules have the tests on numbers, lists and texts that the parts share,
-- Dict the dictionaries of Python, in insertion order, as association lists.
--
-- Conventions. Every method holds a lock or runs in one transaction, so a call is one step and
-- a history is a sequence of calls. The clock, the ids of uuid4 and the handle of a future are
-- arguments of the call that uses them; SHA-256, the uuid library and the two sanitizers of
-- failure texts are function arguments, of which nothing is assumed. Times, costs and
-- percentages, floats in the source, are whole numbers of a smallest unit, so the checks for
-- NaN and infinity have no counterpart; `-` on these numbers stops at 0 and is used only where
-- the source takes max(0, ...) or has compared before. All recursion is structural, but for the
-- walk over a graph. The native numbers are unbounded, as Python's are.
--
-- Not modelled: of execution_graph.py the compilation and the validation of a graph and
-- ExecutionGraphStore; of actions the gate, which calls the ledger and the authority; the HTTP
-- surface, the adapters of the model servers, the prompts, the dashboards, the scripts and the
-- training pipeline, which are input and output around these parts; of lifecycle.py the idle
-- policy, the parsing of progress lines, the failure events, the migration of old databases,
-- the coordinator and the systemd driver; of actions/ledger.py the revisions of a session's
-- state; of executor_scheduler.py the snapshot and of evolution.py list_artifacts and active,
-- which only read, and the generator of candidates.
pub mod Base
pub mod Dict
pub mod Scheduler
pub mod Loop
pub mod Lifecycle
pub mod Evolution
pub mod Graph
pub mod Delegates
pub mod Ledger
pub mod Authority
