-- ===== src/Lib.antt =====
-- AI Enterprise OS: an operating system for generated companies, in Python. Its parts are workflows
-- that a state machine runs and a validator checks; a runtime that keeps engines alive; an
-- orchestration engine that runs pipelines of tasks and undoes them; a decision engine that takes
-- decisions through rules, policies and escalation; and an event bus that joins them. This library
-- models the core of each part, from src/ai_company.
--
-- The parts, and the files that model them:
-- - Workflow/Models: definitions, states, transitions and their own validation (workflow/models.py).
--   Workflow/StateMachine: StateMachine, its construction and the evaluation of a state's
--   transitions, which enters the first target whose condition holds (workflow/state_machine.py).
--   Workflow/Checks and Workflow/Transitions: TransitionValidator, a pass of checks that records
--   errors and warnings, and TransitionEvaluator (workflow/transitions.py). Workflow/Context:
--   ContextManager, the contexts of executions and their steps (workflow/context.py).
-- - Runtime/Lifecycle: RuntimeLifecycle, the phase and its diagram (runtime/lifecycle.py).
--   Runtime/Heartbeat: HeartbeatManager and the round of HeartbeatSender (runtime/heartbeat.py).
--   Runtime/Watchdog: Watchdog, which checks task deadlines and has the heartbeats checked
--   (runtime/watchdog.py). Runtime/CircuitBreaker: CircuitBreaker (runtime/circuit_breaker.py).
--   Runtime/Policies and Runtime/Recovery: RecoveryManager, which tries a policy's actions on a
--   component that failed (runtime/recovery.py). Runtime/Health: HealthMonitor (runtime/health.py).
--   Runtime/Supervisor: Supervisor, which hands the failures that both monitors find to the recovery
--   manager, and isolates what it cannot recover (runtime/supervisor.py).
-- - Orchestration/Lifecycle: the status of a task and of a pipeline (orchestration/lifecycle.py).
--   Orchestration/Rollback: RollbackManager and its run of undo handlers (orchestration/rollback.py).
--   Orchestration/Executor: TaskExecutor and its retry loop (orchestration/executor.py).
--   Orchestration/Models: pipelines of tasks (orchestration/models.py). Orchestration/Dependencies:
--   DependencyGraph, its validation, the search for a cycle, the topological order and the layers
--   (orchestration/dependencies.py); its proofs stand in Sets, Layers, Order, Chains, Cycles,
--   Validation, Ranks and Built below it.
-- - Decision/Models: decisions (decision/models.py). Decision/Risk: RiskScorer (decision/risk.py).
--   Decision/Approval: ApprovalMatrix and ApprovalRouter (decision/approval.py). Decision/Routing:
--   RoutingTable (decision/routing.py). Decision/Policy: Policy and PolicyEngine
--   (decision/policy.py). Decision/History: DecisionHistory (decision/history.py). Decision/Engine:
--   DecisionEngine over a heap of decisions that callers, index and history share
--   (decision/engine.py).
-- - Events/Models, Events/Metrics: events, results and counters (events/models.py,
--   events/metrics.py). Events/Dispatcher: Subscriber and Dispatcher (events/subscriber.py,
--   events/dispatcher.py). Events/DeadLetter: DeadLetterQueue with its file (events/dead_letter.py).
--   Events/Filters: EventFilter, its subclasses as constructors, and FilterChain (events/filters.py).
--   Events/History: EventHistory, a ring buffer (events/history.py). Events/Router: Router
--   (events/router.py). Events/Middleware: the middleware and its pipeline (events/middleware.py).
--   Events/Bus: EventBus, whose publication runs the middleware, routes the event, dispatches it,
--   and settles the results in dead letters, history and metrics (events/bus.py).
-- - Prelude and Dict hold what they share: tests on numbers, list functions, a stable sort, results,
--   and Python's dictionaries in their order of insertion.
--
-- A class is a record of its attributes; a method is a function that takes the object last and
-- returns it, changed, with its result. An exception that the code raises or catches is a value: of
-- `Result`, or of an `Option` for a call inside `try`. Code that a method is handed, such as an
-- event handler, an undo function or a protected call, is a function that changes a world `W` and
-- may raise; a callback that can reach the object takes and returns the object. Python's `eval` and
-- `compile`, JSON, and clocks are parameters. Times and spans are numbers of microseconds, where
-- the code compares floating-point seconds, and message texts that nothing reads are constructors.
--
-- Loops that follow data run on fuel. In TransitionValidator._get_reachable_states any positive fuel
-- is enough, as its `while changed` ends in the first pass, with the exception or because nothing
-- changed. In DependencyGraph, the recursion of find_cycle needs one more than the pipeline has tasks,
-- as each deeper call visits another task; that of topological_order the sum of the tasks' ranks; and
-- parallel_groups one pass for each task that is not completed. In ApprovalRouter.determine_path the
-- rank of the first role and one is enough where the hierarchy has ranks; with a cycle no fuel is.
--
-- Not modelled: threads, locks and thread pools, so that a method is one step; logging; the refusal
-- of ill-typed or negative configuration by pydantic; averages and rates in floating point; and the
-- parts of the system that only read and write files, call services or print.
pub mod Prelude
pub mod Dict
pub mod Decision
pub mod Events
pub mod Orchestration
pub mod Runtime
pub mod Workflow
