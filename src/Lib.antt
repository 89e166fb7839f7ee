-- ===== src/Lib.antt =====
-- openrtc hosts many voice agents in one worker process: a pool of coroutine executors takes jobs
-- from a dispatcher, routes each to a registered agent, and runs it as a session with metrics,
-- observers, per-tenant safety limits and an audit log. This library models the core of that
-- program and proves what the parts promise.
--
-- The parts, by file, with the source from the repository's root:
--   Prelude         names shared by the others: lists, text, Python's dict, outcomes of calls
--   Validation      src/openrtc/utils/validation.py: the checks on arguments, agent names, tenant ids
--   SessionView     src/openrtc/core/session_view.py: what routing reads of a live job
--   Routing         src/openrtc/routing/: the strategies, the custom router, _resolve_agent_config
--   Observer        src/openrtc/observability/base_observer.py: session identity and outcome, _notify_*
--   RequestFilter   src/openrtc/routing/request_filter.py, and the layers that AgentPool.__init__ in
--                   src/openrtc/core/pool.py puts on each other
--   Breaker         src/openrtc/core/circuit_breaker.py: TenantCircuitBreaker
--   Metrics         src/openrtc/observability/metrics.py: RuntimeMetricsStore; Metrics.Pickle has its
--                   __getstate__ and __setstate__
--   Executor        src/openrtc/runtime/coroutine_runtime.py: CoroutineJobExecutor
--   CoroutinePool   src/openrtc/runtime/coroutine_runtime.py: CoroutinePool, its supervisor, its
--                   memory monitor (CoroutinePool.Memory), its drain (CoroutinePool.Drain)
--   Server          src/openrtc/runtime/coroutine_server.py: what a run patches and puts back
--   TenantConfig    src/openrtc/core/tenant_config.py: TenantConfigResolver
--   Membership      src/openrtc/core/membership.py: sign_membership, MembershipVerifier
--   Audit           src/openrtc/core/audit.py: AuditLog, AuditEvent.to_dict
--   Wiring          src/openrtc/core/wiring.py: run_session, run_session_end, _finish_session;
--                   Wiring.Interleaved runs many sessions in any order
--   Build           src/openrtc/core/wiring.py: build_session
--   Watcher         src/openrtc/runtime/file_watcher.py: FileWatcher, its buffer and its lifecycle
--   Reload          src/openrtc/reload/: the session registry, the pins, reload_agent_module,
--                   rebind_agent, ReloadCoordinator
--   TurnHandling    src/openrtc/core/turn_handling.py: _build_session_kwargs
--   Serialization   src/openrtc/core/serialization.py, and the module loader of
--                   src/openrtc/core/discovery.py
--   Registry        src/openrtc/core/config.py, and add, discover, get and remove of AgentPool
--   Construction    the checks of AgentPool.__init__, src/openrtc/backends/registry.py
--   Introspection   src/openrtc/observability/: introspection.py, session_memory.py, session_cpu.py,
--                   slow_session.py, and the state of introspection_runtime.py and worker_stats.py;
--                   Introspection.Lifetime has the start and the end of the stack
--   JsonlSink       src/openrtc/observability/jsonl_sink.py: JsonlMetricsSink, its parser
--   Pipecat         src/openrtc/backends/pipecat/: the builders, the drain, the lifecycle observer,
--                   the dispatch of a call (Pipecat.Dispatch), the analyzers (Pipecat.Prewarm)
--   Handoff         src/openrtc/cli/livekit_cli.py: the arguments and the environment on their way to
--                   LiveKit's command line, and what main in src/openrtc/cli/main_cli.py does to them
--   Top             src/openrtc/cli/top_cli.py: the filters, the order, the pages and the keys
--   Tests           the theorems at concrete inputs
-- The children of a part prove what their names say; a definition has the
-- name of the function that it models, without leading underscores.
--
-- How the parts meet: a request filter reads the metrics' gauges and asks the breaker; it names the
-- agent as Routing does and the tenant as Observer does. The pool's filter is the composition of
-- all four filters. Build gets a session from Routing, Observer, TenantConfig and TurnHandling, and
-- Wiring runs it against Metrics, Breaker and Observer. A pipecat call goes through the same
-- Routing and Observer. An executor of CoroutinePool is one of Executor, and its end feeds the
-- supervisor's streak. Construction adds its agents through Registry, whose configs hold the
-- references of Serialization. The watcher hands its collapsed changes to the coordinator of
-- Reload.
--
-- The model. State is passed explicitly: an operation takes a record and gives the next one, with
-- its result. A method that holds a lock, or that has no await, is one step. A Python call gives
-- an Outcome, a value or the class of the exception. Text is the list of its code points, a dict
-- an association list in insertion order. Of an object whose type is not fixed the model keeps
-- what the code asks of it: whether it is None, a str or a mapping, or whether it is true. Clock
-- readings, durations and bytes are natural numbers (ticks and bytes); the breaker's failure ratio
-- is a fraction compared by cross multiplication. The floats of the source round, the numbers here
-- do not. Log lines are left out, but for the warnings of TenantConfig and of the memory monitor.
--
-- What is given as a parameter: json.loads and the custom router in Routing, HMAC and the JSON text
-- of a claim in Membership, str() of a metadata value that is no text in Observer, what the
-- entrypoint, the hooks and the setup of a session do in Executor and CoroutinePool, the base
-- filter of a worker, the import system, pickle, getattr and the constructors of providers
-- (Serialization.Python), update_agent and current_agent of a live session (Reload.Livekit), what
-- reading, compiling and running a module does, to the loaded modules too (Reload.Attempt), floats
-- (Introspection.Floats), and json in JsonlSink. In Build the class of a session is given, and for
-- each job what the prewarmed factory of turn detection and the lookup of the prewarmed VAD give or
-- raise, in Pipecat.Dispatch the builders, in Metrics.Pickle the conversions int and float, in
-- CoroutinePool.Drain what the sessions do while they are awaited, in Server LiveKit's run. The
-- loop of CoroutinePool.Drain is the only one with fuel, a bound on the tests of its condition; two
-- are enough where every session ends. All other loops are over a list.
--
-- Not modelled: wire_pool of the wiring, the search of a module for agent classes, the discovery of
-- pipecat builders, the watch loop over watchfiles, what the threads, tasks and readings behind
-- introspection do and the text on its socket, the log handler of a session, the serving of the
-- backends, the options and the output of the command line, and the process runtime. They are input
-- and output, reflection or glue for the most part. In a pool the kill after the close timeout and the
-- http session are left out too, in a snapshot the resident set and the estimates of savings, which
-- are arithmetic on floats.
pub mod Prelude
pub mod Validation
pub mod SessionView
pub mod Routing
pub mod Observer
pub mod RequestFilter
pub mod Breaker
pub mod Metrics
pub mod Executor
pub mod CoroutinePool
pub mod TenantConfig
pub mod Membership
pub mod Audit
pub mod Wiring
pub mod Watcher
pub mod Reload
pub mod TurnHandling
pub mod Serialization
pub mod Registry
pub mod Construction
pub mod Introspection
pub mod JsonlSink
pub mod Pipecat
mod Tests
pub mod Handoff
pub mod Top
pub mod Build
pub mod Server
