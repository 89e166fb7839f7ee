-- ===== src/CoroutinePool.antt =====
-- `CoroutinePool` of runtime/coroutine_runtime.py: the pool of executors, its events and its
-- supervisors. Each step is what runs between two awaits.
pub mod Accounting
pub mod Supervisor
pub mod Draining
pub mod Memory
pub mod Drain
use openrtc_python.Prelude.{
  ℕ, suc, ◌+◌, Bool, true, false, not, ◌&&◌, Option, none, some, List, [], ◌∷◌, ◌++◌, length, ltb,
  leb, ◌==◌, if◌then◌else◌, map,
}
use openrtc_python.Prelude.Outcome.{Outcome, ret, raise, Exc, runtime_error, is_exception}
use openrtc_python.Executor
use openrtc_python.Executor.{JobStatus, running, success, failed, Executor, new_executor, end_task}

pub data Event : Type 0 where
  process_created process_started process_ready process_closed process_job_launched : Event

pub record CoroutinePool : Type 0 where
  pub max_concurrent_sessions : ℕ
  pub consecutive_failure_limit : ℕ
  pub consecutive_failures : ℕ
  pub failure_limit_fired : Bool
  pub executors : List Executor
  pub started : Bool
  pub draining : Bool
  -- the events emitted, with the executor's id
  pub emitted : List (Event × ℕ)
  -- the calls of `on_consecutive_failure_limit`
  pub supervisor_calls : List ℕ
  -- the next id: `uuid4` gives a new one each time
  pub next_id : ℕ

unfoldable pub new_pool : ℕ → ℕ → CoroutinePool
new_pool max_sessions failure_limit = record {
  max_concurrent_sessions = max_sessions;
  consecutive_failure_limit = failure_limit;
  consecutive_failures = 0;
  failure_limit_fired = false;
  executors = [];
  started = false;
  draining = false;
  emitted = [];
  supervisor_calls = [];
  next_id = 0;
}

abbrev pub emit : Event → ℕ → CoroutinePool → CoroutinePool
emit event id p = record p { emitted = p.emitted ++ (event, id) ∷ [] }

-- `executor in self._executors`: identity is the id.
unfoldable pub member : ℕ → List Executor → Bool
member id [] = false
member id (x ∷ xs) = if x.id == id then true else member id xs

-- `self._executors.remove(executor)`: the first match.
unfoldable pub remove : ℕ → List Executor → List Executor
remove id [] = []
remove id (x ∷ xs) = if x.id == id then xs else x ∷ remove id xs

unfoldable pub get_by_job_id : ℕ → List Executor → Option Executor
get_by_job_id job [] = none
get_by_job_id job (x ∷ xs) =
    let rest = get_by_job_id job xs in
    elim x.running_job [ none ↦ rest | some j ↦ if j == job then some x else rest ]

abbrev pub is_success : JobStatus → Bool
is_success success = true
is_success _ = false

-- The callback's own exceptions are logged.
unfoldable pub observe_status : JobStatus → CoroutinePool → CoroutinePool
observe_status status p =
    if is_success status
    then record p { consecutive_failures = 0; failure_limit_fired = false }
    else let n = p.consecutive_failures + 1 in
      if leb p.consecutive_failure_limit n && not p.failure_limit_fired
      then record p {
        consecutive_failures = n;
        failure_limit_fired = true;
        supervisor_calls = p.supervisor_calls ++ n ∷ [];
      }
      else record p { consecutive_failures = n }

unfoldable pub on_executor_done : ℕ → JobStatus → CoroutinePool → CoroutinePool
on_executor_done id status p =
    if member id p.executors
    then observe_status status
        (emit process_closed id (record p { executors = remove id p.executors }))
    else p

-- `setup` is what `setup_fnc` does within `initialize_timeout`; only once it has returned is the pool
-- started.
unfoldable pub start : Outcome (Unit {0}) → CoroutinePool → Outcome (Unit {0}) × CoroutinePool
start (raise e) p = if p.started then (ret tt, p) else (raise e, p)
start (ret _) p = (ret tt, record p { started = true })

-- The end of `launch_job`, once the executor is listed and announced.
launched : Outcome (Unit {0}) × Executor → CoroutinePool → Outcome (Unit {0}) × CoroutinePool
launched (ret _, x) p =
    (ret tt, emit process_job_launched x.id (record p { executors = p.executors ++ x ∷ [] }))
launched (raise e, x) p =
    let listed = record p { executors = p.executors ++ x ∷ [] } in
    (raise e, if is_exception e then on_executor_done x.id x.status listed else listed)

announce : ℕ → CoroutinePool → CoroutinePool
announce id p =
    emit process_ready id
      (emit process_started id (emit process_created id (record p { next_id = suc id })))

-- `context` is what `_build_job_context` does for the job. The executor is listed before its
-- `launch_job` runs; nothing reads the list in between.
unfoldable pub launch_job :
    Outcome (Unit {0}) → ℕ → CoroutinePool → Outcome (Unit {0}) × CoroutinePool
unfolding launched announce
launch_job context job p =
    if not p.started
    then (raise runtime_error, p)
    else if p.draining
    then (raise runtime_error, p)
    else launched (Executor.launch_job context job (new_executor p.next_id)) (announce p.next_id p)

-- An executor's task ends with a status: its done callback runs.
unfoldable pub task_ended : ℕ → JobStatus → CoroutinePool → CoroutinePool
task_ended id status p = on_executor_done id status p

unfoldable pub begin_drain : CoroutinePool → CoroutinePool
begin_drain p = record p { draining = true }

-- `aclose`: the executors' tasks are cancelled, and their callbacks run after it as `task_ended`.
unfoldable pub aclose : CoroutinePool → CoroutinePool
aclose p = record p { started = false }

-- `current_load() >= 1.0`, the active share of `max_concurrent_sessions`.
unfoldable pub is_full : CoroutinePool → Bool
is_full p = leb p.max_concurrent_sessions (length p.executors)

-- What may happen to a pool.
pub data Action : Type 0 where
  starts : Outcome (Unit {0}) → Action
  launches : Outcome (Unit {0}) → ℕ → Action
  ends : ℕ → JobStatus → Action
  drains : Action
  closes : Action

abbrev pub act : Action → CoroutinePool → CoroutinePool
act (starts setup) p = (start setup p).1
act (launches context job) p = (launch_job context job p).1
act (ends id status) p = task_ended id status p
act drains p = begin_drain p
act closes p = aclose p

unfoldable pub run : List Action → CoroutinePool → CoroutinePool
run [] p = p
run (a ∷ actions) p = run actions (act a p)
