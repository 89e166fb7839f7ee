-- ===== src/Executor.antt =====
-- `CoroutineJobExecutor` of runtime/coroutine_runtime.py: one session's executor. What the entrypoint,
-- the room and the hooks do is given; the order of the calls and the final status are the code's.
pub mod Lifecycle
use openrtc_python.Prelude.{
  ℕ, suc, Bool, true, false, not, ◌&&◌, Option, none, some, List, [], ◌∷◌, ◌++◌, length, take,
  if◌then◌else◌,
}
use openrtc_python.Prelude.Outcome.{
  Outcome, ret, raise, Exc, runtime_error, cancelled_error, is_exception,
}

pub data JobStatus : Type 0 where
  running success failed : JobStatus

-- What happens to one session, from outside the executor.
pub record Script : Type 0 where
  -- awaiting `entrypoint_fnc(ctx)`
  pub entrypoint : Outcome (Unit {0})
  -- `ctx._primary_agent_session is not None` once the entrypoint has returned
  pub live_session : Bool
  pub fake_job : Bool
  -- awaiting `shutdown_fut` ends by the task's cancellation, not by a shutdown request
  pub shutdown_cancelled : Bool
  -- the task is cancelled in the teardown, after so many of its calls
  pub teardown_cancelled : Option ℕ
  -- the shutdown callbacks, and whether each raises an `Exception`
  pub shutdown_callbacks : List Bool
  -- `session_end_fnc`, if there is one, with the `TimeoutError` of `wait_for`
  pub session_end : Option (Outcome (Unit {0}))

-- The calls that the executor makes, in order.
pub data Call : Type 0 where
  run_entrypoint await_shutdown close_session session_end_hook cancel_pending cleanup : Call
  shutdown_callback : ℕ → Call
  call_session_end : Call

-- What a run leaves: the status, the calls, and how the task ends.
pub record Ended : Type 0 where
  pub status : JobStatus
  pub calls : List Call
  pub result : Outcome (Unit {0})

-- `if self._status is JobStatus.RUNNING: self._status = status`
abbrev pub settle : JobStatus → JobStatus → JobStatus
settle running status = status
settle settled status = settled

callback_calls : ℕ → List Bool → List Call
callback_calls n [] = []
callback_calls n (raises ∷ more) = shutdown_callback n ∷ callback_calls (suc n) more

-- `_teardown` of a real `JobContext`, which has all the hooks: a step that raises an `Exception` does
-- not stop the next.
unfoldable pub teardown : Script → List Call
unfolding callback_calls
teardown s =
    close_session
    ∷ session_end_hook
    ∷ (callback_calls 0 s.shutdown_callbacks ++ cancel_pending ∷ cleanup ∷ [])

-- A cancellation in the teardown goes on up, past the line that sets `SUCCESS`.
tear_down : Script → JobStatus → Option ℕ → Ended
tear_down s status none = record {
  status = settle status success;
  calls = run_entrypoint ∷ await_shutdown ∷ teardown s;
  result = ret tt;
}
tear_down s status (some n) = record {
  status = status;
  calls = run_entrypoint ∷ await_shutdown ∷ take n (teardown s);
  result = raise cancelled_error;
}

-- The body of the inner `try`, from the status that the executor has when it starts.
after_entrypoint : Script → JobStatus → Outcome (Unit {0}) → Ended
after_entrypoint s status (raise cancelled_error) = record {
  status = settle status failed;
  calls = run_entrypoint ∷ [];
  result = raise cancelled_error;
}
after_entrypoint s status (raise e) =
    if is_exception e
    then record { status = settle status failed; calls = run_entrypoint ∷ []; result = ret tt }
    else record { status = status; calls = run_entrypoint ∷ []; result = raise e }
after_entrypoint s status (ret _) =
    if s.live_session && not s.fake_job
    then if s.shutdown_cancelled
      then record {
        status = settle status failed;
        calls = run_entrypoint ∷ await_shutdown ∷ [];
        result = raise cancelled_error;
      }
      else tear_down s status s.teardown_cancelled
    else record { status = settle status success; calls = run_entrypoint ∷ []; result = ret tt }

-- The `finally` block: an `Exception` of the hook is logged; another one replaces the result.
after_session_end : Ended → Option (Outcome (Unit {0})) → Ended
after_session_end r none = r
after_session_end r (some (ret _)) = record r { calls = r.calls ++ call_session_end ∷ [] }
after_session_end r (some (raise e)) =
    if is_exception e
    then record r { calls = r.calls ++ call_session_end ∷ [] }
    else record r { calls = r.calls ++ call_session_end ∷ []; result = raise e }

unfoldable pub run_job : JobStatus → Script → Ended
unfolding tear_down after_entrypoint after_session_end
run_job status s = after_session_end (after_entrypoint s status s.entrypoint) s.session_end

-- The executor's own task: none yet, running, or ended.
pub data Task : Type 0 where
  idle pending done : Task

pub record Executor : Type 0 where
  pub id : ℕ
  pub running_job : Option ℕ
  pub status : JobStatus
  pub started : Bool
  pub task : Task

unfoldable pub new_executor : ℕ → Executor
new_executor id = record {
  id = id;
  running_job = none;
  status = running;
  started = false;
  task = idle;
}

unfoldable pub start : Executor → Executor
start x = record x { started = true }

-- `context` is what `context_factory(info)` does. The job and the status are set before it runs.
schedule : Outcome (Unit {0}) → ℕ → Executor → Outcome (Unit {0}) × Executor
schedule (ret _) job x =
    (ret tt, record x { running_job = some job; status = running; task = pending })
schedule (raise e) job x = (raise e, record x { running_job = some job; status = running })

-- A second launch while the task runs is refused. The pool always gives the two functions that the
-- first two tests of the source ask for.
launch_on : Task → Outcome (Unit {0}) → ℕ → Executor → Outcome (Unit {0}) × Executor
launch_on pending context job x = (raise runtime_error, x)
launch_on _ context job x = schedule context job x

unfoldable pub launch_job : Outcome (Unit {0}) → ℕ → Executor → Outcome (Unit {0}) × Executor
unfolding launch_on schedule
launch_job context job x = launch_on x.task context job x

-- The task ends with the status that `run_job` left.
unfoldable pub end_task : JobStatus → Executor → Executor
end_task status x = record x { status = status; task = done }

-- `aclose`: the task is cancelled and awaited; `left` is the status that it then has.
close_on : Task → JobStatus → Executor → Executor
close_on pending left x = record x { status = settle left failed; task = done; started = false }
close_on _ left x = record x { started = false }

unfoldable pub aclose : JobStatus → Executor → Executor
unfolding close_on
aclose left x = close_on x.task left x

-- `kill`: the cancellation is requested and not awaited.
kill_on : Task → Executor → Executor
kill_on pending x = record x { status = settle x.status failed; started = false }
kill_on _ x = record x { started = false }

unfoldable pub kill : Executor → Executor
unfolding kill_on
kill x = kill_on x.task x
