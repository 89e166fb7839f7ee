-- ===== src/Tests/Pool.antt =====
-- The pool, its executors and its monitors on short runs.
use openrtc_python.Prelude.{
  All, All-map, ℕ, ◌+◌, ◌≤◌, ◌≡◌, refl, true, some, List, [], ◌∷◌, ◌++◌, arith, replicate,
}
use openrtc_python.Prelude.Outcome.{ret, raise, value_error}
use openrtc_python.Executor.{Executor, JobStatus, success, failed}
use openrtc_python.CoroutinePool.{
  CoroutinePool, new_pool, Action, starts, launches, ends, drains, run,
}
use openrtc_python.CoroutinePool.Accounting.{created, closed, listed, run-Account_new}
use openrtc_python.CoroutinePool.Supervisor.{observe_all, alarms, streak, observe_all-alarms}
use openrtc_python.CoroutinePool.Draining.{all_end}
use openrtc_python.CoroutinePool.Drain.{World, drain, has_end, EndAll, drain-returns}

-- Three launches, one of which fails, one end, and one launch refused while draining.
abbrev actions : List Action
actions =
    starts (ret tt)
    ∷ launches (ret tt) 5
    ∷ launches (raise value_error) 6
    ∷ launches (ret tt) 7
    ∷ ends 0 success
    ∷ drains
    ∷ launches (ret tt) 8
    ∷ []

run-Account_new_example :
    let p = run actions (new_pool 50 5) in
    (created 1 p.emitted ≤ 1) × (created 1 p.emitted ≡ closed 1 p.emitted + listed 1 p.executors)
run-Account_new_example = run-Account_new 1 50 5 actions

abbrev statuses : List JobStatus
statuses = failed ∷ failed ∷ failed ∷ success ∷ failed ∷ []

observe_all-alarms_example :
    let after = observe_all statuses (new_pool 50 2) in
    (after.supervisor_calls ≡ [] ++ replicate (alarms 2 0 statuses) 2)
    × (after.consecutive_failures ≡ streak 0 statuses)
unfolding new_pool
observe_all-alarms_example = observe_all-alarms statuses (new_pool 50 2) (omega arith) refl

-- While the joins are awaited, each awaited executor ends, and a launch is refused.
abbrev world : World
world xs = launches (ret tt) 9 ∷ all_end (λ x. failed) xs

has_end_later :
    (i : ℕ) (a : Action) (actions : List Action)
    → has_end i actions ≡ true
    → has_end i (a ∷ actions) ≡ true
has_end_later i a actions h = ground arith

all_end-All : (xs : List Executor) → All (λ x. has_end x.id (all_end (λ y. failed) xs) ≡ true) xs
all_end-All [] = tt
all_end-All (x ∷ xs) = (
  ground arith,
  All-map _ _ (λ y h. has_end_later y.id (ends x.id failed) (all_end (λ z. failed) xs) h) xs
      (all_end-All xs),
)

world-EndAll : EndAll world
world-EndAll xs =
    All-map _ _ (λ y h. has_end_later y.id (launches (ret tt) 9) (all_end (λ z. failed) xs) h) xs
      (all_end-All xs)

drain-returns_example :
    let p = run actions (new_pool 50 5) in
    (q : CoroutinePool) × (drain world 2 p ≡ some q)
    × (q.executors ≡ [])
    × (q.draining ≡ true)
    × (q.next_id ≡ p.next_id)
drain-returns_example = drain-returns world world-EndAll 50 5 0 actions
