-- ===== src/CoroutinePool/Draining.antt =====
-- `CoroutinePool.begin_drain`: no new job, and the pool empties as its tasks end.
use openrtc_python.Prelude.{ℕ, ◌≤◌, ◌≡◌, refl, true, List, [], ◌∷◌, arith, length, ◌∙◌}
use openrtc_python.Prelude.Outcome.{ret, raise}
use openrtc_python.Executor.{JobStatus, Executor}
use openrtc_python.CoroutinePool.{
  CoroutinePool, member, remove, observe_status, on_executor_done, start, launch_job, task_ended,
  begin_drain, aclose, Action, starts, launches, ends, drains, closes, act, run,
}

length-remove-le : (id : ℕ) (xs : List Executor) → length (remove id xs) ≤ length xs
unfolding remove
length-remove-le id [] = omega arith
length-remove-le id (x ∷ xs) = ground (arith, length-remove-le id xs)

-- The pool `q` has no session and no draining flag that `p` lacks.
pub record Shrinks (p q : CoroutinePool) : Type 0 where
  pub draining : q.draining ≡ true
  pub fewer : length q.executors ≤ length p.executors
  pub no_new : q.next_id ≡ p.next_id

pub act-Shrinks :
    (action : Action) (p : CoroutinePool) → p.draining ≡ true → Shrinks p (act action p)
unfolding start launch_job task_ended on_executor_done observe_status begin_drain aclose
act-Shrinks (starts (ret _)) p d = ground arith
act-Shrinks (starts (raise e)) p d = ground arith
act-Shrinks (launches context job) p d = ground arith
act-Shrinks (ends id status) p d = ground (arith, length-remove-le id p.executors)
act-Shrinks drains p d = ground arith
act-Shrinks closes p d = ground arith

-- Once a pool drains it does so for good, whatever happens next: no executor is ever made again,
-- and the sessions in flight only get fewer.
pub run-Shrinks :
    (actions : List Action) (p : CoroutinePool)
    → p.draining ≡ true
    → ((run actions p).draining ≡ true)
      × (length (run actions p).executors ≤ length p.executors)
      × ((run actions p).next_id ≡ p.next_id)
unfolding run
run-Shrinks [] p d = (d, omega arith, refl)
run-Shrinks (action ∷ actions) p d =
    let s = act-Shrinks action p d in
    let (d', fewer, none_new) = run-Shrinks actions (act action p) s.draining in
    (d', omega (arith, s.fewer), none_new ∙ s.no_new)

-- The ends of all sessions in flight, with the status of each.
abbrev pub all_end : (Executor → JobStatus) → List Executor → List Action
all_end status [] = []
all_end status (x ∷ xs) = ends x.id (status x) ∷ all_end status xs

remove_head :
    (id : ℕ) (x : Executor) (xs : List Executor)
    → x.id ≡ id
    → (member id (x ∷ xs) ≡ true) × (remove id (x ∷ xs) ≡ xs)
unfolding member remove
remove_head id x xs e = ground arith

task_ended_head :
    (status : JobStatus) (x : Executor) (xs : List Executor) (p : CoroutinePool)
    → p.executors ≡ x ∷ xs
    → (task_ended x.id status p).executors ≡ xs
unfolding task_ended on_executor_done observe_status
task_ended_head status x xs p e = ground (arith, remove_head x.id x xs refl)

-- A drain comes to its end: once every session in flight has ended, successfully or not, the pool
-- has no executor left.
pub run-all_end :
    (status : Executor → JobStatus) (xs : List Executor) (p : CoroutinePool)
    → p.executors ≡ xs
    → (run (all_end status xs) p).executors ≡ []
unfolding run
run-all_end status [] p e = e
run-all_end status (x ∷ xs) p e =
    run-all_end status xs (task_ended x.id (status x) p) (task_ended_head (status x) x xs p e)
