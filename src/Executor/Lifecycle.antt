-- ===== src/Executor/Lifecycle.antt =====
-- `CoroutineJobExecutor._run_entrypoint`: how a session ends, its status and the hooks that run.
use openrtc_python.Prelude.{
  zero, inl, inr, Option-cases, ap, ◌∙◌, ◌||◌, ℕ, ◌≡◌, ◌↔◌, refl, Bool, true, false, not, ◌&&◌,
  none, some, List, [], ◌∷◌, ◌++◌, arith, count_if, count_if-append,
}
use openrtc_python.Prelude.Outcome.{Outcome, ret, raise}
use openrtc_python.Executor.{
  suc, take, JobStatus, running, success, Script, Call, call_session_end, Ended, teardown,
  callback_calls, after_entrypoint, tear_down, after_session_end, run_job, cleanup, cancel_pending,
}

-- The session ran to its end: the entrypoint returned, and a real live session was held open until
-- a shutdown request and torn down without a cancellation.
abbrev pub completed : Script → Bool
completed s = elim s.entrypoint [
  | raise e ↦ false
  | ret _ ↦
      not (s.live_session && not s.fake_job)
      || (not s.shutdown_cancelled && elim s.teardown_cancelled [ none ↦ true | some n ↦ false ])
]

abbrev pub is_session_end : Call → Bool
is_session_end call_session_end = true
is_session_end _ = false

-- From a running executor the status is `SUCCESS` exactly when the session ran to its end, whatever
-- the session-end hook does after it.
pub run_job-success_iff :
    (s : Script) → ((run_job running s).status ≡ success) ↔ (completed s ≡ true)
unfolding run_job
run_job-success_iff s = ground arith

callback_calls-count : (n : ℕ) (cs : List Bool) → count_if is_session_end (callback_calls n cs) ≡ 0
unfolding callback_calls
callback_calls-count n [] = refl
callback_calls-count n (c ∷ cs) = callback_calls-count (suc n) cs

count_if-take :
    (p : Call → Bool) (n : ℕ) (cs : List Call) → count_if p cs ≡ 0 → count_if p (take n cs) ≡ 0
count_if-take p zero cs h = refl
count_if-take p (suc n) [] h = refl
count_if-take p (suc n) (c ∷ cs) h = ground (arith, count_if-take p n cs)

teardown-count : (s : Script) → count_if is_session_end (teardown s) ≡ 0
unfolding teardown
teardown-count s = omega (
  arith,
  count_if-append is_session_end (callback_calls 0 s.shutdown_callbacks)
      (cancel_pending ∷ cleanup ∷ []),
  callback_calls-count 0 s.shutdown_callbacks,
)

after_entrypoint-count :
    (s : Script) (status : JobStatus) (o : Outcome (Unit {0}))
    → count_if is_session_end (after_entrypoint s status o).calls ≡ 0
unfolding after_entrypoint tear_down
after_entrypoint-count s status (raise e) = ground arith
after_entrypoint-count s status (ret _) = elim (Option-cases s.teardown_cancelled) [
  | inl whole ↦ ground (arith, teardown-count s)
  | inr (n, cut) ↦ ground (arith, count_if-take is_session_end n (teardown s) (teardown-count s))
]

after_session_end-calls :
    (r : Ended) (hook : Outcome (Unit {0}))
    → (after_session_end r (some hook)).calls ≡ r.calls ++ call_session_end ∷ []
unfolding after_session_end
after_session_end-calls r (ret _) = refl
after_session_end-calls r (raise e) = ground arith

-- Once the executor's task has come to the entrypoint, the session-end hook is called exactly once
-- if there is one, and it is the last call, however the session ends: cleanly, by a failed
-- entrypoint, or by a cancellation of the entrypoint, the wait or the teardown.
pub run_job-session_end :
    (status : JobStatus) (s : Script)
    → (hook : Outcome (Unit {0})) → s.session_end ≡ some hook
    → (calls : List Call) × ((run_job status s).calls ≡ calls ++ call_session_end ∷ [])
      × (count_if is_session_end calls ≡ 0)
unfolding run_job
run_job-session_end status s hook h = (
  (after_entrypoint s status s.entrypoint).calls,
  ap (λ o. (after_session_end (after_entrypoint s status s.entrypoint) o).calls) h
      ∙ after_session_end-calls (after_entrypoint s status s.entrypoint) hook,
  after_entrypoint-count s status s.entrypoint,
)
