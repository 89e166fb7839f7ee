-- ===== src/CoroutinePool/Supervisor.antt =====
-- `CoroutinePool._observe_executor_status`: when the failure supervisor is called.
use openrtc_python.Prelude.{
  ℕ, suc, ◌+◌, ◌≤◌, ◌≡◌, refl, List, [], ◌∷◌, ◌++◌, arith, leb, ◌==◌, if◌then◌else◌, replicate, sym,
}
use mathlib.Core.List.{append-nil, append_assoc}
use openrtc_python.Executor.{JobStatus, running, success, failed}
use openrtc_python.CoroutinePool.{CoroutinePool, is_success, observe_status}

-- The statuses that finished executors report, in order.
unfoldable pub observe_all : List JobStatus → CoroutinePool → CoroutinePool
observe_all [] p = p
observe_all (status ∷ more) p = observe_all more (observe_status status p)

-- How often a streak of failures, `n` long so far, grows to exactly `limit`.
unfoldable pub alarms : ℕ → ℕ → List JobStatus → ℕ
alarms limit n [] = 0
alarms limit n (status ∷ more) =
    if is_success status
    then alarms limit 0 more
    else if (n + 1) == limit
    then suc (alarms limit (n + 1) more)
    else alarms limit (n + 1) more

-- The failures at the end, after a streak of `n`.
unfoldable pub streak : ℕ → List JobStatus → ℕ
streak n [] = n
streak n (status ∷ more) = streak (if is_success status then 0 else n + 1) more

-- The flag says that the streak has reached the limit.
abbrev pub IsArmed : CoroutinePool → Type 0
IsArmed p = p.failure_limit_fired ≡ leb p.consecutive_failure_limit p.consecutive_failures

observe_status-step :
    (status : JobStatus) (p : CoroutinePool)
    → 1 ≤ p.consecutive_failure_limit
    → IsArmed p
    → let after = observe_status status p in
      let n = p.consecutive_failures + 1 in
      IsArmed after
      × (after.consecutive_failures ≡ (if is_success status then 0 else n))
      × (after.consecutive_failure_limit ≡ p.consecutive_failure_limit)
      × (after.supervisor_calls ≡ (
          if is_success status
          then p.supervisor_calls
          else if n == p.consecutive_failure_limit
          then p.supervisor_calls ++ p.consecutive_failure_limit ∷ []
          else p.supervisor_calls))
unfolding observe_status
observe_status-step running p pos armed = ground arith
observe_status-step success p pos armed = ground arith
observe_status-step failed p pos armed = ground arith

append-replicate :
    (xs : List ℕ) (n a : ℕ) → (xs ++ a ∷ []) ++ replicate n a ≡ xs ++ replicate (suc n) a
append-replicate xs n a = append_assoc xs (a ∷ []) (replicate n a)

-- The supervisor callback runs once for each streak of consecutive non-successes that reaches the
-- limit, at the failure that reaches it and with the limit as its argument; a success ends the
-- streak. The failure count is the length of the streak at the end.
pub observe_all-alarms :
    (statuses : List JobStatus) (p : CoroutinePool)
    → 1 ≤ p.consecutive_failure_limit
    → IsArmed p
    → let limit = p.consecutive_failure_limit in
      let after = observe_all statuses p in
      (after.supervisor_calls
        ≡ p.supervisor_calls ++ replicate (alarms limit p.consecutive_failures statuses) limit)
      × (after.consecutive_failures ≡ streak p.consecutive_failures statuses)
unfolding observe_all alarms streak
observe_all-alarms [] p pos armed = (sym (append-nil p.supervisor_calls), refl)
observe_all-alarms (status ∷ more) p pos armed =
    let after = observe_status status p in
    let (armed', n, same, calls) = observe_status-step status p pos armed in
    let pos' : 1 ≤ after.consecutive_failure_limit = omega arith in
    let (later, left) = observe_all-alarms more after pos' armed' in
    let limit = p.consecutive_failure_limit in
    let n' = p.consecutive_failures + 1 in
    ground (
      arith,
      later,
      left,
      n,
      same,
      calls,
      append-replicate p.supervisor_calls (alarms limit n' more) limit,
    )
