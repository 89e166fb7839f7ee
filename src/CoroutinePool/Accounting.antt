-- ===== src/CoroutinePool/Accounting.antt =====
-- The lifecycle events of `CoroutinePool`: every executor announced is closed once, or still
-- listed.
use openrtc_python.Prelude.{
  Bool-cases, ℕ, suc, ◌+◌, ◌≤◌, ◌≡◌, refl, Bool, true, false, not, ◌&&◌, List, [], ◌∷◌, ◌++◌, arith,
  ◌==◌, if◌then◌else◌, count_if, count_if-append, ap, ◌∙◌, inl, inr,
}
use openrtc_python.Prelude.Outcome.{Outcome, ret, raise, runtime_error, is_exception}
use openrtc_python.Executor
use openrtc_python.Executor.{JobStatus, Executor, new_executor}
use openrtc_python.CoroutinePool.{
  Event, process_created, process_closed, process_started, process_ready, process_job_launched,
  CoroutinePool, emit, member, remove, observe_status, on_executor_done, start, launched, announce,
  launch_job, task_ended, begin_drain, aclose, Action, starts, launches, ends, drains, closes, act,
  run, new_pool,
}

abbrev is_created : Event → Bool
is_created process_created = true
is_created _ = false

abbrev is_closed : Event → Bool
is_closed process_closed = true
is_closed _ = false

id_kept :
    (context : Outcome (Unit {0})) (job id : ℕ)
    → (Executor.launch_job context job (new_executor id)).1.id ≡ id
unfolding Executor.launch_job new_executor
id_kept (ret _) job id = refl
id_kept (raise e) job id = refl

module _ (i : ℕ) where
  -- How often the executor `i` was announced, closed, and is listed.
  abbrev pub created : List (Event × ℕ) → ℕ
  created = count_if (λ e. is_created e.0 && e.1 == i)

  abbrev pub closed : List (Event × ℕ) → ℕ
  closed = count_if (λ e. is_closed e.0 && e.1 == i)

  abbrev pub listed : List Executor → ℕ
  listed = count_if (λ x. x.id == i)

  pub record Account (p : CoroutinePool) : Type 0 where
    pub fresh : p.next_id ≤ i → created p.emitted ≡ 0
    pub once : created p.emitted ≤ 1
    pub balanced : created p.emitted ≡ closed p.emitted + listed p.executors

  created-append :
      (es : List (Event × ℕ)) (e : Event × ℕ)
      → created (es ++ e ∷ []) ≡ created es + (if is_created e.0 && e.1 == i then 1 else 0)
  created-append es e = count_if-append (λ x. is_created x.0 && x.1 == i) es (e ∷ []) ∙ ground arith

  closed-append :
      (es : List (Event × ℕ)) (e : Event × ℕ)
      → closed (es ++ e ∷ []) ≡ closed es + (if is_closed e.0 && e.1 == i then 1 else 0)
  closed-append es e = count_if-append (λ x. is_closed x.0 && x.1 == i) es (e ∷ []) ∙ ground arith

  listed-append :
      (xs : List Executor) (x : Executor)
      → listed (xs ++ x ∷ []) ≡ listed xs + (if x.id == i then 1 else 0)
  listed-append xs x = count_if-append (λ x. x.id == i) xs (x ∷ []) ∙ ground arith

  pub listed-remove :
      (id : ℕ) (xs : List Executor)
      → listed (remove id xs) + (if member id xs && id == i then 1 else 0) ≡ listed xs
  unfolding remove member
  listed-remove id [] = refl
  listed-remove id (x ∷ xs) = ground (arith, listed-remove id xs)

  observe_status-parts :
      (status : JobStatus) (p : CoroutinePool)
      → ((observe_status status p).emitted ≡ p.emitted)
        × ((observe_status status p).executors ≡ p.executors)
        × ((observe_status status p).next_id ≡ p.next_id)
  unfolding observe_status
  observe_status-parts status p = ground arith

  on_executor_done-Account :
      (id : ℕ) (status : JobStatus) (p : CoroutinePool)
      → Account p
      → Account (on_executor_done id status p)
  unfolding on_executor_done
  on_executor_done-Account id status p a = elim (Bool-cases (member id p.executors)) [
    | inl known ↦
        let q = emit process_closed id (record p { executors = remove id p.executors }) in
        let (e, x, n) = observe_status-parts status q in
        let c = created-append p.emitted (process_closed, id) in
        let d = closed-append p.emitted (process_closed, id) in
        let l = listed-remove id p.executors in
        rw known (record {
          fresh = λ h. ap created e ∙ c ∙ omega (arith, a.fresh (omega (arith, n)));
          once = omega (arith, ap created e, c, a.once);
          balanced = ground (arith, ap created e, ap closed e, ap listed x, c, d, l, a.balanced);
        })
    | inr unknown ↦ rw unknown a
  ]

  emit-Account :
      (event : Event) (id : ℕ) (p : CoroutinePool)
      → is_created event ≡ false
      → is_closed event ≡ false
      → Account p
      → Account (emit event id p)
  emit-Account event id p nc nd a =
      let c = created-append p.emitted (event, id) in
      let d = closed-append p.emitted (event, id) in
      record {
        fresh = λ h. c ∙ ground (arith, a.fresh h);
        once = ground (arith, c, a.once);
        balanced = ground (arith, c, d, a.balanced);
      }

  -- The new executor, announced as created and put on the list.
  enlist : Executor → CoroutinePool → CoroutinePool
  enlist x p =
      emit process_created p.next_id
        (record p { executors = p.executors ++ x ∷ []; next_id = suc p.next_id })

  enlist-Account :
      (x : Executor) (p : CoroutinePool) → x.id ≡ p.next_id → Account p → Account (enlist x p)
  unfolding enlist
  enlist-Account x p same a =
      let c = created-append p.emitted (process_created, p.next_id) in
      let d = closed-append p.emitted (process_created, p.next_id) in
      let l = listed-append p.executors x in
      record {
        fresh = λ h. c ∙ ground (arith, a.fresh (omega (arith, h)));
        once = ground (arith, c, a.once, a.fresh);
        balanced = ground (arith, c, d, l, a.balanced);
      }

  ready-Account :
      (x : Executor) (p : CoroutinePool)
      → x.id ≡ p.next_id
      → Account p
      → Account (emit process_ready p.next_id (emit process_started p.next_id (enlist x p)))
  ready-Account x p same a =
      emit-Account process_ready p.next_id _ refl refl
        (emit-Account process_started p.next_id _ refl refl (enlist-Account x p same a))

  launched-Account :
      (r : Outcome (Unit {0}) × Executor) (p : CoroutinePool)
      → r.1.id ≡ p.next_id
      → Account p
      → Account (launched r (announce p.next_id p)).1
  unfolding launched announce enlist
  launched-Account (ret _, x) p same a =
      emit-Account process_job_launched x.id _ refl refl (ready-Account x p same a)
  launched-Account (raise e, x) p same a = elim (Bool-cases (is_exception e)) [
    | inl caught ↦ rw caught (on_executor_done-Account x.id x.status _ (ready-Account x p same a))
    | inr through ↦ rw through (ready-Account x p same a)
  ]

  if-Account :
      (b : Bool) (r s : Outcome (Unit {0}) × CoroutinePool)
      → Account r.1
      → Account s.1
      → Account (if b then r else s).1
  if-Account true r s a c = a
  if-Account false r s a c = c

  launch_job-Account :
      (context : Outcome (Unit {0})) (job : ℕ) (p : CoroutinePool)
      → Account p
      → Account (launch_job context job p).1
  unfolding launch_job
  launch_job-Account context job p a =
      if-Account (not p.started) (raise runtime_error, p) _ a
        (if-Account p.draining (raise runtime_error, p) _ a
          (launched-Account (Executor.launch_job context job (new_executor p.next_id)) p
            (id_kept context job p.next_id) a))

  act-Account : (action : Action) (p : CoroutinePool) → Account p → Account (act action p)
  unfolding start begin_drain aclose task_ended
  act-Account (starts (ret _)) p a = record {
    fresh = a.fresh;
    once = a.once;
    balanced = a.balanced;
  }
  act-Account (starts (raise e)) p a = if-Account p.started (ret tt, p) (raise e, p) a a
  act-Account (launches context job) p a = launch_job-Account context job p a
  act-Account (ends id status) p a = on_executor_done-Account id status p a
  act-Account drains p a = record { fresh = a.fresh; once = a.once; balanced = a.balanced }
  act-Account closes p a = record { fresh = a.fresh; once = a.once; balanced = a.balanced }

  run-Account : (actions : List Action) (p : CoroutinePool) → Account p → Account (run actions p)
  unfolding run
  run-Account [] p a = a
  run-Account (action ∷ actions) p a = run-Account actions (act action p) (act-Account action p a)

  -- From a new pool, through any starts, launches that work or fail, ends, drains and closes: every
  -- executor is announced as created at most once, and as closed exactly as often, less once while
  -- it is still listed.
  pub run-Account_new :
      (max_sessions failure_limit : ℕ) (actions : List Action)
      → let p = run actions (new_pool max_sessions failure_limit) in
        (created p.emitted ≤ 1) × (created p.emitted ≡ closed p.emitted + listed p.executors)
  unfolding new_pool
  run-Account_new max_sessions failure_limit actions =
      let a =
        run-Account actions (new_pool max_sessions failure_limit)
          (record { fresh = λ h. refl; once = omega arith; balanced = refl }) in
      (a.once, a.balanced)
