-- ===== src/CoroutinePool/Drain.antt =====
-- `CoroutinePool.drain`: the loop that awaits the sessions in flight. What happens while the joins of
-- some executors are awaited is a list of actions; all of them end among these, since a `gather` of
-- their joins waits for each.
use openrtc_python.Prelude.{
  ltb→lt, subst, ◌≡◌, refl, ap, ◌∙◌, sym, ℕ, zero, suc, ◌+◌, ◌≤◌, ◌<◌, Bool, true, false, ◌&&◌,
  Option, none, some, List, [], ◌∷◌, All, arith, ◌==◌, if◌then◌else◌, Bool-cases, inl, inr,
}
use openrtc_python.Prelude.Outcome.{ret, raise}
use openrtc_python.Executor.{Executor}
use openrtc_python.CoroutinePool.{
  ltb, CoroutinePool, member, observe_status, on_executor_done, start, launch_job, task_ended,
  begin_drain, aclose, Action, starts, launches, ends, drains, closes, act, run, new_pool,
}
use openrtc_python.CoroutinePool.Accounting.{listed, listed-remove, run-Account_new}
use openrtc_python.CoroutinePool.Draining.{act-Shrinks, run-Shrinks}

abbrev pub World : Type 0
World = List Executor → List Action

-- One test of the loop: on an empty list it ends, else `again` is the rest of it.
unfoldable pub drain_round :
    (CoroutinePool → Option CoroutinePool)
    → World
    → List Executor
    → CoroutinePool
    → Option CoroutinePool
drain_round again world [] p = some p
drain_round again world (x ∷ xs) p = again (run (world (x ∷ xs)) p)

-- `while self._executors`, with fuel.
unfoldable pub drain_loop : World → ℕ → CoroutinePool → Option CoroutinePool
unfolding drain_round
drain_loop world zero p = none
drain_loop world (suc fuel) p = drain_round (drain_loop world fuel) world p.executors p

unfoldable pub drain : World → ℕ → CoroutinePool → Option CoroutinePool
drain world fuel p = drain_loop world fuel (begin_drain p)

abbrev is_end : ℕ → Action → Bool
is_end i (ends id status) = id == i
is_end i _ = false

abbrev pub has_end : ℕ → List Action → Bool
has_end i [] = false
has_end i (a ∷ actions) = if is_end i a then true else has_end i actions

-- Every executor whose join is awaited ends.
abbrev pub EndAll : World → Type 0
EndAll world = (xs : List Executor) → All (λ x. has_end x.id (world xs) ≡ true) xs

listed_member : (i : ℕ) (xs : List Executor) → 0 < listed i xs → member i xs ≡ true
unfolding member
listed_member i [] h = absurd (omega arith)
listed_member i (x ∷ xs) h = ground (arith, listed_member i xs)

-- One action on a draining pool takes an executor off the list at most, and does so if it ends it.
act-listed :
    (i : ℕ) (a : Action) (p : CoroutinePool)
    → p.draining ≡ true
    → listed i (act a p).executors + (if is_end i a && member i p.executors then 1 else 0)
      ≡ listed i p.executors
unfolding start launch_job task_ended on_executor_done observe_status begin_drain aclose
act-listed i (starts (ret _)) p d = ground arith
act-listed i (starts (raise e)) p d = ground arith
act-listed i (launches context job) p d = ground arith
act-listed i (ends id status) p d = ground (arith, listed-remove i id p.executors)
act-listed i drains p d = ground arith
act-listed i closes p d = ground arith

run-listed :
    (i : ℕ) (actions : List Action) (p : CoroutinePool)
    → p.draining ≡ true
    → listed i p.executors ≤ 1
    → (listed i (run actions p).executors ≤ listed i p.executors)
      × (has_end i actions ≡ true → listed i (run actions p).executors ≡ 0)
unfolding run
run-listed i [] p d once = (omega arith, λ h. cc)
run-listed i (a ∷ actions) p d once =
    let here = act-listed i a p d in
    let fewer : listed i (act a p).executors ≤ listed i p.executors = omega (arith, here) in
    let (more, ended) =
      run-listed i actions (act a p) (act-Shrinks a p d).draining (omega (arith, fewer, once)) in
    (
      omega (arith, more, fewer),
      λ h. elim (Bool-cases (is_end i a)) [
        | inl now ↦ elim (Bool-cases (member i p.executors)) [
          | inl known ↦
              let gone : listed i (act a p).executors ≡ 0 =
                ground (arith, here, now, known, once) in
              omega (arith, more, gone)
          | inr unknown ↦
              let gone : listed i p.executors ≡ 0 =
                ground (arith, listed_member i p.executors, unknown) in
              omega (arith, more, fewer, gone)
        ]
        | inr later ↦ ended (rw later at h)
      ],
    )

listed_end :
    (i : ℕ) (xs : List Executor) (actions : List Action)
    → All (λ x. has_end x.id actions ≡ true) xs
    → 0 < listed i xs
    → has_end i actions ≡ true
listed_end i [] actions h some_i = absurd (omega arith)
listed_end i (x ∷ xs) actions h some_i = elim (Bool-cases (x.id == i)) [
  | inl same ↦
      let e : x.id ≡ i = ground (arith, same) in subst (λ j. has_end j actions ≡ true) e h.0
  | inr other ↦ listed_end i xs actions h.1 (ground (arith, some_i, other))
]

none_listed : (xs : List Executor) → ((i : ℕ) → listed i xs ≡ 0) → xs ≡ []
none_listed [] h = refl
none_listed (x ∷ xs) h = absurd (ground (arith, h x.id))

-- After the first wait nobody is left.
everyone_gone :
    (p : CoroutinePool) (actions : List Action)
    → p.draining ≡ true
    → ((i : ℕ) → listed i p.executors ≤ 1)
    → All (λ x. has_end x.id actions ≡ true) p.executors
    → (run actions p).executors ≡ []
everyone_gone p actions d once h = none_listed (run actions p).executors (λ i.
    let (fewer, ended) = run-listed i actions p d (once i) in
    elim (Bool-cases (ltb 0 (listed i p.executors))) [
      | inl here ↦ ended (listed_end i p.executors actions h (ltb→lt _ _ here))
      | inr absent ↦ ground (arith, fewer, absent)
    ])

module _ (world : World) (end_all : EndAll world) where
  drain_loop-empty :
      (fuel : ℕ) (p : CoroutinePool) → p.executors ≡ [] → drain_loop world (suc fuel) p ≡ some p
  unfolding drain_loop drain_round
  drain_loop-empty fuel p e = ap (λ xs. drain_round (drain_loop world fuel) world xs p) e

  drain_loop-ends :
      (fuel : ℕ) (p : CoroutinePool) (xs : List Executor)
      → p.executors ≡ xs
      → p.draining ≡ true
      → ((i : ℕ) → listed i p.executors ≤ 1)
      → (q : CoroutinePool) × (drain_loop world (suc (suc fuel)) p ≡ some q)
        × (q.executors ≡ [])
        × (q.draining ≡ true)
        × (q.next_id ≡ p.next_id)
  unfolding drain_loop drain_round
  drain_loop-ends fuel p [] e d once = (p, drain_loop-empty (suc fuel) p e, e, d, refl)
  drain_loop-ends fuel p (x ∷ xs) e d once =
      let actions = world (x ∷ xs) in
      let q = run actions p in
      let gone =
        everyone_gone p actions d once
          (subst (λ ys. All (λ y. has_end y.id actions ≡ true) ys) (sym e) (end_all (x ∷ xs))) in
      let (d', fewer, none_new) = run-Shrinks actions p d in
      (
        q,
        ap (λ ys. drain_round (drain_loop world (suc fuel)) world ys p) e
            ∙ drain_loop-empty fuel q gone,
        gone,
        d',
        none_new,
      )

  -- For a pool in any state that starts, launches, ends, drains and closes lead to: `drain` returns,
  -- after two tests of its loop at most, whatever else happens while it waits, launches included, if
  -- only each session that it awaits ends. The pool then has no executor, drains, and has made no
  -- executor since.
  pub drain-returns :
      (max_sessions failure_limit fuel : ℕ) (actions : List Action)
      → let p = run actions (new_pool max_sessions failure_limit) in
        (q : CoroutinePool) × (drain world (suc (suc fuel)) p ≡ some q)
        × (q.executors ≡ [])
        × (q.draining ≡ true)
        × (q.next_id ≡ p.next_id)
  unfolding drain begin_drain
  drain-returns max_sessions failure_limit fuel actions =
      let p = run actions (new_pool max_sessions failure_limit) in
      drain_loop-ends fuel (begin_drain p) p.executors refl refl (λ i.
        let (once, balanced) = run-Account_new i max_sessions failure_limit actions in
        omega (arith, once, balanced))
