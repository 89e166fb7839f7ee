-- ===== src/Introspection/Lifetime.antt =====
-- `IntrospectionRuntime.start` and `aclose` of observability/introspection_runtime.py, with the task
-- factory of task_attribution.py and the socket of introspection_ipc.py: what is running on the
-- worker's loop. A task factory is named by a number.
use openrtc_python.Prelude.{
  zero_or_pos, inl, inr, ◌<◌, ◌⊎◌, subst, ◌≡◌, refl, ℕ, suc, ◌+◌, ◌-◌, ◌*◌, Bool, true, false,
  Option, none, some, List, [], ◌∷◌, arith,
}
use openrtc_python.Prelude.Outcome.{Outcome, ret, raise}

-- What the loop and the host have of the stack.
pub record Resources : Type 0 where
  pub task_factory : Option ℕ
  -- the sampler threads that run, and the tasks of the memory sampler and of the detector
  pub threads : ℕ
  pub tasks : ℕ
  pub serving : Bool
  -- whether the socket file is there
  pub socket : Bool

-- `running` holds the factory that `restore_task_factory` sets.
pub record Runtime : Type 0 where
  pub running : Option (Option ℕ)
  pub resources : Resources
  pub next_factory : ℕ

-- `install_session_task_factory`: the new factory calls the one before it.
unfoldable pub install_session_task_factory : Runtime → Runtime
install_session_task_factory r = record r {
  resources = record r.resources { task_factory = some r.next_factory };
  next_factory = suc r.next_factory;
}

-- The samplers, and the tasks of the loop.
abbrev pub samplers_started : Resources → Resources
samplers_started s = record s { threads = s.threads + 1; tasks = s.tasks + 2 }

-- `IntrospectionServer.start` removes a stale socket file before it binds.
server_started : Option ℕ → Outcome (Unit {0}) → Runtime → Outcome (Unit {0}) × Runtime
server_started previous (ret _) r = (
  ret tt,
  record r {
    running = some previous;
    resources = record r.resources { serving = true; socket = true };
  },
)
server_started previous (raise e) r =
    (raise e, record r { resources = record r.resources { socket = false } })

start_on : Option (Option ℕ) → Outcome (Unit {0}) → Runtime → Outcome (Unit {0}) × Runtime
start_on (some previous) bound r = (ret tt, r)
start_on none bound r =
    let installed = install_session_task_factory r in
    server_started r.resources.task_factory bound
      (record installed { resources = samplers_started installed.resources })

-- `bound` is what binding the socket does; an error of the removal before it is left out.
unfoldable pub start : Outcome (Unit {0}) → Runtime → Outcome (Unit {0}) × Runtime
unfolding start_on server_started install_session_task_factory
start bound r = start_on r.running bound r

close_on : Option (Option ℕ) → Runtime → Runtime
close_on none r = r
close_on (some previous) r = record r {
  running = none;
  resources = record {
    task_factory = previous;
    threads = r.resources.threads - 1;
    tasks = r.resources.tasks - 2;
    serving = false;
    socket = false;
  };
}

unfoldable pub aclose : Runtime → Runtime
unfolding close_on
aclose r = close_on r.running r

pub data Use : Type 0 where
  starts : Outcome (Unit {0}) → Use
  closes : Use

abbrev pub after : Use → Runtime → Runtime
after (starts bound) r = (start bound r).1
after closes r = aclose r

unfoldable pub run : List Use → Runtime → Runtime
run [] r = r
run (u ∷ uses) r = run uses (after u r)

abbrev pub is_running : Option (Option ℕ) → ℕ
is_running none = 0
is_running (some previous) = 1

-- The starts of an idle runtime whose socket could not be bound.
abbrev failed_on : Option (Option ℕ) → Use → ℕ
failed_on none (starts (raise e)) = 1
failed_on _ _ = 0

unfoldable pub failed_starts : List Use → Runtime → ℕ
failed_starts [] r = 0
failed_starts (u ∷ uses) r = failed_on r.running u + failed_starts uses (after u r)

-- The factory that the loop has, or is given back.
abbrev pub original : Option (Option ℕ) → Option ℕ → Option ℕ
original none now = now
original (some previous) now = previous

-- `k` starts have failed since a loop with the factory `f` had none of the stack.
record Balanced (f : Option ℕ) (k : ℕ) (r : Runtime) : Type 0 where
  pub threads : r.resources.threads ≡ is_running r.running + k
  pub tasks : r.resources.tasks ≡ 2 * (is_running r.running + k)
  pub factory : k ≡ 0 → original r.running r.resources.task_factory ≡ f

module _ (f : Option ℕ) where
  after-Balanced :
      (u : Use) (k : ℕ) (r : Runtime)
      → Balanced f k r
      → Balanced f (k + failed_on r.running u) (after u r)
  unfolding start aclose
  after-Balanced (starts (ret _)) k r b = record {
    threads = ground (arith, b.threads);
    tasks = ground (arith, b.tasks);
    factory = λ h. ground (arith, b.factory (ground (arith, h)));
  }
  after-Balanced (starts (raise e)) k r b = record {
    threads = ground (arith, b.threads);
    tasks = ground (arith, b.tasks);
    factory = λ h. ground (arith, h, b.factory);
  }
  after-Balanced closes k r b = record {
    threads = ground (arith, b.threads);
    tasks = ground (arith, b.tasks);
    factory = λ h. ground (arith, b.factory (ground (arith, h)));
  }

  run-Balanced :
      (uses : List Use) (k : ℕ) (r : Runtime)
      → Balanced f k r
      → Balanced f (k + failed_starts uses r) (run uses r)
  unfolding run failed_starts
  run-Balanced [] k r b = let e : k ≡ k + 0 = omega arith in subst (λ n. Balanced f n r) e b
  run-Balanced (u ∷ uses) k r b =
      let n = failed_on r.running u in
      let e : k + n + failed_starts uses (after u r) ≡ k + (n + failed_starts uses (after u r)) =
        omega arith in
      subst (λ m. Balanced f m (run uses (after u r))) e
        (run-Balanced uses (k + n) (after u r) (after-Balanced u k r b))

  abbrev pub idle : Runtime
  idle = record {
    running = none;
    resources = record {
      task_factory = f;
      threads = 0;
      tasks = 0;
      serving = false;
      socket = false;
    };
    next_factory = 0;
  }

  -- Over any starts and closes on a loop that has none of the stack: as many sampler threads run as
  -- the stack runs and as starts of an idle stack have failed to bind the socket, and twice as many
  -- tasks. If no start failed, the loop has its own task factory while the stack is idle, and the stack
  -- that runs holds it to give it back. What a failed start began is never stopped.
  pub run-leaves :
      (uses : List Use)
      → let r = run uses idle in
        let failed = failed_starts uses idle in
        (r.resources.threads ≡ is_running r.running + failed)
        × (r.resources.tasks ≡ 2 * (is_running r.running + failed))
        × ((0 < failed) ⊎ (original r.running r.resources.task_factory ≡ f))
  run-leaves uses =
      let b =
        run-Balanced uses 0 idle (record { threads = refl; tasks = refl; factory = λ h. refl }) in
      let zero_first : 0 + failed_starts uses idle ≡ failed_starts uses idle = omega arith in
      let c = subst (λ n. Balanced f n (run uses idle)) zero_first b in
      (
        c.threads,
        c.tasks,
        elim (zero_or_pos (failed_starts uses idle)) [
          | inl all_bound ↦ inr (c.factory all_bound)
          | inr some_failed ↦ inl some_failed
        ],
      )
