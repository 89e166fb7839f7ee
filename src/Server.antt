-- ===== src/Server.antt =====
-- runtime/coroutine_server.py: what a run of `_CoroutineAgentServer` patches and starts, and what it
-- puts back. LiveKit's own run is a parameter, as is what awaiting the watch task raises.
use openrtc_python.Prelude.{
  ◌≡◌, refl, ℕ, Bool, true, false, Option, none, some, ◌⊎◌, inl, inr, length,
}
use openrtc_python.Prelude.Outcome.{Outcome, Exc, ret, raise}
use openrtc_python.Watcher
use openrtc_python.Watcher.{FileWatcher, new_watcher, stopped}
use openrtc_python.CoroutinePool.{CoroutinePool, new_pool}

-- What `ipc.proc_pool.ProcPool` names: LiveKit's class, or the factory of coroutine pools.
pub data PoolClass : Type 0 where
  proc_pool : PoolClass
  coroutine_pool : PoolClass

-- What `_load_fnc` names: the function that was given, or the load of the coroutine pool.
pub data LoadFnc : Type 0 where
  given : ℕ → LoadFnc
  coroutine_load : LoadFnc

pub record Server : Type 0 where
  pub max_concurrent_sessions : ℕ
  pub consecutive_failure_limit : ℕ
  pub pool_class : PoolClass
  pub load_fnc : LoadFnc
  pub coroutine_pool : Option CoroutinePool
  -- whether `attach_reload` was called
  pub reloads : Bool
  pub reload_watcher : Option FileWatcher

-- `ProcPool(...)` where the factory is in place; the limits of the server go to the pool.
unfoldable pub build_pool : Server → Server
build_pool s = record s {
  coroutine_pool = some (new_pool s.max_concurrent_sessions s.consecutive_failure_limit);
}

-- The load as a fraction.
unfoldable pub coroutine_load_fnc : Server → ℕ × ℕ
coroutine_load_fnc s = elim s.coroutine_pool [
  | none ↦ (0, 1)
  | some p ↦ (length p.executors, p.max_concurrent_sessions)
]

abbrev pub Body : Type 0
Body = Server → Outcome (Unit {0}) × Server

unfoldable pub patched_proc_pool : Body → Body
patched_proc_pool body s =
    let (result, after) =
      body (record s { pool_class = PoolClass.coroutine_pool; load_fnc = coroutine_load }) in
    (result, record after { pool_class = s.pool_class; load_fnc = s.load_fnc })

abbrev stop_watcher : Option FileWatcher → Option FileWatcher
stop_watcher none = none
stop_watcher (some w) = some (Watcher.stop w)

-- The `finally` block: an exception of the stop takes the place of the body's result, and the watcher
-- stays in its attribute.
abbrev pub end_watching :
    Outcome (Unit {0}) → Outcome (Unit {0}) × Server → Outcome (Unit {0}) × Server
end_watching (raise e) (result, s) =
    (raise e, record s { reload_watcher = stop_watcher s.reload_watcher })
end_watching (ret _) (result, s) = (result, record s { reload_watcher = none })

abbrev watching :
    Outcome (Unit {0})
    → Body
    → Server
    → Outcome (Unit {0}) × FileWatcher
    → Outcome (Unit {0}) × Server
watching watch body s (raise e, w) = (raise e, record s { reload_watcher = some w })
watching watch body s (ret _, w) = end_watching watch (body (record s { reload_watcher = some w }))

abbrev watch_if : Bool → Outcome (Unit {0}) → Body → Body
watch_if false watch body s = body s
watch_if true watch body s = watching watch body s (Watcher.start new_watcher)

unfoldable pub reload_watching : Outcome (Unit {0}) → Body → Body
reload_watching watch body s = watch_if s.reloads watch body s

-- `run`, with what awaiting the cancelled watch task gives.
unfoldable pub run : Outcome (Unit {0}) → Body → Body
run watch super_run s = reload_watching watch (patched_proc_pool super_run) s

-- However LiveKit's run ends, and whatever it leaves: behind the block the module's pool class and the
-- server's load function are those from before. With reload on, either the result is LiveKit's and
-- the watcher is gone, or the watch task had failed, whose exception is the result.
run-restores :
    (watch : Outcome (Unit {0})) (super_run : Body) (s : Server)
    → let (result, after) = run watch super_run s in
      (after.pool_class ≡ s.pool_class)
      × (after.load_fnc ≡ s.load_fnc)
      × ((s.reloads ≡ false)
          ⊎ ((after.reload_watcher ≡ none) ⊎ ((e : Exc) × (watch ≡ raise e) × (result ≡ raise e))))
unfolding run reload_watching patched_proc_pool Watcher.start
run-restores watch super_run s = restored s.reloads watch
  where
    restored :
        (b : Bool) (x : Outcome (Unit {0}))
        → let (result, after) = watch_if b x (patched_proc_pool super_run) s in
          (after.pool_class ≡ s.pool_class)
          × (after.load_fnc ≡ s.load_fnc)
          × ((b ≡ false)
              ⊎ ((after.reload_watcher ≡ none) ⊎ ((e : Exc) × (x ≡ raise e) × (result ≡ raise e))))
    restored false x = (refl, refl, inl refl)
    restored true (ret _) = (refl, refl, inr (inl refl))
    restored true (raise e) = (refl, refl, inr (inr (e, refl, refl)))
