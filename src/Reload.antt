-- ===== src/Reload.antt =====
-- reload/: the live-session registry, the pins, the re-import of a module with its rollback, the
-- re-bind of live sessions, and the coordinator. Classes, modules and sessions are named by numbers.
pub mod Module
pub mod Pins
pub mod Rebind
pub mod Caught
pub mod Coordinator
use openrtc_python.Prelude.{
  map, length, ℕ, suc, ◌+◌, Bool, true, false, not, Option, none, some, List, [], ◌∷◌, ◌++◌, ◌==◌,
  if◌then◌else◌,
}
use openrtc_python.Prelude.Text.{Text, text_eq}
use openrtc_python.Prelude.Dict.{Dict, get, get_or, put, remove}
use openrtc_python.Watcher.{FileChange, is_deleted}
use openrtc_python.Prelude.Outcome.{Outcome, ret, raise, Exc, os_error, syntax_error, is_exception}

-- session_registry.py: of a `SessionInfo` the registry reads the job id and the agent's name.
pub record Entry : Type 0 where
  pub agent_name : Text
  pub session : ℕ

abbrev pub LiveSessionRegistry : Type 0
LiveSessionRegistry = Dict Entry

pub data SessionEvent : Type 0 where
  on_session_start : Text → Text → ℕ → SessionEvent
  on_session_end : Text → SessionEvent

unfoldable pub observe : SessionEvent → LiveSessionRegistry → LiveSessionRegistry
observe (on_session_start job_id agent_name session) r =
    put job_id (record { agent_name = agent_name; session = session }) r
observe (on_session_end job_id) r = remove job_id r

unfoldable pub observe_all : List SessionEvent → LiveSessionRegistry → LiveSessionRegistry
observe_all [] r = r
observe_all (e ∷ es) r = observe_all es (observe e r)

unfoldable pub sessions_for : Text → LiveSessionRegistry → List ℕ
sessions_for name [] = []
sessions_for name ((job_id, e) ∷ r) =
    let rest = sessions_for name r in if text_eq e.agent_name name then e.session ∷ rest else rest

-- pin.py: the set of pinned sessions.
unfoldable pub is_pinned : ℕ → List ℕ → Bool
is_pinned s [] = false
is_pinned s (p ∷ pins) = if p == s then true else is_pinned s pins

unfoldable pub pin : ℕ → List ℕ → List ℕ
unfolding is_pinned
pin s pins = if is_pinned s pins then pins else s ∷ pins

unfoldable pub unpin : ℕ → List ℕ → List ℕ
unpin s [] = []
unpin s (p ∷ pins) = let rest = unpin s pins in if p == s then rest else p ∷ rest

-- `with pin_reload(session): body`, whose body may pin and unpin, and may raise.
unfoldable pub pin_reload :
    {A : Type 0} → ℕ → (List ℕ → Outcome A × List ℕ) → List ℕ → Outcome A × List ℕ
pin_reload s body pins = let (result, after) = body (pin s pins) in (result, unpin s after)

-- module_reloader.py: what reading the file, compiling it and executing it do.
pub record Attempt : Type 0 where
  pub read_text : Outcome (Unit {0})
  pub compile : Outcome (Unit {0})
  pub has_spec : Bool
  pub new_module : ℕ
  -- `exec` and `_select_agent_class`, on the loaded modules with the new one among them; the code may
  -- import modules and change what is loaded
  pub execute : Dict ℕ → Outcome ℕ × Dict ℕ

-- `none` where the status is `failed`, which has no class.
abbrev pub ReloadResult : Type 0
ReloadResult = Option ℕ

restore : Text → Option ℕ → Dict ℕ → Dict ℕ
restore module_name none modules = remove module_name modules
restore module_name (some old) modules = put module_name old modules

executed : Text → Option ℕ → Outcome ℕ × Dict ℕ → Outcome ReloadResult × Dict ℕ
unfolding restore
executed module_name old (ret new_cls, modules) = (ret (some new_cls), modules)
executed module_name old (raise e, modules) =
    if is_exception e then (ret none, restore module_name old modules) else (raise e, modules)

install : Text → Attempt → Dict ℕ → Outcome ReloadResult × Dict ℕ
unfolding executed
install module_name a modules =
    if a.has_spec
    then executed module_name (get module_name modules)
        (a.execute (put module_name a.new_module modules))
    else (ret none, modules)

compiled : Text → Attempt → Dict ℕ → Outcome (Unit {0}) → Outcome ReloadResult × Dict ℕ
unfolding install
compiled module_name a modules (ret _) = install module_name a modules
compiled module_name a modules (raise syntax_error) = (ret none, modules)
compiled module_name a modules (raise e) = (raise e, modules)

was_read : Text → Attempt → Dict ℕ → Outcome (Unit {0}) → Outcome ReloadResult × Dict ℕ
unfolding compiled
was_read module_name a modules (ret _) = compiled module_name a modules a.compile
was_read module_name a modules (raise os_error) = (ret none, modules)
was_read module_name a modules (raise e) = (raise e, modules)

unfoldable pub reload_agent_module : Text → Attempt → Dict ℕ → Outcome ReloadResult × Dict ℕ
unfolding was_read
reload_agent_module module_name a modules = was_read module_name a modules a.read_text

pub data ReloadStatus : Type 0 where
  swapped failed : ReloadStatus

pub record ReloadEvent : Type 0 where
  pub agent_name : Text
  pub status : ReloadStatus
  pub sessions_swapped : ℕ
  pub source_path : Text

-- A registered agent, under its name.
pub record AgentEntry : Type 0 where
  pub agent_cls : ℕ
  pub source_path : Option Text

-- One round of `_configs_by_source_path`.
add_config : Text → Option Text → Dict (List Text) → Dict (List Text)
add_config name none by_path = by_path
add_config name (some path) by_path = put path (get_or path [] by_path ++ name ∷ []) by_path

-- `_configs_by_source_path`, by the agents' names, under which the configs are registered.
unfoldable pub configs_by_source_path : Dict AgentEntry → Dict (List Text) → Dict (List Text)
unfolding add_config
configs_by_source_path [] by_path = by_path
configs_by_source_path ((name, config) ∷ agents) by_path =
    configs_by_source_path agents (add_config name config.source_path by_path)

-- livekit's side: the state of the live sessions, the class of a session's current agent, and
-- `session.update_agent(new_cls())`, which may raise.
pub record Livekit : Type 1 where
  pub Live : Type 0
  pub current_agent : ℕ → Live → ℕ
  pub update_agent : ℕ → ℕ → Live → Outcome (Unit {0}) × Live

module _ (l : Livekit) where
  open l use {Live, current_agent, update_agent}

  -- An update that raised is logged; the count grows for one that returned.
  tried : Outcome (Unit {0}) × Live → Outcome ℕ × Live
  tried (ret _, live) = (ret 1, live)
  tried (raise e, live) = if is_exception e then (ret 0, live) else (raise e, live)

  rebind_one : ℕ → (ℕ → Bool) → ℕ → Live → Outcome ℕ × Live
  unfolding tried
  rebind_one new_cls pinned s live =
      if pinned s
      then (ret 0, live)
      else if current_agent s live == new_cls
      then (ret 0, live)
      else tried (update_agent s new_cls live)

  add_count : ℕ → Outcome ℕ × Live → Outcome ℕ × Live
  add_count n (ret m, live) = (ret (n + m), live)
  add_count n (raise e, live) = (raise e, live)

  -- The loop of `rebind_agent`; an exception that is no `Exception` ends it.
  rebind_rest : Outcome ℕ × Live → (Live → Outcome ℕ × Live) → Outcome ℕ × Live
  unfolding add_count
  rebind_rest (ret n, live) more = add_count n (more live)
  rebind_rest (raise e, live) more = (raise e, live)

  unfoldable pub rebind_sessions : ℕ → (ℕ → Bool) → List ℕ → Live → Outcome ℕ × Live
  unfolding rebind_one rebind_rest
  rebind_sessions new_cls pinned [] live = (ret 0, live)
  rebind_sessions new_cls pinned (s ∷ ss) live =
      rebind_rest (rebind_one new_cls pinned s live) (rebind_sessions new_cls pinned ss)

  -- The new class is registered in any case: see `swap_class`.
  unfoldable pub rebind_agent : ℕ → ℕ → (ℕ → Bool) → List ℕ → Live → Outcome ℕ × Live
  rebind_agent old_cls new_cls pinned sessions live =
      if new_cls == old_cls then (ret 0, live) else rebind_sessions new_cls pinned sessions live

  pub record World : Type 0 where
    pub agents : Dict AgentEntry
    pub live : Live
    pub modules : Dict ℕ
    pub reports : List ReloadEvent
    -- the paths and agents of deletions, which are logged
    pub kept : List (Text × Text)

  abbrev report : Text → ReloadStatus → ℕ → Text → World → World
  report name status n path w = record w {
    reports =
        w.reports
        ++ record { agent_name = name; status = status; sessions_swapped = n; source_path = path }
          ∷ [];
  }

  -- `config.agent_cls = new_cls`
  abbrev swap_class : Text → AgentEntry → ℕ → World → World
  swap_class name config new_cls w = record w {
    agents = put name (record config { agent_cls = new_cls }) w.agents;
  }

  module _ (module_name : Text → Text) (attempts : ℕ → Text → Attempt) (pinned : ℕ → Bool)
      (registry : LiveSessionRegistry) where
    rebound : Text → Text → Outcome ℕ × Live → World → Outcome (Unit {0}) × World
    rebound name path (ret n, live) w =
        (ret tt, report name swapped n path (record w { live = live }))
    rebound name path (raise e, live) w = (raise e, record w { live = live })

    reloaded :
        Text
        → Text
        → AgentEntry
        → Outcome ReloadResult × Dict ℕ
        → World
        → Outcome (Unit {0}) × World
    unfolding rebound
    reloaded name path config (ret none, modules) w =
        (ret tt, report name failed 0 path (record w { modules = modules }))
    reloaded name path config (ret (some new_cls), modules) w =
        rebound name path
          (rebind_agent config.agent_cls new_cls pinned (sessions_for name registry) w.live)
          (swap_class name config new_cls (record w { modules = modules }))
    reloaded name path config (raise e, modules) w = (raise e, record w { modules = modules })

    -- The attempt of a reload is given by the number of those that were reported before it.
    unfoldable pub reload_one : Text → Text → World → Outcome (Unit {0}) × World
    unfolding reloaded
    reload_one path name w = elim (get name w.agents) [
      | none ↦ (ret tt, w)
      | some config ↦
          let a = attempts (length w.reports) path in
          reloaded name path config (reload_agent_module (module_name path) a w.modules) w
    ]

    then_also :
        Outcome (Unit {0}) × World
        → (World → Outcome (Unit {0}) × World)
        → Outcome (Unit {0}) × World
    then_also (ret _, w) more = more w
    then_also (raise e, w) more = (raise e, w)

    -- The inner loop of `on_change`, for one change that is no deletion.
    unfoldable pub reload_all : Text → List Text → World → Outcome (Unit {0}) × World
    unfolding then_also
    reload_all path [] w = (ret tt, w)
    reload_all path (name ∷ names) w = then_also (reload_one path name w) (reload_all path names)

    -- A deletion is logged for each of its agents.
    on_one : FileChange → List Text → World → Outcome (Unit {0}) × World
    on_one c names w =
        if is_deleted c.change_type
        then (ret tt, record w { kept = w.kept ++ map (λ name. (c.path, name)) names })
        else reload_all c.path names w

    unfoldable pub on_changes :
        Dict (List Text) → List FileChange → World → Outcome (Unit {0}) × World
    unfolding on_one then_also
    on_changes by_path [] w = (ret tt, w)
    on_changes by_path (c ∷ changes) w =
        then_also (on_one c (get_or c.path [] by_path) w) (on_changes by_path changes)

    unfoldable pub on_change : List FileChange → World → Outcome (Unit {0}) × World
    on_change changes w = on_changes (configs_by_source_path w.agents []) changes w
