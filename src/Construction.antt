-- ===== src/Construction.antt =====
-- core/pool.py, the constructor of `AgentPool` with its checks, and the choice of a backend in
-- backends/registry.py.
pub mod Checks
pub mod Accepted
use openrtc_python.Prelude.{
  ℕ, Bool, true, false, not, ◌&&◌, ◌||◌, Option, none, some, List, [], ◌∷◌, ◌++◌, if◌then◌else◌,
}
use openrtc_python.Prelude.Text.{Text, codes, strip, is_empty, text_eq}
use openrtc_python.Prelude.Dict.{Dict, get, put}
use openrtc_python.Prelude.Outcome.{
  Outcome, Exc, ret, raise, value_error, type_error, import_error, module_not_found, ◌>>=◌, ◌>>◌,
}
use openrtc_python.Validation.{
  Argument, require_positive_int, require_non_negative_number, validate_isolation,
  require_agent_name, require_tenant_id,
}
use openrtc_python.Serialization.{ProviderValue, null, AgentClass, Python}
use openrtc_python.Registry.{AgentConfig, Defaults, Addition, add}

-- What importing a backend's module does: nothing more, an exception, or a `ModuleNotFoundError`
-- with the first part of the missing module's name.
pub data Import : Type 0 where
  imports : Import
  misses : Text → Import
  fails : Exc → Import

unfoldable pub imported : Text → Import → Outcome (Unit {0})
imported extra imports = ret tt
imported extra (misses root) =
    if text_eq root extra then raise import_error else raise module_not_found
imported extra (fails e) = raise e

abbrev is_known_backend : Text → Bool
is_known_backend name = text_eq name (codes "livekit") || text_eq name (codes "pipecat")

-- The extra of a backend is its name.
unfoldable pub resolve_backend_builder : (Text → Import) → Text → Outcome (Unit {0})
unfolding imported
resolve_backend_builder import_backend name =
    if is_known_backend name then imported name (import_backend name) else raise value_error

-- An agent given to the constructor: as a class, and as a callable.
pub record AgentObject : Type 0 where
  pub agent_cls : AgentClass
  pub is_callable : Bool
  pub object : ℕ

-- The registry of the pool's backend.
pub data Agents : Type 0 where
  livekit_agents : Dict AgentConfig → Agents
  pipecat_builders : Dict ℕ → Agents

abbrev pub plain_addition : AgentClass → Addition
plain_addition agent_cls = record {
  agent_cls = agent_cls;
  stt = null;
  llm = null;
  tts = null;
  greeting = none;
  session_kwargs = none;
  session_options = [];
  source_path = none;
}

-- `PipecatBackend.register`
register_new : Text → ℕ → Dict ℕ → Option ℕ → Outcome (Dict ℕ)
register_new name builder builders none = ret (put name builder builders)
register_new name builder builders (some _) = raise value_error

unfoldable pub register : Text → ℕ → Dict ℕ → Outcome (Dict ℕ)
unfolding register_new
register name builder builders = register_new name builder builders (get name builders)

-- `_register_pipeline_builder`, on a name that was checked.
unfoldable pub register_pipeline_builder : Text → AgentObject → Dict ℕ → Outcome (Dict ℕ)
unfolding register
register_pipeline_builder name o builders =
    if o.is_callable then register name o.object builders else raise type_error

-- A dict comprehension over the caps, with the check of its keys.
unfoldable pub check_caps :
    {F : Type 0} → (Text → Outcome Text) → List (Text × Argument F) → Dict ℕ → Outcome (Dict ℕ)
check_caps require_name [] checked = ret checked
check_caps require_name ((name, cap) ∷ caps) checked = require_name name >>= λ n.
    require_positive_int cap >>= λ c. check_caps require_name caps (put n c checked)

abbrev check_optional_caps :
    {F : Type 0} → (Text → Outcome Text) → Option (List (Text × Argument F)) → Outcome (Dict ℕ)
check_optional_caps require_name none = ret []
check_optional_caps require_name (some caps) = check_caps require_name caps []

-- `deployment_version` and `agent_name`: stripped, and not empty when set.
unfoldable pub strip_optional : Option Text → Outcome (Option Text)
strip_optional none = ret none
strip_optional (some value) =
    if is_empty (strip value) then raise value_error else ret (some (strip value))

-- A given observer, and whether it has the two methods of the protocol. Those that introspection and
-- hot reload add are not among them.
unfoldable pub add_observers : List (ℕ × Bool) → List ℕ → Outcome (List ℕ)
add_observers [] added = ret added
add_observers ((observer, is_session_observer) ∷ observers) added =
    if is_session_observer
    then add_observers observers (added ++ observer ∷ [])
    else raise type_error

pub record Options (F : Type 0) : Type 0 where
  pub agent : Option AgentObject
  pub agents : Option (List (Text × AgentObject))
  pub observers : List (ℕ × Bool)
  pub backend : Text
  pub isolation : Text
  pub max_concurrent_sessions : Argument F
  pub consecutive_failure_limit : Argument F
  pub drain_timeout : Argument F
  pub memory_warn_mb : Argument F
  pub memory_limit_mb : Argument F
  pub enable_hot_reload : Bool
  pub has_request_fnc : Bool
  pub accept_only_registered_rooms : Bool
  pub agent_name : Option Text
  pub max_sessions_per_agent : Option (List (Text × Argument F))
  pub max_sessions_per_tenant : Option (List (Text × Argument F))
  pub deployment_version : Option Text

pub record ServerParams (F : Type 0) : Type 0 where
  pub max_concurrent_sessions : ℕ
  pub consecutive_failure_limit : ℕ
  pub drain_timeout : ℕ
  pub memory_warn_mb : F
  pub memory_limit_mb : F

pub record Pool (F : Type 0) : Type 0 where
  pub backend : Text
  pub isolation : Text
  pub params : ServerParams F
  pub deployment_version : Option Text
  pub agent_name : Option Text
  pub observers : List ℕ
  pub agents : Agents
  pub agent_caps : Dict ℕ
  pub tenant_caps : Dict ℕ

abbrev pub both : {A B : Type 0} → Option A → Option B → Bool
both (some _) (some _) = true
both _ _ = false

-- Two options that are not given together.
unfoldable pub exclusive : Bool → Outcome (Unit {0})
exclusive given_both = if given_both then raise value_error else ret tt

abbrev no_agents : Text → Agents
no_agents backend =
    if text_eq backend (codes "livekit") then livekit_agents [] else pipecat_builders []

-- `_setup_hot_reload`, the guards.
unfoldable pub check_hot_reload : Bool → Text → Text → Outcome (Unit {0})
check_hot_reload enabled backend isolation =
    if not enabled
    then ret tt
    else if not (text_eq backend (codes "livekit"))
    then raise value_error
    else if not (text_eq isolation (codes "coroutine"))
    then raise value_error
    else ret tt

module _ {F : Type 0} (below_zero : F → Bool) (to_float : ℕ → F) (import_backend : Text → Import)
    (py : Python) (defaults : Defaults) (resolve : Text → Text) where
  added : Outcome AgentConfig × Dict AgentConfig → Outcome Agents
  added (ret c, agents) = ret (livekit_agents agents)
  added (raise e, agents) = raise e

  -- `self.add(name, agent)`
  unfoldable pub add_agent : Text → AgentObject → Agents → Outcome Agents
  unfolding added
  add_agent name o (livekit_agents agents) =
      added (add py defaults resolve name (plain_addition o.agent_cls) agents)
  add_agent name o (pipecat_builders builders) = require_agent_name name >>= λ n.
      register_pipeline_builder n o builders >>= λ more. ret (pipecat_builders more)

  unfoldable pub add_agents : List (Text × AgentObject) → Agents → Outcome Agents
  add_agents [] agents = ret agents
  add_agents ((name, o) ∷ more) agents = add_agent name o agents >>= add_agents more

  -- Both are never given.
  unfoldable pub given_agents : Options F → List (Text × AgentObject)
  given_agents o = elim o.agent [
    | some a ↦ (codes "default", a) ∷ []
    | none ↦ elim o.agents [ none ↦ [] | some agents ↦ agents ]
  ]

  unfoldable pub server_params : Options F → Outcome (ServerParams F)
  server_params o = require_positive_int o.max_concurrent_sessions >>= λ sessions.
      require_positive_int o.consecutive_failure_limit >>= λ failures.
      require_positive_int o.drain_timeout >>= λ timeout.
      require_non_negative_number below_zero to_float o.memory_warn_mb >>= λ warn.
      require_non_negative_number below_zero to_float o.memory_limit_mb >>= λ limit. ret (record {
        max_concurrent_sessions = sessions;
        consecutive_failure_limit = failures;
        drain_timeout = timeout;
        memory_warn_mb = warn;
        memory_limit_mb = limit;
      })

  -- `AgentPool(...)`, its checks in order.
  unfoldable pub new_pool : Options F → Outcome (Pool F)
  unfolding server_params given_agents
  new_pool o = exclusive (o.has_request_fnc && o.accept_only_registered_rooms) >>= λ _.
      exclusive (both o.agent o.agents) >>= λ _. validate_isolation o.isolation >>= λ isolation.
      server_params o >>= λ params. strip_optional o.deployment_version >>= λ version.
      strip_optional o.agent_name >>= λ name.
      resolve_backend_builder import_backend o.backend >>= λ _.
      add_observers o.observers [] >>= λ observers.
      add_agents (given_agents o) (no_agents o.backend) >>= λ agents.
      check_optional_caps require_agent_name o.max_sessions_per_agent >>= λ agent_caps.
      check_optional_caps require_tenant_id o.max_sessions_per_tenant >>= λ tenant_caps.
      check_hot_reload o.enable_hot_reload o.backend o.isolation >>= λ _. ret (record {
        backend = o.backend;
        isolation = isolation;
        params = params;
        deployment_version = version;
        agent_name = name;
        observers = observers;
        agents = agents;
        agent_caps = agent_caps;
        tenant_caps = tenant_caps;
      })
