-- ===== src/Registry.antt =====
-- core/config.py and the registration half of core/pool.py: the agents of a pool, which are added,
-- discovered, looked up and removed, and their state through a spawn.
pub mod Files
pub mod State
pub mod Names
pub mod Discovery
pub mod Spawned
use openrtc_python.Prelude.{
  ◌||◌, ℕ, Bool, true, false, not, Option, none, some, List, [], ◌∷◌, ◌++◌, if◌then◌else◌,
}
use openrtc_python.Prelude.Text.{text_eq, Text, codes, strip, is_empty, starts_with}
use openrtc_python.Prelude.Dict.{Dict, get, put, remove, update, keys}
use openrtc_python.Prelude.Outcome.{
  Outcome, Exc, ret, raise, value_error, type_error, runtime_error, key_error, os_error, ◌>>=◌,
  ◌>>◌,
}
use openrtc_python.Validation.{require_agent_name}
use openrtc_python.TurnHandling.{Any}
use openrtc_python.Serialization.{
  ProviderValue, null, AgentClass, AgentClassRef, build_agent_class_ref, Python,
  serialize_provider_value, deserialize_provider_value, resolve_agent_class,
}

-- `source_path` is absolute and resolved.
pub record AgentConfig : Type 0 where
  pub name : Text
  pub agent_cls : AgentClass
  pub stt : ProviderValue
  pub llm : ProviderValue
  pub tts : ProviderValue
  pub greeting : Option Text
  pub session_kwargs : Dict Any
  pub source_path : Option Text
  pub agent_ref : AgentClassRef

-- `AgentDiscoveryConfig`
pub record DiscoveryConfig : Type 0 where
  pub name : Option Text
  pub stt : ProviderValue
  pub llm : ProviderValue
  pub tts : ProviderValue
  pub greeting : Option Text

-- A metadata field: `None`, a string, or a value of another type.
pub data Field : Type 0 where
  missing : Field
  string : Text → Field
  other : Field

normalize_stripped : Text → Outcome (Option Text)
normalize_stripped value = if is_empty value then raise runtime_error else ret (some value)

unfoldable pub normalize_optional_name : Field → Outcome (Option Text)
unfolding normalize_stripped
normalize_optional_name missing = ret none
normalize_optional_name (string value) = normalize_stripped (strip value)
normalize_optional_name other = raise runtime_error

-- `agent_config(...)`
unfoldable pub agent_config :
    Field → ProviderValue → ProviderValue → ProviderValue → Field → Outcome DiscoveryConfig
agent_config name stt llm tts greeting = normalize_optional_name name >>= λ n.
    normalize_optional_name greeting >>= λ g.
    ret (record { name = n; stt = stt; llm = llm; tts = tts; greeting = g })

abbrev pub no_metadata : DiscoveryConfig
no_metadata = record { name = none; stt = null; llm = null; tts = null; greeting = none }

unfoldable pub resolve_discovery_metadata : Option DiscoveryConfig → DiscoveryConfig
resolve_discovery_metadata none = no_metadata
resolve_discovery_metadata (some metadata) = metadata

-- The pool's registry and its defaults.
pub record Defaults : Type 0 where
  pub stt : ProviderValue
  pub llm : ProviderValue
  pub tts : ProviderValue
  pub greeting : Option Text

-- What `add` is given besides the name: a class, or some other value.
pub record Addition : Type 0 where
  pub agent_cls : AgentClass
  pub stt : ProviderValue
  pub llm : ProviderValue
  pub tts : ProviderValue
  pub greeting : Option Text
  pub session_kwargs : Option (Dict Any)
  pub session_options : Dict Any
  -- before `expanduser` and `resolve`
  pub source_path : Option Text

unfoldable pub resolve_provider : ProviderValue → ProviderValue → ProviderValue
resolve_provider null default_value = default_value
resolve_provider value default_value = value

unfoldable pub resolve_greeting : Option Text → Option Text → Option Text
resolve_greeting none default_value = default_value
resolve_greeting (some greeting) default_value = some greeting

unfoldable pub merge_session_kwargs : Option (Dict Any) → Dict Any → Dict Any
merge_session_kwargs none direct = update [] direct
merge_session_kwargs (some kwargs) direct = update (update [] kwargs) direct

abbrev is_registered : Option AgentConfig → Bool
is_registered none = false
is_registered (some _) = true

module _ (py : Python) (defaults : Defaults) (resolve : Text → Text) where
  -- `AgentConfig(...)` with its `__post_init__`.
  unfoldable pub make_config : Text → Addition → Outcome AgentConfig
  make_config name a =
      let stt = resolve_provider a.stt defaults.stt in
      let llm = resolve_provider a.llm defaults.llm in
      let tts = resolve_provider a.tts defaults.tts in
      build_agent_class_ref a.agent_cls >>= λ agent_ref. serialize_provider_value py stt >>= λ _.
      serialize_provider_value py llm >>= λ _. serialize_provider_value py tts >>= λ _.
      ret (record {
        name = name;
        agent_cls = a.agent_cls;
        stt = stt;
        llm = llm;
        tts = tts;
        greeting = resolve_greeting a.greeting defaults.greeting;
        session_kwargs = merge_session_kwargs a.session_kwargs a.session_options;
        source_path = elim a.source_path [ none ↦ none | some p ↦ some (resolve p) ];
        agent_ref = agent_ref;
      })

  unfoldable pub checked_config : Text → Addition → Dict AgentConfig → Outcome AgentConfig
  checked_config name a agents = require_agent_name name >>= λ normalized.
      if is_registered (get normalized agents)
      then raise value_error
      else if a.agent_cls.is_agent_subclass
      then make_config normalized a
      else raise type_error

  registered : Outcome AgentConfig → Dict AgentConfig → Outcome AgentConfig × Dict AgentConfig
  registered (ret c) agents = (ret c, put c.name c agents)
  registered (raise e) agents = (raise e, agents)

  -- `add` on the livekit backend.
  unfoldable pub add : Text → Addition → Dict AgentConfig → Outcome AgentConfig × Dict AgentConfig
  unfolding registered
  add name a agents = registered (checked_config name a agents) agents

-- `list_agents`
abbrev pub list_agents : Dict AgentConfig → List Text
list_agents agents = keys agents

-- `get`
unfoldable pub get_agent : Text → Dict AgentConfig → Outcome AgentConfig
get_agent name agents = elim (get name agents) [ none ↦ raise key_error | some c ↦ ret c ]

-- `remove`
unfoldable pub remove_agent : Text → Dict AgentConfig → Outcome AgentConfig × Dict AgentConfig
remove_agent name agents = elim (get name agents) [
  | none ↦ (raise key_error, agents)
  | some c ↦ (ret c, remove name agents)
]

-- The guard of `run`.
unfoldable pub check_run : Dict AgentConfig → Outcome (Unit {0})
check_run [] = raise runtime_error
check_run (_ ∷ _) = ret tt
