-- ===== src/Tests/Registry.antt =====
-- A pool with one agent, whose speech provider is a plugin, and a directory of agent files.
use openrtc_python.Prelude.{
  ◌≡◌, refl, ℕ, Bool, true, false, none, some, List, [], ◌∷◌, ◌++◌, ◌⊎◌, ℕ_discrete,
}
use openrtc_python.Prelude.Text.{Text, Text-discrete, codes, strip, lstrip, is_space}
use openrtc_python.Prelude.Dict.{Dict}
use openrtc_python.Prelude.Outcome.{Exc, ret, raise, value_error}
use openrtc_python.Validation.{
  number, natural, floating, require_agent_name, require_positive_int, require_non_negative_number,
  validate_isolation,
}
use openrtc_python.Serialization.{
  Python, AgentClass, OptionValue, Provider, null, plain, provider, is_not_given,
  is_provider_ref_key, resolve_qualname, resolve_parts, split_dots, resolve_agent_class,
}
use openrtc_python.Serialization.Providers.{given_options, respawned}
use openrtc_python.Registry.{
  AgentConfig, Defaults, Addition, add, list_agents, get_agent, remove_agent,
}
use openrtc_python.Registry.Files.{AgentFile, discover_files}
use openrtc_python.Registry.State.{State, get_state, set_state}
use openrtc_python.Registry.Names.{
  Step, adds, removes, IsRegistry, run_steps, run_steps-IsRegistry, add-cases,
}
use openrtc_python.Registry.Discovery.{wanted, Discovered, discover_files-Discovered}
use openrtc_python.Registry.Spawned.{are_spawn_safe, respawned_config, set_state-get_state}
use openrtc_python.Construction.{
  imports, imported, Options, Pool, given_agents, server_params, strip_optional,
  resolve_backend_builder, add_observers, add_agents, check_hot_reload, exclusive, new_pool,
  livekit_agents,
}
use openrtc_python.Construction.Accepted.{IsAccepted, new_pool-IsAccepted}

abbrev sales_class : AgentClass
sales_class = record {
  cls_module = codes "app";
  cls_qualname = codes "Sales";
  source_file = ret none;
  is_agent_subclass = true;
}

abbrev made : Text → Text → Dict OptionValue → Provider
made m q kwargs = record { cls_module = m; cls_qualname = q; opts = some (some kwargs); object = 9 }

abbrev stt_module : Text
stt_module = codes "livekit.plugins.openai.stt"

abbrev python : Python
python = record {
  dumps = λ v. ret tt;
  getattr = λ m part. ret 7;
  call = λ cls kwargs modules. (ret (provider (made stt_module (codes "STT") kwargs)), modules);
  class_of = λ cls. sales_class;
  file_of = λ m. none;
  import_module = λ m modules. (ret 5, modules);
  spec = λ m path. some 6;
  exec_module = λ m modules. (ret tt, modules);
}

abbrev language : OptionValue
language = record {
  is_openai_not_given = false;
  type_name = codes "str";
  type_module = codes "builtins";
  value = 3;
}

abbrev unset : OptionValue
unset = record {
  is_openai_not_given = true;
  type_name = codes "NotGiven";
  type_module = codes "openai";
  value = 0;
}

abbrev stt : Provider
stt = made stt_module (codes "STT") ((codes "prompt", unset) ∷ (codes "language", language) ∷ [])

abbrev sales : AgentConfig
sales = record {
  name = codes "sales";
  agent_cls = sales_class;
  stt = provider stt;
  llm = plain 4;
  tts = null;
  greeting = none;
  session_kwargs = [];
  source_path = none;
  agent_ref = record { module_name = codes "app"; qualname = codes "Sales"; module_path = none };
}

set_state-get_state_example :
    ((s : State) × (get_state python sales ≡ ret s)
      × (are_spawn_safe python sales ≡ true)
      × (set_state python s [] ≡ respawned_config python sales []))
    ⊎ ((e : Exc) × (get_state python sales ≡ raise e) × (are_spawn_safe python sales ≡ false))
set_state-get_state_example = set_state-get_state python sales []

-- The new process makes the provider of its one given option.
sales_respawned : respawned_config python sales [] ≡ (
  ret (record sales {
    stt = provider (made stt_module (codes "STT") ((codes "language", language) ∷ []));
  }),
  [],
)
unfolding respawned_config respawned given_options is_provider_ref_key is_not_given resolve_qualname
    resolve_parts split_dots resolve_agent_class Text-discrete ℕ_discrete
sales_respawned = refl

abbrev defaults : Defaults
defaults = record { stt = null; llm = plain 1; tts = null; greeting = none }

abbrev addition : Addition
addition = record {
  agent_cls = sales_class;
  stt = provider stt;
  llm = null;
  tts = null;
  greeting = none;
  session_kwargs = none;
  session_options = [];
  source_path = none;
}

add-cases_example :
    let (result, after) = add python defaults (λ p. p) (codes " sales") addition [] in
    ((c : AgentConfig) × (result ≡ ret c)
      × (require_agent_name (codes " sales") ≡ ret c.name)
      × (list_agents after ≡ [] ++ c.name ∷ [])
      × (get_agent c.name after ≡ ret c)
      × (remove_agent c.name after ≡ (ret c, []))
      × ((b : Addition) → add python defaults (λ p. p) c.name b after ≡ (raise value_error, after)))
    ⊎ ((e : Exc) × (result ≡ raise e) × (after ≡ []))
add-cases_example = add-cases python defaults (λ p. p) (codes " sales") addition []

abbrev steps : List (Step python defaults (λ p. p))
steps =
    adds (codes "sales") addition ∷ adds (codes "sales") addition ∷ removes (codes "support") ∷ []

run_steps-IsRegistry_example : IsRegistry (run_steps python defaults (λ p. p) steps [])
run_steps-IsRegistry_example = run_steps-IsRegistry python defaults (λ p. p) steps [] (tt, tt)

abbrev files : List AgentFile
files =
    record {
      path = codes "/a/__init__.py";
      file_name = codes "__init__.py";
      stem = codes "__init__";
      loaded = raise value_error;
    }
    ∷ record {
      path = codes "/a/sales.py";
      file_name = codes "sales.py";
      stem = codes "sales";
      loaded = ret (sales_class, none);
    }
    ∷ []

discover_files-Discovered_example :
    Discovered (wanted files) [] [] (discover_files python defaults (λ p. p) files [] [])
discover_files-Discovered_example = discover_files-Discovered python defaults (λ p. p) files [] []

-- Floats by their sign and magnitude.
abbrev below_zero : Bool × ℕ → Bool
below_zero x = x.0

abbrev to_float : ℕ → Bool × ℕ
to_float n = (false, n)

abbrev options : Options (Bool × ℕ)
options = record {
  agent = none;
  agents = none;
  observers = (3, true) ∷ [];
  backend = codes "livekit";
  isolation = codes "coroutine";
  max_concurrent_sessions = number (natural 50);
  consecutive_failure_limit = number (natural 5);
  drain_timeout = number (natural 30);
  memory_warn_mb = number (floating (false, 1000));
  memory_limit_mb = number (natural 0);
  enable_hot_reload = true;
  has_request_fnc = false;
  accept_only_registered_rooms = true;
  agent_name = none;
  max_sessions_per_agent = none;
  max_sessions_per_tenant = none;
  deployment_version = some (codes " v2");
}

abbrev pool : Pool (Bool × ℕ)
pool = record {
  backend = codes "livekit";
  isolation = codes "coroutine";
  params = record {
    max_concurrent_sessions = 50;
    consecutive_failure_limit = 5;
    drain_timeout = 30;
    memory_warn_mb = (false, 1000);
    memory_limit_mb = (false, 0);
  };
  deployment_version = some (codes "v2");
  agent_name = none;
  observers = 3 ∷ [];
  agents = livekit_agents [];
  agent_caps = [];
  tenant_caps = [];
}

new_pool-IsAccepted_example : IsAccepted below_zero options pool
unfolding new_pool exclusive validate_isolation server_params require_positive_int
    require_non_negative_number strip_optional strip lstrip is_space resolve_backend_builder
    imported add_observers add_agents given_agents check_hot_reload Text-discrete ℕ_discrete
new_pool-IsAccepted_example =
    new_pool-IsAccepted below_zero to_float (λ name. imports) python defaults (λ p. p) options pool
      (λ n. refl) refl
