-- ===== src/Registry/Files.antt =====
-- core/pool.py: `discover`, over the agent files of a directory.
use openrtc_python.Prelude.{◌||◌, Bool, not, Option, none, some, List, [], ◌∷◌, ◌++◌, if◌then◌else◌}
use openrtc_python.Prelude.Text.{text_eq, Text, codes, is_empty, starts_with}
use openrtc_python.Prelude.Dict.{Dict}
use openrtc_python.Prelude.Outcome.{Outcome, ret, raise, os_error}
use openrtc_python.Serialization.{AgentClass, Python}
use openrtc_python.Registry.{
  AgentConfig, Defaults, Addition, DiscoveryConfig, resolve_discovery_metadata, add,
}

-- A `.py` file of the directory: its path, name and stem, and what loading it gives, the class
-- with its metadata, or an exception of the loading or of the search.
pub record AgentFile : Type 0 where
  pub path : Text
  pub file_name : Text
  pub stem : Text
  pub loaded : Outcome (AgentClass × Option DiscoveryConfig)

unfoldable pub is_skipped : AgentFile → Bool
is_skipped f = text_eq f.file_name (codes "__init__.py") || starts_with f.stem (codes "_")

-- `metadata.name or module_path.stem`
unfoldable pub discovered_name : Option Text → Text → Text
discovered_name none stem = stem
discovered_name (some name) stem = if is_empty name then stem else name

abbrev pub discovered_addition : Text → AgentClass → DiscoveryConfig → Addition
discovered_addition path agent_cls metadata = record {
  agent_cls = agent_cls;
  stt = metadata.stt;
  llm = metadata.llm;
  tts = metadata.tts;
  greeting = metadata.greeting;
  session_kwargs = none;
  session_options = [];
  source_path = some path;
}

module _ (py : Python) (defaults : Defaults) (resolve : Text → Text) where
  unfoldable pub add_loaded :
      AgentFile
      → Outcome (AgentClass × Option DiscoveryConfig)
      → Dict AgentConfig
      → Outcome AgentConfig × Dict AgentConfig
  add_loaded f (raise e) agents = (raise e, agents)
  add_loaded f (ret (agent_cls, attached)) agents =
      let metadata = resolve_discovery_metadata attached in
      add py defaults resolve (discovered_name metadata.name f.stem)
        (discovered_addition f.path agent_cls metadata) agents

  -- The rest of the files, after one that was added.
  unfoldable pub and_then :
      Outcome AgentConfig × Dict AgentConfig
      → (List AgentConfig → Dict AgentConfig → Outcome (List AgentConfig) × Dict AgentConfig)
      → List AgentConfig
      → Outcome (List AgentConfig) × Dict AgentConfig
  and_then (raise e, agents) more found = (raise e, agents)
  and_then (ret c, agents) more found = more (found ++ c ∷ []) agents

  -- The loop of `discover`, over the sorted files.
  unfoldable pub discover_files :
      List AgentFile
      → List AgentConfig
      → Dict AgentConfig
      → Outcome (List AgentConfig) × Dict AgentConfig
  unfolding add_loaded and_then
  discover_files [] found agents = (ret found, agents)
  discover_files (f ∷ files) found agents =
      let rest = discover_files files found agents in
      let on = and_then (add_loaded f f.loaded agents) (discover_files files) found in
      if is_skipped f then rest else on

  -- `discover`, on a path that exists or not, and is a directory or not.
  unfoldable pub discover :
      Bool
      → Bool
      → List AgentFile
      → Dict AgentConfig
      → Outcome (List AgentConfig) × Dict AgentConfig
  discover exists is_dir files agents =
      if not exists
      then (raise os_error, agents)
      else if not is_dir
      then (raise os_error, agents)
      else discover_files files [] agents
