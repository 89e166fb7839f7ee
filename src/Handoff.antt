-- ===== src/Handoff.antt =====
-- cli/livekit_cli.py and the `main` of cli/main_cli.py: what happens to the arguments and the
-- environment between the OpenRTC command line and LiveKit's own. `sys.argv` without the program's
-- name is a list of texts, `os.environ` a dictionary.
pub mod Stripped
pub mod Positional
pub mod Environment
use openrtc_python.Prelude.{
  ℕ, Bool, true, false, ◌||◌, ◌&&◌, not, Option, none, some, List, [], ◌∷◌, ◌++◌, ◌==◌,
  if◌then◌else◌,
}
use openrtc_python.Prelude.Text.{Text, codes, text_eq, contains, starts_with}
use openrtc_python.Prelude.Dict.{Dict, get, put, remove}
use openrtc_python.Prelude.Outcome.{Outcome}

abbrev pub flags_with_value : List Text
flags_with_value =
    codes "--agents-dir"
    ∷ codes "--default-stt"
    ∷ codes "--default-llm"
    ∷ codes "--default-tts"
    ∷ codes "--default-greeting"
    ∷ codes "--dashboard-refresh"
    ∷ codes "--metrics-json-file"
    ∷ codes "--metrics-jsonl"
    ∷ codes "--metrics-jsonl-interval"
    ∷ codes "--watch-path"
    ∷ []

abbrev pub bool_flags : List Text
bool_flags = codes "--dashboard" ∷ codes "--no-watch" ∷ []

abbrev pub double_dash : Text
double_dash = codes "--"

-- `arg.split("=", 1)[0]`
unfoldable pub before_equals : Text → Text
before_equals [] = []
before_equals (c ∷ s) = if c == b'=' then [] else c ∷ before_equals s

-- `"=" in arg`
unfoldable pub has_equals : Text → Bool
has_equals [] = false
has_equals (c ∷ s) = c == b'=' || has_equals s

abbrev pub takes_value : Text → Bool
takes_value s = contains s flags_with_value

abbrev pub is_switch : Text → Bool
is_switch s = contains s bool_flags

-- What the loop does at one argument.
pub data Treatment : Type 0 where
  stop pass drop drop_with_value : Treatment

unfoldable pub treatment : Text → Treatment
treatment arg =
    if text_eq arg double_dash
    then stop
    else if has_equals arg
    then (if takes_value (before_equals arg) || is_switch (before_equals arg) then drop else pass)
    else if is_switch arg
    then drop
    else if takes_value arg
    then drop_with_value
    else pass

-- The loop from an index on; the first argument is whether the one before took it as its value.
unfoldable pub strip_from : Bool → List Text → List Text
strip_from took [] = []
strip_from true (_ ∷ args) = strip_from false args
strip_from false (arg ∷ args) = elim (treatment arg) [
  | stop ↦ arg ∷ args
  | pass ↦ arg ∷ strip_from false args
  | drop ↦ strip_from false args
  | drop_with_value ↦ strip_from true args
]

unfoldable pub strip_openrtc_only_flags : List Text → List Text
strip_openrtc_only_flags args = strip_from false args

abbrev pub any : (Text → Bool) → List Text → Bool
any p [] = false
any p (x ∷ xs) = p x || any p xs

-- `any(t == flag or t.startswith(flag + "=") for t in rest)`
unfoldable pub has_flag : Text → List Text → Bool
has_flag flag args = any (λ t. text_eq t flag || starts_with t (flag ++ codes "=")) args

abbrev pub is_flag : Text → Bool
is_flag t = starts_with t (codes "-")

abbrev pub agents_dir_flag : Text
agents_dir_flag = codes "--agents-dir"

abbrev pub metrics_flag : Text
metrics_flag = codes "--metrics-jsonl"

unfoldable pub inject_agents_dir_positional : Text → List Text → List Text
inject_agents_dir_positional sub [] = sub ∷ []
inject_agents_dir_positional sub (dir ∷ more) =
    if is_flag dir || has_flag agents_dir_flag (dir ∷ more)
    then sub ∷ dir ∷ more
    else sub ∷ agents_dir_flag ∷ dir ∷ more

-- The arguments behind the agents' directory, with a second path as the metrics' file; the Boolean is
-- `has_metrics_flag`.
unfoldable pub inject_metrics : Bool → List Text → List Text
inject_metrics given [] = []
inject_metrics given (path ∷ more) =
    if not given && not (is_flag path) then metrics_flag ∷ path ∷ more else path ∷ more

unfoldable pub inject_worker : Text → List Text → List Text
inject_worker sub [] = sub ∷ []
inject_worker sub (dir ∷ more) =
    if is_flag dir || has_flag agents_dir_flag (dir ∷ more)
    then sub ∷ dir ∷ more
    else sub ∷ agents_dir_flag ∷ dir ∷ inject_metrics (has_flag metrics_flag (dir ∷ more)) more

abbrev pub worker_commands : List Text
worker_commands = codes "start" ∷ codes "dev" ∷ codes "console" ∷ []

abbrev pub directory_commands : List Text
directory_commands = codes "list" ∷ codes "connect" ∷ codes "download-files" ∷ []

unfoldable pub inject_cli_positional_paths : List Text → List Text
inject_cli_positional_paths [] = []
inject_cli_positional_paths (sub ∷ rest) =
    if contains sub worker_commands
    then inject_worker sub rest
    else if contains sub directory_commands
    then inject_agents_dir_positional sub rest
    else sub ∷ rest

-- `_livekit_sys_argv`, from the arguments behind the program's name to those.
unfoldable pub livekit_sys_argv : Text → List Text → List Text
livekit_sys_argv sub [] = sub ∷ []
livekit_sys_argv sub (first ∷ rest) =
    if text_eq first sub then sub ∷ strip_openrtc_only_flags rest else sub ∷ []

-- What LiveKit's command line is given when `main` runs the worker command `sub` with the arguments.
unfoldable pub handoff : Text → List Text → List Text
handoff sub argv = livekit_sys_argv sub (inject_cli_positional_paths argv)

abbrev pub Environ : Type 0
Environ = Dict Text

abbrev pub livekit_env_override_keys : List Text
livekit_env_override_keys =
    codes "LIVEKIT_URL"
    ∷ codes "LIVEKIT_API_KEY"
    ∷ codes "LIVEKIT_API_SECRET"
    ∷ codes "LIVEKIT_LOG_LEVEL"
    ∷ []

-- `{key: os.environ.get(key) for key in keys}`
unfoldable pub snapshot_env : List Text → Environ → List (Text × Option Text)
snapshot_env [] env = []
snapshot_env (key ∷ keys) env = (key, get key env) ∷ snapshot_env keys env

abbrev pub restore_key : Text → Option Text → Environ → Environ
restore_key key none env = remove key env
restore_key key (some previous) env = put key previous env

unfoldable pub restore_env : List (Text × Option Text) → Environ → Environ
restore_env [] env = env
restore_env ((key, previous) ∷ snapshot) env = restore_env snapshot (restore_key key previous env)

abbrev pub override_key : Text → Option Text → Environ → Environ
override_key key none env = env
override_key key (some value) env = put key value env

-- The options of the command line that override the environment.
pub record Overrides : Type 0 where
  pub url : Option Text
  pub api_key : Option Text
  pub api_secret : Option Text
  pub log_level : Option Text

unfoldable pub overridden : Overrides → Environ → Environ
overridden o env = override_key (codes "LIVEKIT_LOG_LEVEL") o.log_level (
    override_key (codes "LIVEKIT_API_SECRET") o.api_secret (
      override_key (codes "LIVEKIT_API_KEY") o.api_key
        (override_key (codes "LIVEKIT_URL") o.url env)))

-- `with _livekit_env_overrides(...): body`. The body may change the environment, and returns or raises.
unfoldable pub with_env_overrides {ℓ} :
    {A : Type ℓ} → Overrides → (Environ → Outcome A × Environ) → Environ → Outcome A × Environ
with_env_overrides o body env =
    let (result, after) = body (overridden o env) in
    (result, restore_env (snapshot_env livekit_env_override_keys env) after)
