-- ===== src/Tests/Handoff.antt =====
-- Command lines of `openrtc dev`, and an environment with one variable set.
use openrtc_python.Prelude.{ℕ, ◌≡◌, refl, true, false, none, some, List, [], ◌∷◌, if◌then◌else◌}
use openrtc_python.Prelude.Text.{Text, Text-discrete, codes, contains, starts_with}
use openrtc_python.Prelude.Dict.{get, remove}
use openrtc_python.Prelude.Outcome.{raise, runtime_error, Outcome}
use openrtc_python.Handoff.{
  before_equals, has_equals, treatment, strip_from, strip_openrtc_only_flags, has_flag,
  agents_dir_flag, metrics_flag, inject_metrics, inject_worker, inject_cli_positional_paths,
  livekit_sys_argv, handoff, livekit_env_override_keys, Environ, Overrides, overridden,
  with_env_overrides,
}
use openrtc_python.Handoff.Stripped.{
  Piece, livekit, switch, assigned, option, ArePieces, command_line,
  strip_openrtc_only_flags-command_line,
}
use openrtc_python.Handoff.Positional.{paths, handoff-paths}
use openrtc_python.Handoff.Environment.{with_env_overrides-restores}

abbrev pieces : List Piece
pieces =
    livekit (codes "--reload")
    ∷ option (codes "--default-greeting") (codes "--hello")
    ∷ assigned (codes "--metrics-jsonl-interval=2")
    ∷ switch (codes "--dashboard")
    ∷ livekit (codes "--url")
    ∷ livekit (codes "ws://a")
    ∷ []

abbrev behind : List Text
behind = codes "--" ∷ codes "--dashboard" ∷ []

pieces-ArePieces : ArePieces pieces
unfolding before_equals has_equals contains Text-discrete
pieces-ArePieces = (
  (refl, refl, refl),
  (refl, ((refl, refl), (refl, ((refl, refl, refl), ((refl, refl, refl), tt))))),
)

strip_openrtc_only_flags-command_line_example :
    strip_openrtc_only_flags (command_line pieces behind)
    ≡ codes "--reload" ∷ codes "--url" ∷ codes "ws://a" ∷ strip_openrtc_only_flags behind
strip_openrtc_only_flags-command_line_example =
    strip_openrtc_only_flags-command_line pieces behind pieces-ArePieces

abbrev reload : List Piece
reload = livekit (codes "--reload") ∷ switch (codes "--no-watch") ∷ []

reload-ArePieces : ArePieces reload
unfolding before_equals contains Text-discrete
reload-ArePieces = ((refl, refl, refl), (refl, tt))

abbrev agents : Text
agents = codes "./agents"

abbrev metrics : Text
metrics = codes "m.jsonl"

is_dev : contains (codes "dev") (codes "start" ∷ codes "dev" ∷ codes "console" ∷ []) ≡ true
unfolding contains Text-discrete
is_dev = refl

no_dash : starts_with agents (codes "-") ≡ false
unfolding starts_with
no_dash = refl

no_dash_metrics : starts_with metrics (codes "-") ≡ false
unfolding starts_with
no_dash_metrics = refl

no_agents_dir : has_flag agents_dir_flag (agents ∷ metrics ∷ command_line reload []) ≡ false
unfolding has_flag starts_with Text-discrete
no_agents_dir = refl

no_metrics : has_flag metrics_flag (agents ∷ metrics ∷ command_line reload []) ≡ false
unfolding has_flag starts_with Text-discrete
no_metrics = refl

handoff-paths_example :
    (handoff (codes "dev") (codes "dev" ∷ agents ∷ metrics ∷ command_line reload [])
      ≡ codes "dev" ∷ codes "--reload" ∷ strip_openrtc_only_flags [])
    × (handoff (codes "dev") (codes "dev" ∷ agents ∷ metrics ∷ command_line reload [])
        ≡ handoff
            (codes "dev")
            (codes "dev" ∷ command_line (paths agents metrics) (command_line reload [])))
handoff-paths_example =
    handoff-paths (codes "dev") agents metrics reload [] is_dev no_dash no_dash_metrics
      no_agents_dir no_metrics reload-ArePieces

-- `--isolation` and `--max-concurrent-sessions` are options of OpenRTC's and not in the lists.
isolation_kept :
    handoff (codes "dev") (codes "dev" ∷ agents ∷ codes "--isolation" ∷ codes "process" ∷ [])
    ≡ codes "dev" ∷ codes "--isolation" ∷ codes "process" ∷ []
unfolding handoff livekit_sys_argv inject_cli_positional_paths inject_worker inject_metrics
    strip_openrtc_only_flags strip_from treatment before_equals has_equals has_flag contains
    starts_with Text-discrete
isolation_kept = refl

abbrev url : Text
url = codes "LIVEKIT_URL"

abbrev env : Environ
env = (url, codes "ws://old") ∷ []

abbrev overrides : Overrides
overrides = record {
  url = some (codes "ws://new");
  api_key = some (codes "key");
  api_secret = none;
  log_level = none;
}

-- A body that raises, with the URL unset.
abbrev body : Environ → Outcome ℕ × Environ
body e = (raise runtime_error, remove url e)

with_env_overrides-restores_example :
    let (result, after) = with_env_overrides overrides body env in
    let left = body (overridden overrides env) in
    (get url after
      ≡ (if contains url livekit_env_override_keys then get url env else get url left.1))
    × (result ≡ left.0)
with_env_overrides-restores_example = with_env_overrides-restores overrides body env url
