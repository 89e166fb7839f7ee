-- ===== src/Handoff/Positional.antt =====
-- `main` of cli/main_cli.py for a worker command: the positional paths are rewritten into flags, which
-- the handoff then strips again.
use openrtc_python.Prelude.{◌≡◌, refl, ap, ◌∙◌, sym, true, false, List, [], ◌∷◌, arith}
use openrtc_python.Prelude.Text.{Text, Text-discrete, text_eq, contains, starts_with}
use openrtc_python.Handoff.{
  strip_openrtc_only_flags, has_flag, is_flag, agents_dir_flag, metrics_flag, inject_metrics,
  inject_worker, worker_commands, inject_cli_positional_paths, livekit_sys_argv, handoff,
}
use openrtc_python.Handoff.Stripped.{
  Piece, option, ArePieces, command_line, livekit_args, strip_openrtc_only_flags-command_line,
}

text_eq_self : (s : Text) → text_eq s s ≡ true
text_eq_self s = ground arith

-- The two paths as the flags that they stand for.
abbrev pub paths : Text → Text → List Piece
paths dir path = option agents_dir_flag dir ∷ option metrics_flag path ∷ []

paths-ArePieces : (dir path : Text) → ArePieces (paths dir path)
unfolding contains Text-discrete
paths-ArePieces dir path = (refl, (refl, tt))

handoff_injected :
    (sub : Text) (args rest : List Text)
    → inject_cli_positional_paths (sub ∷ args) ≡ sub ∷ rest
    → handoff sub (sub ∷ args) ≡ sub ∷ strip_openrtc_only_flags rest
unfolding handoff livekit_sys_argv
handoff_injected sub args rest h = rw h (rw (text_eq_self sub))

inject_paths :
    (sub dir path : Text) (line : List Text)
    → contains sub worker_commands ≡ true
    → is_flag dir ≡ false
    → is_flag path ≡ false
    → has_flag agents_dir_flag (dir ∷ path ∷ line) ≡ false
    → has_flag metrics_flag (dir ∷ path ∷ line) ≡ false
    → inject_cli_positional_paths (sub ∷ dir ∷ path ∷ line)
      ≡ sub ∷ agents_dir_flag ∷ dir ∷ metrics_flag ∷ path ∷ line
unfolding inject_cli_positional_paths inject_worker inject_metrics
inject_paths sub dir path line worker dir_ok path_ok no_dir no_metrics =
    rw (worker, dir_ok, no_dir, no_metrics, path_ok)

inject_flag :
    (sub : Text) (line : List Text)
    → contains sub worker_commands ≡ true
    → inject_cli_positional_paths (sub ∷ agents_dir_flag ∷ line) ≡ sub ∷ agents_dir_flag ∷ line
unfolding inject_cli_positional_paths inject_worker starts_with
inject_flag sub line worker = rw worker

-- A worker command with its two paths written as positional arguments hands LiveKit its own
-- arguments and neither path, and so the same as with `--agents-dir` and `--metrics-jsonl` written out.
-- The paths do not start with `-`, and neither flag stands among the arguments.
pub handoff-paths :
    (sub dir path : Text) (ps : List Piece) (tail : List Text)
    → contains sub worker_commands ≡ true
    → is_flag dir ≡ false
    → is_flag path ≡ false
    → has_flag agents_dir_flag (dir ∷ path ∷ command_line ps tail) ≡ false
    → has_flag metrics_flag (dir ∷ path ∷ command_line ps tail) ≡ false
    → ArePieces ps
    → let line = command_line ps tail in
      (handoff sub (sub ∷ dir ∷ path ∷ line)
        ≡ sub ∷ livekit_args ps (strip_openrtc_only_flags tail))
      × (handoff sub (sub ∷ dir ∷ path ∷ line)
          ≡ handoff sub (sub ∷ command_line (paths dir path) line))
handoff-paths sub dir path ps tail worker dir_ok path_ok no_dir no_metrics pieces =
    let line = command_line ps tail in
    let all = command_line (paths dir path) line in
    let own = strip_openrtc_only_flags-command_line ps tail pieces in
    let stripped =
      strip_openrtc_only_flags-command_line (paths dir path) line (paths-ArePieces dir path)
      ∙ own in
    let by_paths =
      handoff_injected sub (dir ∷ path ∷ line) all
        (inject_paths sub dir path line worker dir_ok path_ok no_dir no_metrics) in
    let by_flags =
      handoff_injected sub all all (inject_flag sub (dir ∷ metrics_flag ∷ path ∷ line) worker) in
    (by_paths ∙ ap (◌∷◌ sub) stripped, by_paths ∙ sym by_flags)
