-- ===== src/Watcher.antt =====
-- runtime/file_watcher.py: `FileWatcher`, its debounce buffer and its lifecycle, and the discovery of
-- the modules to watch. A path is the text of the resolved path.
pub mod Collapse
pub mod Debounce
pub mod Ending
use openrtc_python.Prelude.{
  Bool, true, false, not, ◌&&◌, ◌||◌, Option, none, some, List, [], ◌∷◌, ◌++◌, if◌then◌else◌, map,
}
use openrtc_python.Prelude.Text.{Text, contains, is_empty}
use openrtc_python.Prelude.Dict.{Dict, get_or, put}
use openrtc_python.Prelude.Outcome.{Outcome, ret, raise, Exc, runtime_error, os_error}

pub data ChangeType : Type 0 where
  created modified deleted : ChangeType

pub record FileChange : Type 0 where
  pub path : Text
  pub change_type : ChangeType

abbrev pub is_deleted : ChangeType → Bool
is_deleted deleted = true
is_deleted _ = false

abbrev pub is_created : ChangeType → Bool
is_created created = true
is_created _ = false

-- `any(p(x) for x in xs)`
unfoldable pub any_type : (ChangeType → Bool) → List ChangeType → Bool
any_type p [] = false
any_type p (t ∷ ts) = p t || any_type p ts

-- The first loop of `_collapse_changes`.
unfoldable pub group : List FileChange → Dict (List ChangeType) → Dict (List ChangeType)
group [] by_path = by_path
group (c ∷ changes) by_path =
    group changes (put c.path (get_or c.path [] by_path ++ c.change_type ∷ []) by_path)

unfoldable pub choose : List ChangeType → ChangeType
choose types =
    if any_type is_deleted types
    then deleted
    else if any_type is_created types
    then created
    else modified

abbrev pub collapsed_entry : Text × List ChangeType → FileChange
collapsed_entry (path, types) = record { path = path; change_type = choose types }

unfoldable pub collapse_changes : List FileChange → List FileChange
collapse_changes changes = map collapsed_entry (group changes [])

-- What `watchfiles` reports, with a kind that is known or not.
unfoldable pub batch_of : (Text → Text) → List (Option ChangeType × Text) → List FileChange
batch_of resolve [] = []
batch_of resolve ((none, raw) ∷ changes) = batch_of resolve changes
batch_of resolve ((some kind, raw) ∷ changes) =
    record { path = resolve raw; change_type = kind } ∷ batch_of resolve changes

pub data WatcherState : Type 0 where
  new running stopped : WatcherState

-- The flush task: none or ended, asleep, or awaiting `on_change` with its argument.
pub data Flush : Type 0 where
  idle asleep : Flush
  awaiting : List FileChange → Flush

pub record FileWatcher : Type 0 where
  pub state : WatcherState
  pub pending : List FileChange
  pub flush_task : Flush
  -- the arguments of the calls of `on_change`, those whose call ended, and those whose call was
  -- cancelled
  pub calls : List (List FileChange)
  pub completed : List (List FileChange)
  pub cancelled : List (List FileChange)

abbrev pub new_watcher : FileWatcher
new_watcher = record {
  state = new;
  pending = [];
  flush_task = idle;
  calls = [];
  completed = [];
  cancelled = [];
}

-- `start`: a second one changes nothing, and there is none after a stop.
start_from : WatcherState → FileWatcher → Outcome (Unit {0}) × FileWatcher
start_from new w = (ret tt, record w { state = running })
start_from running w = (ret tt, w)
start_from stopped w = (raise runtime_error, w)

unfoldable pub start : FileWatcher → Outcome (Unit {0}) × FileWatcher
unfolding start_from
start w = start_from w.state w

-- `self._flush_task.cancel()`
cancel_flush : Flush → FileWatcher → FileWatcher
cancel_flush idle w = w
cancel_flush asleep w = record w { flush_task = idle }
cancel_flush (awaiting batch) w = record w {
  flush_task = idle;
  cancelled = w.cancelled ++ batch ∷ [];
}

stop_from : WatcherState → FileWatcher → FileWatcher
unfolding cancel_flush
stop_from stopped w = w
stop_from _ w = record (cancel_flush w.flush_task w) {
  state = stopped;
  pending = [];
  flush_task = idle;
}

unfoldable pub stop : FileWatcher → FileWatcher
unfolding stop_from
stop w = stop_from w.state w

-- `_handle_change_batch`, which the watch loop calls with a batch that is not empty.
unfoldable pub handle_change_batch : List FileChange → FileWatcher → FileWatcher
unfolding cancel_flush
handle_change_batch batch w = record (cancel_flush w.flush_task w) {
  pending = w.pending ++ batch;
  flush_task = asleep;
}

-- `_flush_after`, from the end of its sleep to the call of `on_change`.
begin_call : List FileChange → FileWatcher → FileWatcher
begin_call [] w = record w { pending = []; flush_task = idle }
begin_call (c ∷ cs) w = record w {
  pending = [];
  flush_task = awaiting (c ∷ cs);
  calls = w.calls ++ (c ∷ cs) ∷ [];
}

flush_from : Flush → FileWatcher → FileWatcher
unfolding begin_call
flush_from asleep w = begin_call (collapse_changes w.pending) w
flush_from _ w = w

unfoldable pub flush : FileWatcher → FileWatcher
unfolding flush_from
flush w = flush_from w.flush_task w

-- `on_change` returns, or raises an `Exception`, which is logged.
end_call : Flush → FileWatcher → FileWatcher
end_call (awaiting batch) w = record w { flush_task = idle; completed = w.completed ++ batch ∷ [] }
end_call _ w = w

unfoldable pub callback_ends : FileWatcher → FileWatcher
unfolding end_call
callback_ends w = end_call w.flush_task w

pub data Step : Type 0 where
  starts stops wakes ends : Step
  -- a batch from the watch loop: a first change and more
  changes : FileChange → List FileChange → Step

-- The watch loop runs between a start and a stop.
changes_in : WatcherState → List FileChange → FileWatcher → FileWatcher
changes_in running batch w = handle_change_batch batch w
changes_in _ batch w = w

unfoldable pub step : Step → FileWatcher → FileWatcher
unfolding changes_in
step starts w = (start w).1
step stops w = stop w
step wakes w = flush w
step ends w = callback_ends w
step (changes c cs) w = changes_in w.state (c ∷ cs) w

unfoldable pub run : List Step → FileWatcher → FileWatcher
run [] w = w
run (s ∷ steps) w = run steps (step s w)

module _ (is_relative_to : Text → Text → Bool) where
  -- `any(path.is_relative_to(root) for root in roots)`
  unfoldable pub is_under : Text → List Text → Bool
  is_under path [] = false
  is_under path (root ∷ roots) = is_relative_to path root || is_under path roots

  -- The loop of `_discover_user_modules`. A module has its file attribute, or none, and the resolved
  -- path, or the error that resolving raises: an `OSError` or a `RuntimeError` skips the module.
  unfoldable pub discover_from :
      List Text → List (Option (Outcome Text)) → List Text → Outcome (List Text)
  unfolding is_under
  discover_from excluded [] discovered = ret discovered
  discover_from excluded (none ∷ modules) discovered = discover_from excluded modules discovered
  discover_from excluded (some (raise os_error) ∷ modules) discovered =
      discover_from excluded modules discovered
  discover_from excluded (some (raise runtime_error) ∷ modules) discovered =
      discover_from excluded modules discovered
  discover_from excluded (some (raise e) ∷ modules) discovered = raise e
  discover_from excluded (some (ret path) ∷ modules) discovered = discover_from excluded modules (
      if is_under path excluded || contains path discovered
      then discovered
      else discovered ++ path ∷ [])

  unfoldable pub discover_user_modules :
      List Text → List (Option (Outcome Text)) → Outcome (List Text)
  discover_user_modules excluded modules = discover_from excluded modules []

-- `unique` of `_interpreter_excluded_roots`.
unfoldable pub distinct_roots : List Text → List Text → List Text
distinct_roots [] unique = unique
distinct_roots (root ∷ roots) unique =
    distinct_roots roots (if contains root unique then unique else unique ++ root ∷ [])
