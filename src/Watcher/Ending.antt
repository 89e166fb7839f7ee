-- ===== src/Watcher/Ending.antt =====
-- A call of `on_change` that is cancelled, and the end of a watcher.

use openrtc_python.Prelude.{◌≡◌, refl, ap, ◌∙◌, List, [], ◌∷◌, ◌++◌, arith}
use openrtc_python.Prelude.Outcome.{raise, runtime_error}
use openrtc_python.Watcher.{
  FileChange, collapse_changes, running, stopped, idle, awaiting, FileWatcher, start, start_from,
  cancel_flush, stop, stop_from, handle_change_batch, begin_call, flush_from, flush, end_call,
  callback_ends, Step, starts, stops, wakes, ends, changes, changes_in, step, run,
}
use openrtc_python.Watcher.Debounce.{collapse_changes-cons}

-- A batch that comes while `on_change` is awaited cancels that call, and the changes that it had
-- are never reported again: the next call has the later changes alone.
pub run-cancels :
    (w : FileWatcher) (running_call : List FileChange) (c : FileChange) (cs : List FileChange)
    → w.state ≡ running
    → w.flush_task ≡ awaiting running_call
    → w.pending ≡ []
    → let after = run (changes c cs ∷ wakes ∷ ends ∷ []) w in
      (after.cancelled ≡ w.cancelled ++ running_call ∷ [])
      × (after.completed ≡ w.completed ++ collapse_changes (c ∷ cs) ∷ [])
      × (after.flush_task ≡ idle)
      × (after.pending ≡ [])
unfolding run step changes_in handle_change_batch cancel_flush flush flush_from begin_call
    callback_ends end_call
run-cancels w b c cs e f p = ground (arith, collapse_changes-cons c cs)

step-stopped : (s : Step) (w : FileWatcher) → w.state ≡ stopped → w.flush_task ≡ idle → step s w ≡ w
unfolding step start start_from stop stop_from flush flush_from callback_ends end_call changes_in
step-stopped starts w e f = rw e refl
step-stopped stops w e f = rw e refl
step-stopped wakes w e f = rw f refl
step-stopped ends w e f = rw f refl
step-stopped (changes c cs) w e f = rw e refl

run-stopped :
    (steps : List Step) (w : FileWatcher)
    → w.state ≡ stopped
    → w.flush_task ≡ idle
    → run steps w ≡ w
unfolding run
run-stopped [] w e f = refl
run-stopped (s ∷ steps) w e f = ap (run steps) (step-stopped s w e f) ∙ run-stopped steps w e f

-- A stop is final: whatever comes after it, the watcher changes no more, calls nothing, holds no
-- change, and a start raises `RuntimeError`.
pub run-stop :
    (w : FileWatcher) (steps : List Step)
    → w.state ≡ running
    → (run steps (stop w) ≡ stop w)
      × ((start (stop w)).0 ≡ raise runtime_error)
      × ((stop w).pending ≡ [])
      × ((stop w).calls ≡ w.calls)
unfolding start start_from stop stop_from cancel_flush
run-stop w steps e =
    let final : (stop w).state ≡ stopped = rw e refl in
    let asleep_no_more : (stop w).flush_task ≡ idle = rw e refl in
    (run-stopped steps (stop w) final asleep_no_more, ground arith, ground arith, ground arith)
