-- ===== src/Tests/Watcher.antt =====
-- A file watcher with two edited files, and a second batch during a call.
use openrtc_python.Prelude.{◌+◌, length, ◌⊎◌, List, ◌≡◌, [], ◌∷◌, ◌++◌, map}
use openrtc_python.Prelude.Text.{codes}
use openrtc_python.Watcher.{
  FileChange, modified, deleted, created, Step, starts, wakes, changes, new_watcher, run,
  collapse_changes, asleep,
}
use openrtc_python.Watcher.Collapse.{
  change_at, strongest, DistinctPaths, collapse_changes-strongest,
}
use openrtc_python.Watcher.Debounce.{received, concat, in_flight, run-conserves}

abbrev sales_edit : FileChange
sales_edit = record { path = codes "/app/sales.py"; change_type = modified }

abbrev sales_delete : FileChange
sales_delete = record { path = codes "/app/sales.py"; change_type = deleted }

abbrev support_new : FileChange
support_new = record { path = codes "/app/support.py"; change_type = created }

abbrev steps : List Step
steps =
    starts ∷ changes sales_edit (support_new ∷ []) ∷ wakes ∷ changes sales_delete [] ∷ wakes ∷ []

collapse_changes-strongest_example :
    (change_at
        (codes "/app/sales.py")
        (collapse_changes (sales_edit ∷ support_new ∷ sales_delete ∷ []))
      ≡ strongest (codes "/app/sales.py") (sales_edit ∷ support_new ∷ sales_delete ∷ []))
    × DistinctPaths (collapse_changes (sales_edit ∷ support_new ∷ sales_delete ∷ []))
collapse_changes-strongest_example =
    collapse_changes-strongest (sales_edit ∷ support_new ∷ sales_delete ∷ [])
      (codes "/app/sales.py")

run-conserves_example :
    let w = run steps new_watcher in
    (groups : List (List FileChange)) × (w.calls ≡ map collapse_changes groups)
    × (received steps new_watcher ≡ concat groups ++ w.pending)
    × ((w.flush_task ≡ asleep) ⊎ (w.pending ≡ []))
    × (length w.calls ≡ length w.completed + length w.cancelled + in_flight w.flush_task)
run-conserves_example = run-conserves steps tt
