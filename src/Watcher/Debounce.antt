-- ===== src/Watcher/Debounce.antt =====
-- The debounce buffer of `FileWatcher`: what becomes of the changes that it takes, and its end.
use mathlib.Core.List.{append-nil, append_assoc, map-append}
use openrtc_python.Prelude.{
  subst, ℕ, ◌+◌, ◌≡◌, refl, sym, ap, ◌∙◌, ◌⊎◌, inl, inr, none, List, [], ◌∷◌, ◌++◌, arith, map,
  length, length-append,
}
use openrtc_python.Watcher.{
  FileChange, collapse_changes, WatcherState, new, running, stopped, Flush, idle, asleep, awaiting,
  FileWatcher, new_watcher, start, start_from, cancel_flush, handle_change_batch, begin_call,
  flush_from, flush, end_call, callback_ends, Step, starts, stops, wakes, ends, changes, changes_in,
  step, run,
}
use openrtc_python.Watcher.Collapse.{any_at, change_at, collapse_changes-strongest}

pub collapse_changes-cons :
    (c : FileChange) (cs : List FileChange) → (collapse_changes (c ∷ cs) ≡ []) → ⊥
collapse_changes-cons c cs e =
    let found = (collapse_changes-strongest (c ∷ cs) c.path).0 in
    unfold any_at in ground (arith, found, ap (change_at c.path) e, nothing)
  where
    nothing : change_at c.path [] ≡ none
    nothing = unfold change_at in refl

abbrev pub concat : List (List FileChange) → List FileChange
concat [] = []
concat (xs ∷ xss) = xs ++ concat xss

concat-append :
    (xss : List (List FileChange)) (xs : List FileChange)
    → concat (xss ++ xs ∷ []) ≡ concat xss ++ xs
concat-append [] xs = append-nil xs
concat-append (ys ∷ xss) xs =
    ap (◌++◌ ys) (concat-append xss xs) ∙ sym (append_assoc ys (concat xss) xs)

-- The changes that a step hands to the watcher.
abbrev taken : Step → WatcherState → List FileChange
taken (changes c cs) running = c ∷ cs
taken _ _ = []

unfoldable pub received : List Step → FileWatcher → List FileChange
received [] w = []
received (s ∷ steps) w = taken s w.state ++ received steps (step s w)

abbrev pub NeverStops : List Step → Type 0
NeverStops [] = Unit
NeverStops (stops ∷ steps) = ⊥
NeverStops (s ∷ steps) = NeverStops steps

abbrev pub in_flight : Flush → ℕ
in_flight (awaiting batch) = 1
in_flight _ = 0

-- All changes before went into calls, group by group, or are pending with a flush to come.
record Conserved (before : List FileChange) (w : FileWatcher) : Type 0 where
  groups : List (List FileChange)
  called : w.calls ≡ map collapse_changes groups
  kept : before ≡ concat groups ++ w.pending
  due : (w.flush_task ≡ asleep) ⊎ (w.pending ≡ [])
  ended : length w.calls ≡ length w.completed + length w.cancelled + in_flight w.flush_task

begin_call-Conserved :
    (before : List FileChange) (batch : List FileChange) (w : FileWatcher)
    → w.flush_task ≡ asleep
    → collapse_changes w.pending ≡ batch
    → Conserved before w
    → Conserved before (begin_call batch w)
unfolding begin_call
begin_call-Conserved before [] w waiting e k =
    let none_left = nothing w.pending e in
    record {
      groups = k.groups;
      called = k.called;
      kept = k.kept ∙ ap (◌++◌ (concat k.groups)) none_left;
      due = inr refl;
      ended = k.ended ∙ ground arith;
    }
  where
    nothing : (cs : List FileChange) → collapse_changes cs ≡ [] → cs ≡ []
    nothing [] e = refl
    nothing (c ∷ cs) e = absurd (collapse_changes-cons c cs e)
begin_call-Conserved before (x ∷ xs) w waiting e k = record {
  groups = k.groups ++ w.pending ∷ [];
  called =
      ap (λ cs. cs ++ (x ∷ xs) ∷ []) k.called
      ∙ ap (λ b. map collapse_changes k.groups ++ b ∷ []) (sym e)
      ∙ sym (map-append collapse_changes k.groups (w.pending ∷ []));
  kept =
      k.kept
      ∙ sym (append-nil (concat (k.groups ++ w.pending ∷ [])) ∙ concat-append k.groups w.pending);
  due = inr refl;
  ended = ground (arith, k.ended, length-append w.calls ((x ∷ xs) ∷ []));
}

flush-Conserved :
    (before : List FileChange) (w : FileWatcher) (f : Flush)
    → w.flush_task ≡ f
    → Conserved before w
    → Conserved before (flush_from f w)
unfolding flush_from
flush-Conserved before w idle e k = k
flush-Conserved before w asleep e k =
    begin_call-Conserved before (collapse_changes w.pending) w e refl k
flush-Conserved before w (awaiting b) e k = k

ends-Conserved :
    (before : List FileChange) (w : FileWatcher) (f : Flush)
    → w.flush_task ≡ f
    → Conserved before w
    → Conserved before (end_call f w)
unfolding end_call
ends-Conserved before w idle e k = k
ends-Conserved before w asleep e k = k
ends-Conserved before w (awaiting b) e k = record {
  groups = k.groups;
  called = k.called;
  kept = k.kept;
  due = inr (ground (arith, k.due));
  ended = ground (arith, k.ended, length-append w.completed (b ∷ []));
}

batch-Conserved :
    (before batch : List FileChange) (w : FileWatcher) (f : Flush)
    → w.flush_task ≡ f
    → Conserved before w
    → Conserved
        (before ++ batch)
        (record (cancel_flush f w) { pending = w.pending ++ batch; flush_task = asleep })
unfolding cancel_flush
batch-Conserved before batch w f e k = go f e
  where
    kept' : before ++ batch ≡ concat k.groups ++ (w.pending ++ batch)
    kept' = ap (λ xs. xs ++ batch) k.kept ∙ append_assoc (concat k.groups) w.pending batch

    go :
        (g : Flush)
        → w.flush_task ≡ g
        → Conserved
            (before ++ batch)
            (record (cancel_flush g w) { pending = w.pending ++ batch; flush_task = asleep })
    go idle e = record {
      groups = k.groups;
      called = k.called;
      kept = kept';
      due = inl refl;
      ended = ground (arith, k.ended);
    }
    go asleep e = record {
      groups = k.groups;
      called = k.called;
      kept = kept';
      due = inl refl;
      ended = ground (arith, k.ended);
    }
    go (awaiting b) e = record {
      groups = k.groups;
      called = k.called;
      kept = kept';
      due = inl refl;
      ended = ground (arith, k.ended, length-append w.cancelled (b ∷ []));
    }

start-Conserved :
    (before : List FileChange) (w : FileWatcher) (s : WatcherState)
    → Conserved before w
    → Conserved before (start_from s w).1
unfolding start_from
start-Conserved before w new k = record {
  groups = k.groups;
  called = k.called;
  kept = k.kept;
  due = k.due;
  ended = k.ended;
}
start-Conserved before w running k = k
start-Conserved before w stopped k = k

changes-Conserved :
    (before : List FileChange) (c : FileChange) (cs : List FileChange) (w : FileWatcher)
    (s : WatcherState)
    → Conserved before w
    → Conserved (before ++ taken (changes c cs) s) (changes_in s (c ∷ cs) w)
unfolding changes_in handle_change_batch
changes-Conserved before c cs w new k = rw (append-nil before) k
changes-Conserved before c cs w running k = batch-Conserved before (c ∷ cs) w w.flush_task refl k
changes-Conserved before c cs w stopped k = rw (append-nil before) k

run-Conserved :
    (steps : List Step) (before : List FileChange) (w : FileWatcher)
    → NeverStops steps
    → Conserved before w
    → Conserved (before ++ received steps w) (run steps w)
unfolding run received step start flush callback_ends
run-Conserved [] before w n k = rw (append-nil before) k
run-Conserved (starts ∷ steps) before w n k =
    run-Conserved steps before (start w).1 n (start-Conserved before w w.state k)
run-Conserved (stops ∷ steps) before w n k = elim n [ ]
run-Conserved (wakes ∷ steps) before w n k =
    run-Conserved steps before (flush w) n (flush-Conserved before w w.flush_task refl k)
run-Conserved (ends ∷ steps) before w n k =
    run-Conserved steps before (callback_ends w) n (ends-Conserved before w w.flush_task refl k)
run-Conserved (changes c cs ∷ steps) before w n k =
    let now = taken (changes c cs) w.state in
    let after = step (changes c cs) w in
    subst (λ xs. Conserved xs (run steps after)) (append_assoc before now (received steps after))
      (run-Conserved steps (before ++ now) after n (changes-Conserved before c cs w w.state k))

-- While a watcher is not stopped it loses no change that it received: in order, and each once, they
-- went in groups into the calls of `on_change`, collapsed, or are pending with a flush to come. Each
-- call has ended, was cancelled, or is the one that runs.
pub run-conserves :
    (steps : List Step)
    → NeverStops steps
    → let w = run steps new_watcher in
      (groups : List (List FileChange)) × (w.calls ≡ map collapse_changes groups)
      × (received steps new_watcher ≡ concat groups ++ w.pending)
      × ((w.flush_task ≡ asleep) ⊎ (w.pending ≡ []))
      × (length w.calls ≡ length w.completed + length w.cancelled + in_flight w.flush_task)
run-conserves steps n =
    let k =
      run-Conserved steps [] new_watcher n
        (record { groups = []; called = refl; kept = refl; due = inr refl; ended = omega arith }) in
    (k.groups, k.called, k.kept, k.due, k.ended)
