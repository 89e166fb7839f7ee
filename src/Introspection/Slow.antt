-- ===== src/Introspection/Slow.antt =====
-- Slow sessions: the marks of event-loop blocks, which each snapshot prunes.
use openrtc_python.Prelude.{
  ◌≡◌, refl, ap, ◌∙◌, ℕ, ◌+◌, ◌≤◌, Bool, false, Option, none, some, List, [], ◌∷◌, if◌then◌else◌,
  arith, leb, Bool-cases, inl, inr,
}
use openrtc_python.Prelude.Text.{Text, text_eq}
use openrtc_python.Prelude.Dict.{Dict, get, get-put, DistinctKeys, put-DistinctKeys}
use openrtc_python.Introspection.{LoopBlockEvent, evaluate_lag, on_block, recent, is_slow}

-- A mark that a prune at this time leaves.
abbrev kept : ℕ → ℕ → Option ℕ → Option ℕ
kept window now none = none
kept window now (some at) = if leb now (at + window) then some at else none

abbrev pub fresh : ℕ → ℕ → Option ℕ → Bool
fresh window now none = false
fresh window now (some at) = leb now (at + window)

get-recent :
    (window now : ℕ) (sid : Text) (d : Dict ℕ)
    → DistinctKeys d
    → get sid (recent window now d) ≡ kept window now (get sid d)
unfolding recent get
get-recent window now sid [] h = refl
get-recent window now sid ((k, at) ∷ d) h =
    let later = get-recent window now sid d h.1 in
    elim (Bool-cases (text_eq k sid)) [
      | inl same ↦ elim (Bool-cases (leb now (at + window))) [
        | inl young ↦ ground (arith, same, young)
        | inr stale ↦ ground (arith, same, stale, later, h.0)
      ]
      | inr different ↦ ground (arith, different, later)
    ]

recent-DistinctKeys :
    (window now : ℕ) (d : Dict ℕ) → DistinctKeys d → DistinctKeys (recent window now d)
unfolding recent
recent-DistinctKeys window now [] h = h
recent-DistinctKeys window now ((k, at) ∷ d) h =
    let later = recent-DistinctKeys window now d h.1 in
    elim (Bool-cases (leb now (at + window))) [
      | inl young ↦ rw young (get-recent window now k d h.1 ∙ ap (kept window now) h.0, later)
      | inr stale ↦ rw stale later
    ]

fresh-kept :
    (window before now : ℕ) (mark : Option ℕ)
    → before ≤ now
    → fresh window now (kept window before mark) ≡ fresh window now mark
fresh-kept window before now none h = refl
fresh-kept window before now (some at) h = elim (Bool-cases (leb before (at + window))) [
  | inl young ↦ rw young refl
  | inr stale ↦ rw stale (ground (arith, stale, h))
]

-- What the runtime sees in order: the event loop lags, with the session that was last seen to run,
-- or `openrtc top` takes a snapshot.
pub data Moment : Type 0 where
  lags : ℕ → Option Text → ℕ → Moment
  snapshots : ℕ → Moment

abbrev blocked : Option LoopBlockEvent → ℕ → Dict ℕ → Dict ℕ
blocked none now marks = marks
blocked (some event) now marks = on_block event now marks

module _ (threshold window : ℕ) where
  abbrev pub after : Moment → Dict ℕ → Dict ℕ
  after (lags lag running now) marks = blocked (evaluate_lag threshold running lag) now marks
  after (snapshots now) marks = recent window now marks

  abbrev pub run : List Moment → Dict ℕ → Dict ℕ
  run [] marks = marks
  run (m ∷ moments) marks = run moments (after m marks)

  -- The time of the last lag above the threshold that is blamed on this session.
  abbrev blames : Text → Option Text → Bool
  blames sid none = false
  blames sid (some running) = text_eq running sid

  abbrev pub last_block : Text → List Moment → Option ℕ → Option ℕ
  last_block sid [] mark = mark
  last_block sid (lags lag running now ∷ moments) mark =
      last_block sid moments
        (if leb lag threshold then mark else if blames sid running then some now else mark)
  last_block sid (snapshots now ∷ moments) mark = last_block sid moments mark

  -- No snapshot is later than this.
  abbrev pub Until : ℕ → List Moment → Type 0
  Until now [] = Unit
  Until now (lags _ _ _ ∷ moments) = Until now moments
  Until now (snapshots at ∷ moments) = (at ≤ now) × Until now moments

  lag-fresh :
      (lag : ℕ) (running : Option Text) (at now : ℕ) (sid : Text) (marks : Dict ℕ) (mark : Option ℕ)
      → fresh window now (get sid marks) ≡ fresh window now mark
      → fresh window now (get sid (after (lags lag running at) marks))
        ≡ fresh window now
            (if leb lag threshold then mark else if blames sid running then some at else mark)
  unfolding evaluate_lag on_block
  lag-fresh lag none at now sid marks mark e = elim (Bool-cases (leb lag threshold)) [
    | inl short ↦ rw (short, after, blocked) e
    | inr long ↦ rw (long, after, blocked) e
  ]
  lag-fresh lag (some r) at now sid marks mark e = elim (Bool-cases (leb lag threshold)) [
    | inl short ↦ rw (short, after, blocked) e
    | inr long ↦ elim (Bool-cases (text_eq r sid)) [
      | inl same ↦ rw (long, after, blocked) (rw (get-put r sid at marks) (rw same refl))
      | inr different ↦ rw (long, after, blocked) (rw (get-put r sid at marks) (rw different e))
    ]
  ]

  lag-DistinctKeys :
      (lag : ℕ) (running : Option Text) (at : ℕ) (marks : Dict ℕ)
      → DistinctKeys marks
      → DistinctKeys (after (lags lag running at) marks)
  unfolding evaluate_lag on_block
  lag-DistinctKeys lag none at marks h = elim (Bool-cases (leb lag threshold)) [
    | inl short ↦ rw (short, after, blocked) h
    | inr long ↦ rw (long, after, blocked) h
  ]
  lag-DistinctKeys lag (some r) at marks h = elim (Bool-cases (leb lag threshold)) [
    | inl short ↦ rw (short, after, blocked) h
    | inr long ↦ rw (long, after, blocked) (put-DistinctKeys r at marks h)
  ]

  run-fresh :
      (now : ℕ) (sid : Text) (moments : List Moment) (marks : Dict ℕ) (mark : Option ℕ)
      → Until now moments
      → DistinctKeys marks
      → fresh window now (get sid marks) ≡ fresh window now mark
      → (fresh window now (get sid (run moments marks))
          ≡ fresh window now (last_block sid moments mark))
        × DistinctKeys (run moments marks)
  run-fresh now sid [] marks mark u h e = (e, h)
  run-fresh now sid (lags lag running at ∷ moments) marks mark u h e =
      run-fresh now sid moments (after (lags lag running at) marks) _ u
        (lag-DistinctKeys lag running at marks h) (lag-fresh lag running at now sid marks mark e)
  run-fresh now sid (snapshots at ∷ moments) marks mark u h e =
      run-fresh now sid moments (recent window at marks) mark u.1
        (recent-DistinctKeys window at marks h)
        (ap (fresh window now) (get-recent window at sid marks h)
          ∙ fresh-kept window at now (get sid marks) u.0
          ∙ e)

  -- However often the marks were pruned before, a snapshot shows a session as slow exactly if the
  -- last lag above the threshold that was blamed on it lies within the window.
  pub is_slow-last_block :
      (now : ℕ) (sid : Text) (moments : List Moment)
      → Until now moments
      → is_slow window now (run moments []) sid ≡ fresh window now (last_block sid moments none)
  unfolding is_slow get
  is_slow-last_block now sid moments u =
      let (same, distinct) = run-fresh now sid moments [] none u tt refl in
      shown (get sid (run moments [])) (get-recent window now sid (run moments []) distinct) ∙ same
    where
      shown :
          (mark : Option ℕ)
          → get sid (recent window now (run moments [])) ≡ kept window now mark
          → is_slow window now (run moments []) sid ≡ fresh window now mark
      shown none e = rw (is_slow, e) refl
      shown (some at) e = elim (Bool-cases (leb now (at + window))) [
        | inl young ↦ ground (arith, e, young)
        | inr stale ↦ ground (arith, e, stale)
      ]
