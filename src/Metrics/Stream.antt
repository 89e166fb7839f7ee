-- ===== src/Metrics/Stream.antt =====
-- The bounded buffer of `RuntimeMetricsStore`: what is kept, what is dropped, what a drain gives
-- out.
use openrtc_python.Prelude.{
  ℕ, zero, suc, ◌+◌, ◌-◌, ◌≤◌, ◌≡◌, refl, sym, ap, ◌∙◌, List, [], ◌∷◌, ◌++◌, length, take, ltb, leb,
  if◌then◌else◌, arith, length-append, Bool-cases, inl, inr,
}
use mathlib.Core.List.{append_assoc, append-nil}
use openrtc_python.Metrics.{
  StreamEvent, session_started, session_finished, session_failed, metrics_stream_overflow,
  MetricsStore, append_stream_event, drain_stream_events, Recording, started, finished, failed,
  apply, run, record_session_started, record_session_finished, record_session_failure,
  stream_events_maxlen, error_maxlen,
}

-- The event that a recording puts on the stream.
abbrev pub event_of : Recording → StreamEvent
event_of (started agent tenant) = session_started agent tenant
event_of (finished agent tenant) = session_finished agent tenant
event_of (failed agent error tenant) = session_failed agent tenant (take error_maxlen error)

unfoldable pub events_of : List Recording → List StreamEvent
events_of [] = []
events_of (r ∷ rs) = event_of r ∷ events_of rs

module _ {A : Type 0} where
  take-append_full : (cap : ℕ) (xs ys : List A) → length xs ≡ cap → take cap (xs ++ ys) ≡ xs
  take-append_full zero [] ys h = refl
  take-append_full zero (x ∷ xs) ys h = absurd (omega arith)
  take-append_full (suc n) [] ys h = absurd (omega arith)
  take-append_full (suc n) (x ∷ xs) ys h = ap (◌∷◌ x) (take-append_full n xs ys (omega arith))

  take-append_short : (cap : ℕ) (xs : List A) → length xs ≤ cap → take cap (xs ++ []) ≡ xs
  take-append_short zero [] h = refl
  take-append_short zero (x ∷ xs) h = absurd (omega arith)
  take-append_short (suc n) [] h = refl
  take-append_short (suc n) (x ∷ xs) h = ap (◌∷◌ x) (take-append_short n xs (omega arith))

  -- One more element, unless the buffer is full.
  push : ℕ → List A → A → List A
  push cap xs x = if leb cap (length xs) then xs else xs ++ x ∷ []

  pushes : ℕ → List A → List A → List A
  pushes cap xs [] = xs
  pushes cap xs (y ∷ ys) = pushes cap (push cap xs y) ys

  length-push : (cap : ℕ) (xs : List A) (x : A) → length xs ≤ cap → length (push cap xs x) ≤ cap
  unfolding push
  length-push cap xs x h = ground (arith, length-append xs (x ∷ []))

  pushes-take :
      (cap : ℕ) (xs ys : List A) → length xs ≤ cap → pushes cap xs ys ≡ take cap (xs ++ ys)
  unfolding pushes push
  pushes-take cap xs [] h = sym (take-append_short cap xs h)
  pushes-take cap xs (y ∷ ys) h = elim (Bool-cases (leb cap (length xs))) [
    | inl full ↦
        let e : length xs ≡ cap = ground arith in
        rw full (
          pushes-take cap xs ys h
          ∙ take-append_full cap xs ys e
          ∙ sym (take-append_full cap xs (y ∷ ys) e))
    | inr room ↦ rw room (
        pushes-take cap (xs ++ y ∷ []) ys (ground (arith, length-append xs (y ∷ [])))
        ∙ ap (take cap) (append_assoc xs (y ∷ []) ys))
  ]

stream-apply :
    (r : Recording) (m : MetricsStore)
    → ((apply r m).stream_events ≡ push stream_events_maxlen m.stream_events (event_of r))
      × ((apply r m).overflow_since_drain ≡ (
          if leb stream_events_maxlen (length m.stream_events)
          then m.overflow_since_drain + 1
          else m.overflow_since_drain))
unfolding append_stream_event record_session_started record_session_finished record_session_failure
    push
stream-apply (started agent tenant) m = ground arith
stream-apply (finished agent tenant) m = ground arith
stream-apply (failed agent error tenant) m = ground arith

stream-run :
    (rs : List Recording) (m : MetricsStore)
    → (run rs m).stream_events ≡ pushes stream_events_maxlen m.stream_events (events_of rs)
unfolding run events_of pushes
stream-run [] m = refl
stream-run (r ∷ rs) m =
    stream-run rs (apply r m)
    ∙ ap (λ xs. pushes stream_events_maxlen xs (events_of rs)) (stream-apply r m).0

overflow-run :
    (rs : List Recording) (m : MetricsStore)
    → length m.stream_events ≤ stream_events_maxlen
    → (run rs m).overflow_since_drain
      ≡ m.overflow_since_drain + (length m.stream_events + length rs - stream_events_maxlen)
unfolding run push
overflow-run [] m h = omega arith
overflow-run (r ∷ rs) m h =
    let (s, d) = stream-apply r m in
    ground
      (arith, overflow-run rs (apply r m), s, d, length-append m.stream_events (event_of r ∷ []))

drain_of :
    (m : MetricsStore) (kept : List StreamEvent) (n : ℕ)
    → m.stream_events ≡ kept
    → m.overflow_since_drain ≡ n - stream_events_maxlen
    → let (out, after) = drain_stream_events m in
      (out
        ≡ kept
          ++ (if ltb stream_events_maxlen n
              then metrics_stream_overflow (n - stream_events_maxlen) ∷ []
              else []))
      × (after.stream_events ≡ [])
      × (after.overflow_since_drain ≡ 0)
unfolding drain_stream_events
drain_of m kept n k l = ground (arith, append-nil kept)

-- From an empty stream with a zero count the store keeps the first 256 events in order and counts
-- the others: a drain gives out those events, then one overflow row with the exact number dropped
-- if there is any, and leaves an empty stream and a zero count.
pub drain_stream_events-run :
    (rs : List Recording) (m : MetricsStore)
    → m.stream_events ≡ []
    → m.overflow_since_drain ≡ 0
    → let (out, after) = drain_stream_events (run rs m) in
      (out
        ≡ take stream_events_maxlen (events_of rs)
          ++ (if ltb stream_events_maxlen (length rs)
              then metrics_stream_overflow (length rs - stream_events_maxlen) ∷ []
              else []))
      × (after.stream_events ≡ [])
      × (after.overflow_since_drain ≡ 0)
unfolding drain_stream_events
drain_stream_events-run rs m empty zero_count =
    let none_kept : length m.stream_events ≡ 0 = ap length empty in
    let kept : (run rs m).stream_events ≡ take stream_events_maxlen (events_of rs) =
      stream-run rs m
      ∙ ap (λ xs. pushes stream_events_maxlen xs (events_of rs)) empty
      ∙ pushes-take stream_events_maxlen [] (events_of rs) (omega arith) in
    let lost : (run rs m).overflow_since_drain ≡ length rs - stream_events_maxlen =
      omega (arith, overflow-run rs m (omega arith)) in
    drain_of (run rs m) (take stream_events_maxlen (events_of rs)) (length rs) kept lost
