-- ===== src/Metrics/Pickle.antt =====
-- `RuntimeMetricsStore.__getstate__` and `__setstate__`: the store through a pickle. `int(value)` and
-- `float` of an int are parameters. A value of a state is what the checks tell apart; negative numbers
-- are left out.
pub mod Typed
pub mod RoundTrip
use openrtc_python.Prelude.{
  ◌≡◌, refl, ap, ◌∙◌, sym, ℕ, ◌<◌, Option, none, some, List, [], ◌∷◌, arith, Option-cases, inl, inr,
}
use openrtc_python.Prelude.Text.{Text, Text-discrete, codes, text_eq}
use openrtc_python.Prelude.Dict.{Dict, get, get_or, remove}
use openrtc_python.Prelude.Outcome.{
  Outcome, ret, raise, type_error, key_error, ◌>>=◌, >>=-ret, ret-injective,
}
use openrtc_python.Metrics.{StreamEvent, MetricsStore}
use openrtc_python.Metrics.Balance.{IsGauge, IsSound}

mutual
  pub data Value : Type 0 where
    int : ℕ → Value
    float : ℕ → Value
    text : Text → Value
    null : Value
    mapping : Pairs → Value
    events : List StreamEvent → Value
    other : Value

  -- The items of a mapping, each key as its `str`.
  pub data Pairs : Type 0 where
    nil : Pairs
    pair : Text → Value → Pairs → Pairs

-- A store as it is set: the two names are not checked.
pub record Unpickled : Type 0 where
  pub started_at : ℕ
  pub total_sessions_started : ℕ
  pub total_session_failures : ℕ
  pub last_routed_agent : Value
  pub last_error : Value
  pub sessions_by_agent : Dict ℕ
  pub sessions_by_tenant : Dict ℕ
  pub stream_events : List StreamEvent
  pub overflow_since_drain : ℕ

-- `dict(counts)`, as a value.
abbrev pub of_counts : Dict ℕ → Pairs
of_counts [] = nil
of_counts ((k, n) ∷ d) = pair k (int n) (of_counts d)

abbrev pub of_name : Option Text → Value
of_name none = null
of_name (some s) = text s

unfoldable pub get_state : MetricsStore → Dict Value
get_state m =
    (codes "started_at", float m.started_at)
    ∷ (codes "total_sessions_started", int m.total_sessions_started)
    ∷ (codes "total_session_failures", int m.total_session_failures)
    ∷ (codes "last_routed_agent", of_name m.last_routed_agent)
    ∷ (codes "last_error", of_name m.last_error)
    ∷ (codes "sessions_by_agent", mapping (of_counts m.sessions_by_agent))
    ∷ (codes "sessions_by_tenant", mapping (of_counts m.sessions_by_tenant))
    ∷ (codes "_stream_events", events m.stream_events)
    ∷ (codes "_metrics_stream_overflow_since_drain", int m.overflow_since_drain)
    ∷ []

-- `state[key]`
abbrev pub item : Text → Dict Value → Outcome Value
item key state = elim (get key state) [ none ↦ raise key_error | some v ↦ ret v ]

abbrev pub as_int : Value → Outcome ℕ
as_int (int n) = ret n
as_int _ = raise type_error

abbrev pub as_events : Value → Outcome (List StreamEvent)
as_events (events es) = ret es
as_events _ = raise type_error

-- One more item in front of a comprehension's later ones: of two with one key, the first place and the
-- last value count.
unfoldable pub before : Text → ℕ → Dict ℕ → Dict ℕ
before key n later = elim (get key later) [
  | none ↦ (key, n) ∷ later
  | some m ↦ (key, m) ∷ remove key later
]

module _ (to_int : Value → Outcome ℕ) (to_float : ℕ → Outcome ℕ) where
  abbrev pub as_float : Value → Outcome ℕ
  as_float (int n) = to_float n
  as_float (float t) = ret t
  as_float _ = raise type_error

  -- `{str(key): int(value) for ...}`
  unfoldable pub counts : Pairs → Outcome (Dict ℕ)
  unfolding before
  counts nil = ret []
  counts (pair key value more) =
      let rest = counts more in do n ← to_int value; later ← rest; ret (before key n later)

  abbrev pub as_counts : Value → Outcome (Dict ℕ)
  as_counts (mapping pairs) = counts pairs
  as_counts _ = raise type_error

  unfoldable pub set_state : Dict Value → Outcome Unpickled
  set_state state = do
    started_at ← item (codes "started_at") state >>= as_float
    total_started ← item (codes "total_sessions_started") state >>= as_int
    total_failures ← item (codes "total_session_failures") state >>= as_int
    last_agent ← item (codes "last_routed_agent") state
    last_error ← item (codes "last_error") state
    by_agent ← item (codes "sessions_by_agent") state >>= as_counts
    by_tenant ← as_counts (get_or (codes "sessions_by_tenant") (mapping nil) state)
    stream_events ← as_events (get_or (codes "_stream_events") (events []) state)
    overflow ← as_int (get_or (codes "_metrics_stream_overflow_since_drain") (int 0) state)
    ret (record {
      started_at = started_at;
      total_sessions_started = total_started;
      total_session_failures = total_failures;
      last_routed_agent = last_agent;
      last_error = last_error;
      sessions_by_agent = by_agent;
      sessions_by_tenant = by_tenant;
      stream_events = stream_events;
      overflow_since_drain = overflow;
    })

abbrev pub of_store : MetricsStore → Unpickled
of_store m = record {
  started_at = m.started_at;
  total_sessions_started = m.total_sessions_started;
  total_session_failures = m.total_session_failures;
  last_routed_agent = of_name m.last_routed_agent;
  last_error = of_name m.last_error;
  sessions_by_agent = m.sessions_by_agent;
  sessions_by_tenant = m.sessions_by_tenant;
  stream_events = m.stream_events;
  overflow_since_drain = m.overflow_since_drain;
}

-- The state of a version that had none of the three later fields.
abbrev pub older : Dict Value → Dict Value
older state =
    remove (codes "sessions_by_tenant") (
      remove (codes "_stream_events") (remove (codes "_metrics_stream_overflow_since_drain") state))
