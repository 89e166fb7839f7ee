-- ===== src/Metrics.antt =====
-- observability/metrics.py: the runtime counters of a worker. Each method holds the lock from its
-- first to its last access of the state, so it is one step.
pub mod Stream
pub mod Gauge
pub mod Balance
pub mod Pickle
use openrtc_python.Prelude.{
  ℕ, ◌+◌, ◌-◌, Bool, true, false, Option, none, some, List, [], ◌∷◌, ◌++◌, length, take, ltb, leb,
  if◌then◌else◌,
}
use openrtc_python.Prelude.Text.{Text, codes}
use openrtc_python.Prelude.Dict.{Dict, get, get_or, put, remove}

abbrev pub stream_events_maxlen : ℕ
stream_events_maxlen = 256

abbrev pub error_maxlen : ℕ
error_maxlen = 500

pub data StreamEvent : Type 0 where
  session_started : Text → Text → StreamEvent
  session_finished : Text → Text → StreamEvent
  session_failed : Text → Text → Text → StreamEvent
  metrics_stream_overflow : ℕ → StreamEvent

pub record MetricsStore : Type 0 where
  pub started_at : ℕ
  pub total_sessions_started : ℕ
  pub total_session_failures : ℕ
  pub last_routed_agent : Option Text
  pub last_error : Option Text
  pub sessions_by_agent : Dict ℕ
  pub sessions_by_tenant : Dict ℕ
  pub stream_events : List StreamEvent
  pub overflow_since_drain : ℕ

unfoldable pub new_store : ℕ → MetricsStore
new_store now = record {
  started_at = now;
  total_sessions_started = 0;
  total_session_failures = 0;
  last_routed_agent = none;
  last_error = none;
  sessions_by_agent = [];
  sessions_by_tenant = [];
  stream_events = [];
  overflow_since_drain = 0;
}

unfoldable pub append_stream_event : StreamEvent → MetricsStore → MetricsStore
append_stream_event event m =
    if leb stream_events_maxlen (length m.stream_events)
    then record m { overflow_since_drain = m.overflow_since_drain + 1 }
    else record m { stream_events = m.stream_events ++ event ∷ [] }

-- `counts[key] = counts.get(key, 0) + 1`
unfoldable pub increment : Text → Dict ℕ → Dict ℕ
increment key counts = put key (get_or key 0 counts + 1) counts

-- The next value is negative or 0 in the source exactly where it is 0 here.
unfoldable pub decrement : Text → Dict ℕ → Dict ℕ
decrement key counts =
    let next_value = get_or key 0 counts - 1 in
    if ltb 0 next_value then put key next_value counts else remove key counts

unfoldable pub record_session_started : Text → Text → MetricsStore → MetricsStore
record_session_started agent tenant m =
    append_stream_event (session_started agent tenant) (record m {
      total_sessions_started = m.total_sessions_started + 1;
      last_routed_agent = some agent;
      sessions_by_agent = increment agent m.sessions_by_agent;
      sessions_by_tenant = increment tenant m.sessions_by_tenant;
    })

unfoldable pub record_session_finished : Text → Text → MetricsStore → MetricsStore
record_session_finished agent tenant m =
    append_stream_event (session_finished agent tenant) (record m {
      sessions_by_agent = decrement agent m.sessions_by_agent;
      sessions_by_tenant = decrement tenant m.sessions_by_tenant;
    })

-- `error` is the text `"<class>: <message>"`.
unfoldable pub record_session_failure : Text → Text → Text → MetricsStore → MetricsStore
record_session_failure agent error tenant m =
    append_stream_event (session_failed agent tenant (take error_maxlen error)) (record m {
      last_routed_agent = some agent;
      total_session_failures = m.total_session_failures + 1;
      last_error = some error;
    })

unfoldable pub drain_stream_events : MetricsStore → List StreamEvent × MetricsStore
drain_stream_events m =
    let dropped = m.overflow_since_drain in
    let after = record m { stream_events = []; overflow_since_drain = 0 } in
    if ltb 0 dropped
    then (m.stream_events ++ metrics_stream_overflow dropped ∷ [], after)
    else (m.stream_events, after)

-- `sum(counts.values())`
unfoldable pub sum_values : Dict ℕ → ℕ
sum_values [] = 0
sum_values ((k, n) ∷ d) = n + sum_values d

-- The counters that `snapshot` copies under the lock, and the total that it computes from them.
pub record Snapshot : Type 0 where
  pub active_sessions : ℕ
  pub total_sessions_started : ℕ
  pub total_session_failures : ℕ
  pub last_routed_agent : Option Text
  pub last_error : Option Text
  pub sessions_by_agent : Dict ℕ
  pub sessions_by_tenant : Dict ℕ
  pub uptime : ℕ

-- `max(now - started_at, 0)` is subtraction that stops at 0.
unfoldable pub snapshot : ℕ → MetricsStore → Snapshot
snapshot now m = record {
  active_sessions = sum_values m.sessions_by_agent;
  total_sessions_started = m.total_sessions_started;
  total_session_failures = m.total_session_failures;
  last_routed_agent = m.last_routed_agent;
  last_error = m.last_error;
  sessions_by_agent = m.sessions_by_agent;
  sessions_by_tenant = m.sessions_by_tenant;
  uptime = now - m.started_at;
}

-- One call of a recording method.
pub data Recording : Type 0 where
  started : Text → Text → Recording
  finished : Text → Text → Recording
  failed : Text → Text → Text → Recording

abbrev pub apply : Recording → MetricsStore → MetricsStore
apply (started agent tenant) m = record_session_started agent tenant m
apply (finished agent tenant) m = record_session_finished agent tenant m
apply (failed agent error tenant) m = record_session_failure agent error tenant m

unfoldable pub run : List Recording → MetricsStore → MetricsStore
run [] m = m
run (r ∷ rs) m = run rs (apply r m)
