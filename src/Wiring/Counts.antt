-- ===== src/Wiring/Counts.antt =====
-- What the metrics of a session's start, failure and finish do to the counts.
use openrtc_python.Prelude.{◌+◌, ◌≡◌, refl, arith}
use openrtc_python.Prelude.Text.{Text}
use openrtc_python.Prelude.Outcome.{Outcome, ret, raise}
use openrtc_python.Observer.{SessionInfo}
use openrtc_python.Metrics.{
  MetricsStore, append_stream_event, increment, decrement, record_session_started,
  record_session_finished, record_session_failure,
}
use openrtc_python.Wiring.{record_failure}

pub record_failure-counts :
    (body : Outcome (Unit {0})) (error_text : Text) (info : SessionInfo) (m : MetricsStore)
    → let after = record_failure body error_text info m in
      (after.sessions_by_agent ≡ m.sessions_by_agent)
      × (after.sessions_by_tenant ≡ m.sessions_by_tenant)
      × (after.total_sessions_started ≡ m.total_sessions_started)
unfolding record_session_failure append_stream_event
record_failure-counts (ret _) error_text info m = (refl, refl, refl)
record_failure-counts (raise e) error_text info m = ground arith

pub started-counts :
    (agent tenant : Text) (m : MetricsStore)
    → let after = record_session_started agent tenant m in
      (after.sessions_by_agent ≡ increment agent m.sessions_by_agent)
      × (after.sessions_by_tenant ≡ increment tenant m.sessions_by_tenant)
      × (after.total_sessions_started ≡ m.total_sessions_started + 1)
unfolding record_session_started append_stream_event
started-counts agent tenant m = ground arith

pub finished-counts :
    (agent tenant : Text) (m : MetricsStore)
    → let after = record_session_finished agent tenant m in
      (after.sessions_by_agent ≡ decrement agent m.sessions_by_agent)
      × (after.sessions_by_tenant ≡ decrement tenant m.sessions_by_tenant)
      × (after.total_sessions_started ≡ m.total_sessions_started)
unfolding record_session_finished append_stream_event
finished-counts agent tenant m = ground arith
