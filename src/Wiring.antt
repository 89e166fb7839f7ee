-- ===== src/Wiring.antt =====
-- core/wiring.py: `run_session`, `run_session_end` and `_finish_session`, which put one session
-- together from the metrics, the breaker and the observers. `run_session` is one session on its own;
-- Interleaved has many, whose steps alternate.
mod Counts
pub mod Once
pub mod Interleaved
use openrtc_python.Prelude.{
  ℕ, Bool, true, false, ◌&&◌, Option, none, some, List, [], ◌∷◌, ◌++◌, if◌then◌else◌,
}
use openrtc_python.Prelude.Text.{Text}
use openrtc_python.Prelude.Outcome.{Outcome, ret, raise, Exc, is_exception}
use openrtc_python.Observer.{SessionInfo, SessionOutcome, build_session_outcome, Hook, notify}
use openrtc_python.Breaker.{Breaker, record_outcome}
use openrtc_python.Metrics.{
  MetricsStore, record_session_started, record_session_finished, record_session_failure,
}

-- The state that sessions share, with the outcomes given to the observers.
pub record RuntimeState : Type 0 where
  pub metrics : MetricsStore
  pub circuit_breaker : Option Breaker
  pub ended : List SessionOutcome

-- The moment of an end: the two clocks' readings, and what the observers' end hooks do.
pub record Moment : Type 0 where
  pub monotonic : ℕ
  pub wall : ℕ
  pub hooks : List Hook

-- `partial(_finish_session, runtime_state, info, config.name, error)`
pub record Finish : Type 0 where
  pub info : SessionInfo
  pub error : Option Exc

-- What one session does: its body, from the connect to the greeting, with the text of its error, and
-- whether its end is deferred and it is held open.
pub record Session : Type 0 where
  pub body : Outcome (Unit {0})
  pub error_text : Text
  pub defer_session_end : Bool
  pub is_held_open : Bool
  pub moment : Moment

abbrev pub succeeded : Option Exc → Bool
succeeded none = true
succeeded (some e) = false

abbrev pub record_in : ℕ → Text → Bool → Option Breaker → Option Breaker
record_in now tenant success none = none
record_in now tenant success (some b) = some (record_outcome now tenant success b)

unfoldable pub finish_session : Moment → Finish → RuntimeState → Outcome (Unit {0}) × RuntimeState
finish_session at f rt = (
  (notify at.hooks).0,
  record {
    metrics = record_session_finished f.info.agent_name f.info.tenant rt.metrics;
    circuit_breaker = record_in at.monotonic f.info.tenant (succeeded f.error) rt.circuit_breaker;
    ended = rt.ended ++ build_session_outcome at.wall f.info f.error ∷ [];
  },
)

-- `sys.exc_info()[1]`
abbrev pub error_of : Outcome (Unit {0}) → Option Exc
error_of (ret _) = none
error_of (raise e) = some e

-- `except Exception`
abbrev pub record_failure : Outcome (Unit {0}) → Text → SessionInfo → MetricsStore → MetricsStore
record_failure (ret _) error_text info m = m
record_failure (raise e) error_text info m =
    if is_exception e then record_session_failure info.agent_name error_text info.tenant m else m

-- What a session leaves: its result, the shared state, and the end that it deferred on its context.
pub record Left : Type 0 where
  pub result : Outcome (Unit {0})
  pub state : RuntimeState
  pub session_finish : Option Finish

-- An exception of the `finally` block replaces the body's.
abbrev pub finally_result : Outcome (Unit {0}) → Outcome (Unit {0}) → Outcome (Unit {0})
finally_result body (ret _) = body
finally_result body (raise e) = raise e

-- The `finally` block.
end_or_defer : Session → SessionInfo → RuntimeState → Left
end_or_defer s info rt =
    let f : Finish = record { info = info; error = error_of s.body } in
    if s.defer_session_end && s.is_held_open
    then record { result = s.body; state = rt; session_finish = some f }
    else let (r, after) = finish_session s.moment f rt in
      record { result = finally_result s.body r; state = after; session_finish = none }

-- `built` is what `build_session` gives.
unfoldable pub run_session : Outcome SessionInfo → Session → RuntimeState → Left
unfolding end_or_defer
run_session (raise e) s rt = record { result = raise e; state = rt; session_finish = none }
run_session (ret info) s rt = end_or_defer s info (record rt {
  metrics =
      record_failure s.body s.error_text info
        (record_session_started info.agent_name info.tenant rt.metrics);
})

unfoldable pub run_session_end : Moment → Option Finish → RuntimeState → Left
run_session_end at none rt = record { result = ret tt; state = rt; session_finish = none }
run_session_end at (some f) rt =
    let (r, after) = finish_session at f rt in
    record { result = r; state = after; session_finish = none }

-- The end hook called again and again on one context.
unfoldable pub run_ends : List Moment → Option Finish → RuntimeState → RuntimeState
run_ends [] finish rt = rt
run_ends (at ∷ more) finish rt =
    run_ends more (run_session_end at finish rt).session_finish (run_session_end at finish rt).state
