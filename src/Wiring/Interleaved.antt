-- ===== src/Wiring/Interleaved.antt =====
-- Many sessions on one worker: their steps between two awaits, in any order, on the state that they
-- share. A session's start, the end of its body and its end hook are one step each.
pub mod Counted
use openrtc_python.Prelude.{
  ap, ◌∙◌, ℕ, suc, ◌+◌, ◌-◌, ◌≡◌, refl, Bool, true, false, ◌&&◌, Option, none, some, List, [], ◌∷◌,
  ◌++◌, arith, length, length-append, count_if, count_if-append, get_elem?, set, length-set,
  count_if-set, if◌then◌else◌, Bool-cases, Option-cases, inl, inr,
}
use openrtc_python.Prelude.Text.{Text, text_eq}
use openrtc_python.Prelude.Dict.{get, Dict, get_or}
use openrtc_python.Observer.{SessionInfo, build_session_outcome}
use openrtc_python.Breaker.{Breaker}
use openrtc_python.Metrics.{new_store, record_session_started, increment, decrement}
use openrtc_python.Metrics.Gauge.{get_or-increment, get_or-decrement}
use openrtc_python.Wiring.{
  error_of, RuntimeState, Moment, Finish, Session, Left, finish_session, record_failure,
  end_or_defer, run_session_end,
}
use openrtc_python.Wiring.Counts.{record_failure-counts, started-counts, finished-counts}

-- Where a session stands: in its body, held open with its deferred end, or over.
pub data Phase : Type 0 where
  in_body : SessionInfo → Phase
  held : Finish → Phase
  over : Phase

-- The sessions that were ever started, in that order.
pub record Worker : Type 0 where
  pub state : RuntimeState
  pub sessions : List Phase

pub data Turn : Type 0 where
  -- `build_session` gives the info, and the body of `run_session` begins
  begins : SessionInfo → Turn
  -- the body of a session ends, and the `except` and `finally` blocks run
  body_ends : ℕ → Session → Turn
  -- the executor calls `run_session_end` for a session
  end_hook : ℕ → Moment → Turn

unfoldable pub begin : SessionInfo → Worker → Worker
begin info w = record {
  state = record w.state {
    metrics = record_session_started info.agent_name info.tenant w.state.metrics;
  };
  sessions = w.sessions ++ in_body info ∷ [];
}

abbrev phase_of : Option Finish → Phase
phase_of none = over
phase_of (some f) = held f

abbrev to_phase : ℕ → Left → Worker → Worker
to_phase i left w = record {
  state = left.state;
  sessions = set w.sessions i (phase_of left.session_finish);
}

unfoldable pub end_body : ℕ → Session → Worker → Option Phase → Worker
unfolding end_or_defer
end_body i s w (some (in_body info)) =
    let failed = record w.state {
      metrics = record_failure s.body s.error_text info w.state.metrics;
    } in
    to_phase i (end_or_defer s info failed) w
end_body i s w _ = w

-- The hook finds no deferred end on the context of a session that is in its body or over.
unfoldable pub call_end_hook : ℕ → Moment → Worker → Option Phase → Worker
unfolding run_session_end
call_end_hook i at w (some (held f)) = to_phase i (run_session_end at (some f) w.state) w
call_end_hook i at w _ = w

unfoldable pub turn : Turn → Worker → Worker
unfolding begin end_body call_end_hook
turn (begins info) w = begin info w
turn (body_ends i s) w = end_body i s w (get_elem? w.sessions i)
turn (end_hook i at) w = call_end_hook i at w (get_elem? w.sessions i)

unfoldable pub run : List Turn → Worker → Worker
run [] w = w
run (t ∷ turns) w = run turns (turn t w)

unfoldable pub new_worker : ℕ → Option Breaker → Worker
new_worker now breaker = record {
  state = record { metrics = new_store now; circuit_breaker = breaker; ended = [] };
  sessions = [];
}

-- A session that has not ended, of the agent or tenant that the test picks.
abbrev pub is_open : (SessionInfo → Bool) → Phase → Bool
is_open of (in_body info) = of info
is_open of (held f) = of f.info
is_open of over = false

abbrev pub of_agent : Text → SessionInfo → Bool
of_agent a info = text_eq info.agent_name a

abbrev pub of_tenant : Text → SessionInfo → Bool
of_tenant t info = text_eq info.tenant t

abbrev pub is_over : Phase → Bool
is_over over = true
is_over _ = false
