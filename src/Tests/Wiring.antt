-- ===== src/Tests/Wiring.antt =====
-- A held-open session whose body fails, and whose end hook is called twice.
use openrtc_python.Prelude.{length, List, count_if, ℕ, ◌+◌, ◌≡◌, true, false, none, some, [], ◌∷◌}
use openrtc_python.Prelude.Text.{Text, codes}
use openrtc_python.Prelude.Dict.{get_or}
use openrtc_python.Prelude.Outcome.{ret, raise, runtime_error}
use openrtc_python.SessionView.{str}
use openrtc_python.Observer.{SessionInfo, build_session_outcome}
use openrtc_python.Breaker.{Breaker}
use openrtc_python.Metrics.{new_store}
use openrtc_python.Wiring.{RuntimeState, Moment, Session, record_in, run_session, run_ends}
use openrtc_python.Wiring.Interleaved.{
  Turn, begins, body_ends, end_hook, run, new_worker, is_open, of_agent, of_tenant, is_over,
}
use openrtc_python.Wiring.Interleaved.Counted.{run-counts}
use openrtc_python.Wiring.Once.{run_session-once}

abbrev sales : Text
sales = codes "sales"

abbrev acme : Text
acme = codes "acme"

abbrev info : SessionInfo
info = record {
  agent_name = sales;
  room_name = codes "sales-1";
  job_id = str [];
  metadata = (codes "tenant", acme) ∷ [];
  started_at = 7;
  tenant = acme;
  deployment_version = none;
}

abbrev moment : ℕ → Moment
moment n = record { monotonic = n; wall = n + 100; hooks = [] }

abbrev session : Session
session = record {
  body = raise runtime_error;
  error_text = codes "RuntimeError: no";
  defer_session_end = true;
  is_held_open = true;
  moment = moment 5;
}

abbrev breaker : Breaker
breaker = record {
  config = record { ratio_num = 1; ratio_den = 2; min_samples = 2; window = 60; cooldown = 30 };
  outcomes = [];
  open_until = [];
  notified = [];
}

abbrev state : RuntimeState
state = record { metrics = new_store 0; circuit_breaker = some breaker; ended = [] }

run_session-once_example :
    let left = run_session (ret info) session state in
    let after = run_ends (moment 9 ∷ moment 10 ∷ []) left.session_finish left.state in
    (get_or sales 0 after.metrics.sessions_by_agent
      ≡ get_or sales 0 (new_store 0).sessions_by_agent)
    × (get_or acme 0 after.metrics.sessions_by_tenant
        ≡ get_or acme 0 (new_store 0).sessions_by_tenant)
    × (after.metrics.total_sessions_started ≡ (new_store 0).total_sessions_started + 1)
    × (after.circuit_breaker ≡ record_in 9 acme false (some breaker))
    × (after.ended ≡ build_session_outcome 109 info (some runtime_error) ∷ [])
run_session-once_example =
    run_session-once info session state (moment 9) (moment 10 ∷ []) sales acme

-- Two sessions that alternate: the second is held open, and its end hook runs twice.
abbrev turns : List Turn
turns =
    begins info
    ∷ begins info
    ∷ body_ends 1 session
    ∷ body_ends 0 (record session { defer_session_end = false })
    ∷ end_hook 1 (moment 9)
    ∷ end_hook 1 (moment 10)
    ∷ begins info
    ∷ []

run-counts_example :
    let w = run turns (new_worker 0 (some breaker)) in
    (get_or sales 0 w.state.metrics.sessions_by_agent
      ≡ count_if (is_open (of_agent sales)) w.sessions)
    × (get_or acme 0 w.state.metrics.sessions_by_tenant
        ≡ count_if (is_open (of_tenant acme)) w.sessions)
    × (w.state.metrics.total_sessions_started ≡ length w.sessions)
    × (length w.state.ended ≡ count_if is_over w.sessions)
run-counts_example = run-counts sales acme 0 (some breaker) turns
