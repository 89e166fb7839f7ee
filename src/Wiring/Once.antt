-- ===== src/Wiring/Once.antt =====
-- `run_session` and `run_session_end`: a session that is built is started and finished once.
use openrtc_python.Prelude.{
  ℕ, ◌+◌, ◌≡◌, refl, ap, ◌∙◌, ◌&&◌, none, List, [], ◌∷◌, ◌++◌, arith, if◌then◌else◌, Bool-cases,
  inl, inr,
}
use openrtc_python.Prelude.Text.{Text}
use openrtc_python.Prelude.Dict.{Dict, get_or}
use openrtc_python.Prelude.Outcome.{ret}
use openrtc_python.Observer.{SessionInfo, build_session_outcome}
use openrtc_python.Metrics.{increment, decrement, record_session_started}
use openrtc_python.Metrics.Gauge.{get_or-increment, get_or-decrement}
use openrtc_python.Wiring.{
  RuntimeState, Moment, Session, succeeded, record_in, finish_session, error_of, record_failure,
  end_or_defer, run_session, run_session_end, run_ends,
}
use openrtc_python.Wiring.Counts.{record_failure-counts, started-counts, finished-counts}

ends_again : (ends : List Moment) (rt : RuntimeState) → run_ends ends none rt ≡ rt
unfolding run_ends run_session_end
ends_again [] rt = refl
ends_again (at ∷ ends) rt = ends_again ends rt

-- The moment at which a session's end is reported: its own, or that of the first call of the hook.
abbrev pub end_moment : Session → Moment → Moment
end_moment s at = if s.defer_session_end && s.is_held_open then at else s.moment

-- The state when the body is over.
abbrev body_over : SessionInfo → Session → RuntimeState → RuntimeState
body_over info s rt = record rt {
  metrics =
      record_failure s.body s.error_text info
        (record_session_started info.agent_name info.tenant rt.metrics);
}

finished_once :
    (info : SessionInfo) (s : Session) (rt : RuntimeState) (at : Moment) (ends : List Moment)
    → let left = run_session (ret info) s rt in
      run_ends (at ∷ ends) left.session_finish left.state
      ≡ (finish_session
          (end_moment s at)
          (record { info = info; error = error_of s.body })
          (body_over info s rt)).1
unfolding run_session end_or_defer run_ends run_session_end
finished_once info s rt at ends = elim (Bool-cases (s.defer_session_end && s.is_held_open)) [
  | inl deferred ↦ rw deferred (ends_again ends _)
  | inr here ↦ rw here (ends_again ends _)
]

increment-decrement :
    (k j : Text) (d : Dict ℕ) → get_or j 0 (decrement k (increment k d)) ≡ get_or j 0 d
increment-decrement k j d =
    ground (arith, get_or-decrement k j (increment k d), get_or-increment k j d)

-- A session that is built is finished exactly once, at its own end or at the first call of the end
-- hook, however often the hook is called and however the body ends: every agent's and every
-- tenant's active count is what it was before, one session more was started, the tenant's breaker
-- got one outcome, a failure if the body raised, and the observers one outcome.
pub run_session-once :
    (info : SessionInfo) (s : Session) (rt : RuntimeState) (at : Moment) (ends : List Moment)
    (a t : Text)
    → let left = run_session (ret info) s rt in
      let after = run_ends (at ∷ ends) left.session_finish left.state in
      let end = end_moment s at in
      (get_or a 0 after.metrics.sessions_by_agent ≡ get_or a 0 rt.metrics.sessions_by_agent)
      × (get_or t 0 after.metrics.sessions_by_tenant ≡ get_or t 0 rt.metrics.sessions_by_tenant)
      × (after.metrics.total_sessions_started ≡ rt.metrics.total_sessions_started + 1)
      × (after.circuit_breaker
          ≡ record_in end.monotonic info.tenant (succeeded (error_of s.body)) rt.circuit_breaker)
      × (after.ended ≡ rt.ended ++ build_session_outcome end.wall info (error_of s.body) ∷ [])
unfolding finish_session
run_session-once info s rt at ends a t =
    let m = record_session_started info.agent_name info.tenant rt.metrics in
    let (start_a, start_t, start_n) = started-counts info.agent_name info.tenant rt.metrics in
    let (body_a, body_t, body_n) = record_failure-counts s.body s.error_text info m in
    let (end_a, end_t, end_n) =
      finished-counts info.agent_name info.tenant (record_failure s.body s.error_text info m) in
    rw (finished_once info s rt at ends) (
      ap (get_or a 0) (end_a ∙ ap (decrement info.agent_name) (body_a ∙ start_a))
          ∙ increment-decrement info.agent_name a rt.metrics.sessions_by_agent,
      ap (get_or t 0) (end_t ∙ ap (decrement info.tenant) (body_t ∙ start_t))
          ∙ increment-decrement info.tenant t rt.metrics.sessions_by_tenant,
      end_n ∙ body_n ∙ start_n,
      refl,
      refl,
    )
