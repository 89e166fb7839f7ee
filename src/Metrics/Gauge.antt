-- ===== src/Metrics/Gauge.antt =====
-- The active-session gauges of `RuntimeMetricsStore`: each name's count follows the sessions of
-- that name alone.
use openrtc_python.Prelude.{ap, ◌∙◌, ℕ, ◌+◌, ◌-◌, ◌≡◌, refl, List, [], ◌∷◌, arith, if◌then◌else◌}
use openrtc_python.Prelude.Text.{Text, text_eq}
use openrtc_python.Prelude.Dict.{Dict, get_or, get-put, get-remove}
use openrtc_python.Metrics.{
  MetricsStore, append_stream_event, increment, decrement, record_session_started,
  record_session_finished, record_session_failure, Recording, started, finished, failed, apply, run,
}

pub get_or-increment :
    (k j : Text) (d : Dict ℕ)
    → get_or j 0 (increment k d) ≡ (if text_eq k j then get_or j 0 d + 1 else get_or j 0 d)
unfolding get_or increment
get_or-increment k j d = ground (arith, get-put k j (get_or k 0 d + 1) d)

pub get_or-decrement :
    (k j : Text) (d : Dict ℕ)
    → get_or j 0 (decrement k d) ≡ (if text_eq k j then get_or j 0 d - 1 else get_or j 0 d)
unfolding get_or decrement
get_or-decrement k j d = ground (arith, get-put k j (get_or k 0 d - 1) d, get-remove k j d)

-- The sessions of one agent: up at a start, down at a finish, never below 0.
abbrev pub agent_gauge : Text → Recording → ℕ → ℕ
agent_gauge a (started agent tenant) n = if text_eq agent a then n + 1 else n
agent_gauge a (finished agent tenant) n = if text_eq agent a then n - 1 else n
agent_gauge a (failed agent error tenant) n = n

abbrev pub tenant_gauge : Text → Recording → ℕ → ℕ
tenant_gauge t (started agent tenant) n = if text_eq tenant t then n + 1 else n
tenant_gauge t (finished agent tenant) n = if text_eq tenant t then n - 1 else n
tenant_gauge t (failed agent error tenant) n = n

unfoldable pub gauge_run : (Recording → ℕ → ℕ) → List Recording → ℕ → ℕ
gauge_run g [] n = n
gauge_run g (r ∷ rs) n = gauge_run g rs (g r n)

dicts-apply :
    (r : Recording) (m : MetricsStore) (a t : Text)
    → (get_or a 0 (apply r m).sessions_by_agent ≡ agent_gauge a r (get_or a 0 m.sessions_by_agent))
      × (get_or t 0 (apply r m).sessions_by_tenant
          ≡ tenant_gauge t r (get_or t 0 m.sessions_by_tenant))
unfolding record_session_started record_session_finished record_session_failure append_stream_event
dicts-apply (started agent tenant) m a t = ground (
  arith,
  get_or-increment agent a m.sessions_by_agent,
  get_or-increment tenant t m.sessions_by_tenant,
)
dicts-apply (finished agent tenant) m a t = ground (
  arith,
  get_or-decrement agent a m.sessions_by_agent,
  get_or-decrement tenant t m.sessions_by_tenant,
)
dicts-apply (failed agent error tenant) m a t = ground arith

-- The counts that the backpressure filters read are, for every agent and every tenant, the gauge of
-- that name's own starts and finishes: other names' sessions and failures do not move it.
pub run-gauge :
    (rs : List Recording) (m : MetricsStore) (a t : Text)
    → (get_or a 0 (run rs m).sessions_by_agent
        ≡ gauge_run (agent_gauge a) rs (get_or a 0 m.sessions_by_agent))
      × (get_or t 0 (run rs m).sessions_by_tenant
          ≡ gauge_run (tenant_gauge t) rs (get_or t 0 m.sessions_by_tenant))
unfolding run gauge_run
run-gauge [] m a t = (refl, refl)
run-gauge (r ∷ rs) m a t =
    let (here_a, here_t) = dicts-apply r m a t in
    let (more_a, more_t) = run-gauge rs (apply r m) a t in
    (
      more_a ∙ ap (gauge_run (agent_gauge a) rs) here_a,
      more_t ∙ ap (gauge_run (tenant_gauge t) rs) here_t,
    )
