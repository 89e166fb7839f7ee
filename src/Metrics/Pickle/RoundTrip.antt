-- ===== src/Metrics/Pickle/RoundTrip.antt =====
-- A metrics store through `__getstate__` and `__setstate__`.
use openrtc_python.Prelude.{◌≡◌, refl, ℕ, [], ◌∷◌}
use openrtc_python.Prelude.Text.{Text-discrete}
use openrtc_python.Prelude.Dict.{Dict, get, get_or, remove}
use openrtc_python.Prelude.Outcome.{Outcome, ret}
use openrtc_python.Metrics.{MetricsStore}
use openrtc_python.Metrics.Balance.{IsGauge, IsSound}
use openrtc_python.Metrics.Pickle.{
  Value, int, of_counts, get_state, before, counts, set_state, of_store, older,
}

module _ (to_int : Value → Outcome ℕ) (to_float : ℕ → Outcome ℕ)
    (to_int_int : (n : ℕ) → to_int (int n) ≡ ret n) where
  counts-of_counts : (d : Dict ℕ) → IsGauge d → counts to_int to_float (of_counts d) ≡ ret d
  unfolding counts before
  counts-of_counts [] g = refl
  counts-of_counts ((k, n) ∷ d) g =
      rw (to_int_int n) (rw (counts-of_counts d g.2) (rw (g.1, before)))

  -- A store with sound gauges comes through a pickle as it was; from a state without the three later
  -- fields it comes with no tenant's sessions, no events and no overflow.
  pub set_state-get_state_store :
      (m : MetricsStore)
      → IsSound m
      → (set_state to_int to_float (get_state m) ≡ ret (of_store m))
        × (set_state to_int to_float (older (get_state m))
            ≡ ret (record (of_store m) {
              sessions_by_tenant = [];
              stream_events = [];
              overflow_since_drain = 0;
            }))
  unfolding set_state get_state counts get get_or remove Text-discrete
  set_state-get_state_store m sound =
      let agents = counts-of_counts m.sessions_by_agent sound.agents in
      let tenants = counts-of_counts m.sessions_by_tenant sound.tenants in
      (rw agents (rw tenants), rw agents)
