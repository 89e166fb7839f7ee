-- ===== src/Metrics/Balance.antt =====
-- `RuntimeMetricsStore.snapshot`: the active sessions against the sessions started and finished.
use openrtc_python.Prelude.{
  ap, suc, ltb→lt, inl, inr, Bool-cases, sym, ℕ, ◌+◌, ◌-◌, ◌<◌, ◌≡◌, ◌≢◌, refl, none, List, [], ◌∷◌,
  arith, ltb,
}
use openrtc_python.Prelude.Text.{text_eq→ne, Text, text_eq}
use openrtc_python.Prelude.Dict.{Dict, get, get_or, put, remove}
use openrtc_python.Metrics.{
  snapshot, MetricsStore, append_stream_event, increment, decrement, sum_values,
  record_session_started, record_session_finished, record_session_failure, Recording, started,
  finished, failed, apply, run,
}

-- A count dictionary as the store keeps it: each name once, and no count of 0.
abbrev pub IsGauge : Dict ℕ → Type 0
IsGauge [] = Unit
IsGauge ((k, n) ∷ d) = (0 < n) × (get k d ≡ none) × IsGauge d

get-remove-none : (k j : Text) (d : Dict ℕ) → get j d ≡ none → get j (remove k d) ≡ none
unfolding get remove
get-remove-none k j [] h = refl
get-remove-none k j ((i, n) ∷ d) h = ground (arith, get-remove-none k j d)

get-put-none : (k j : Text) (n : ℕ) (d : Dict ℕ) → k ≢ j → get j d ≡ none → get j (put k n d) ≡ none
unfolding get put
get-put-none k j n [] e h = ground arith
get-put-none k j n ((i, m) ∷ d) e h = ground (arith, get-put-none k j n d e)

put-IsGauge : (k : Text) (n : ℕ) (d : Dict ℕ) → 0 < n → IsGauge d → IsGauge (put k n d)
unfolding put get
put-IsGauge k n [] h g = (h, refl, tt)
put-IsGauge k n ((i, m) ∷ d) h g = elim (Bool-cases (text_eq i k)) [
  | inl same ↦ rw same (h, g.1, g.2)
  | inr other ↦
      let ne : k ≢ i = λ e. text_eq→ne i k other (sym e) in
      rw other (g.0, get-put-none k i n d ne g.1, put-IsGauge k n d h g.2)
]

remove-IsGauge : (k : Text) (d : Dict ℕ) → IsGauge d → IsGauge (remove k d)
unfolding remove
remove-IsGauge k [] g = tt
remove-IsGauge k ((i, m) ∷ d) g = elim (Bool-cases (text_eq i k)) [
  | inl same ↦ rw same (remove-IsGauge k d g.2)
  | inr other ↦ rw other (g.0, get-remove-none k i d g.1, remove-IsGauge k d g.2)
]

increment-IsGauge : (k : Text) (d : Dict ℕ) → IsGauge d → IsGauge (increment k d)
unfolding increment
increment-IsGauge k d g = put-IsGauge k (get_or k 0 d + 1) d (omega arith) g

decrement-IsGauge : (k : Text) (d : Dict ℕ) → IsGauge d → IsGauge (decrement k d)
unfolding decrement
decrement-IsGauge k d g = elim (Bool-cases (ltb 0 (get_or k 0 d - 1))) [
  | inl more ↦ rw more (put-IsGauge k (get_or k 0 d - 1) d (ltb→lt _ _ more) g)
  | inr last ↦ rw last (remove-IsGauge k d g)
]

sum_values-put :
    (k : Text) (n : ℕ) (d : Dict ℕ) → sum_values (put k n d) + get_or k 0 d ≡ sum_values d + n
unfolding put get_or sum_values
sum_values-put k n [] = omega arith
sum_values-put k n ((i, m) ∷ d) = ground (arith, sum_values-put k n d)

remove-absent : (k : Text) (d : Dict ℕ) → get k d ≡ none → remove k d ≡ d
unfolding get remove
remove-absent k [] h = refl
remove-absent k ((i, m) ∷ d) h = ground (arith, remove-absent k d)

sum_values-remove :
    (k : Text) (d : Dict ℕ) → IsGauge d → sum_values (remove k d) + get_or k 0 d ≡ sum_values d
unfolding remove get_or sum_values
sum_values-remove k [] g = omega arith
sum_values-remove k ((i, m) ∷ d) g = ground (arith, sum_values-remove k d g.2, remove-absent k d)

sum_values-increment : (k : Text) (d : Dict ℕ) → sum_values (increment k d) ≡ sum_values d + 1
unfolding increment
sum_values-increment k d = omega (arith, sum_values-put k (get_or k 0 d + 1) d)

sum_values-decrement :
    (k : Text) (d : Dict ℕ)
    → IsGauge d
    → 0 < get_or k 0 d
    → sum_values (decrement k d) + 1 ≡ sum_values d
unfolding decrement
sum_values-decrement k d g h =
    ground (arith, sum_values-put k (get_or k 0 d - 1) d, sum_values-remove k d g)

-- Both count dictionaries of a store.
pub record IsSound (m : MetricsStore) : Type 0 where
  pub agents : IsGauge m.sessions_by_agent
  pub tenants : IsGauge m.sessions_by_tenant

-- What a recording does to the two dictionaries.
abbrev agents_after : Recording → Dict ℕ → Dict ℕ
agents_after (started agent tenant) d = increment agent d
agents_after (finished agent tenant) d = decrement agent d
agents_after (failed agent error tenant) d = d

abbrev tenants_after : Recording → Dict ℕ → Dict ℕ
tenants_after (started agent tenant) d = increment tenant d
tenants_after (finished agent tenant) d = decrement tenant d
tenants_after (failed agent error tenant) d = d

apply-dicts :
    (r : Recording) (m : MetricsStore)
    → ((apply r m).sessions_by_agent ≡ agents_after r m.sessions_by_agent)
      × ((apply r m).sessions_by_tenant ≡ tenants_after r m.sessions_by_tenant)
unfolding record_session_started record_session_finished record_session_failure append_stream_event
apply-dicts (started agent tenant) m = ground arith
apply-dicts (finished agent tenant) m = ground arith
apply-dicts (failed agent error tenant) m = ground arith

agents_after-IsGauge : (r : Recording) (d : Dict ℕ) → IsGauge d → IsGauge (agents_after r d)
agents_after-IsGauge (started agent tenant) d g = increment-IsGauge agent d g
agents_after-IsGauge (finished agent tenant) d g = decrement-IsGauge agent d g
agents_after-IsGauge (failed agent error tenant) d g = g

tenants_after-IsGauge : (r : Recording) (d : Dict ℕ) → IsGauge d → IsGauge (tenants_after r d)
tenants_after-IsGauge (started agent tenant) d g = increment-IsGauge tenant d g
tenants_after-IsGauge (finished agent tenant) d g = decrement-IsGauge tenant d g
tenants_after-IsGauge (failed agent error tenant) d g = g

apply-IsSound : (r : Recording) (m : MetricsStore) → IsSound m → IsSound (apply r m)
apply-IsSound r m g = record {
  agents = rw ((apply-dicts r m).0) (agents_after-IsGauge r m.sessions_by_agent g.agents);
  tenants = rw ((apply-dicts r m).1) (tenants_after-IsGauge r m.sessions_by_tenant g.tenants);
}

-- Whatever is recorded, in whatever order, each gauge lists a name at most once and only with a
-- count above 0.
pub run-IsSound : (rs : List Recording) (m : MetricsStore) → IsSound m → IsSound (run rs m)
unfolding run
run-IsSound [] m g = g
run-IsSound (r ∷ rs) m g = run-IsSound rs (apply r m) (apply-IsSound r m g)

-- Every finish is of an agent and a tenant that have an active session then.
abbrev pub Paired : List Recording → MetricsStore → Type 0
Paired [] m = Unit
Paired (started agent tenant ∷ rs) m = Paired rs (record_session_started agent tenant m)
Paired (finished agent tenant ∷ rs) m =
    (0 < get_or agent 0 m.sessions_by_agent)
    × (0 < get_or tenant 0 m.sessions_by_tenant)
    × Paired rs (record_session_finished agent tenant m)
Paired (failed agent error tenant ∷ rs) m = Paired rs (record_session_failure agent error tenant m)

abbrev pub starts : List Recording → ℕ
starts [] = 0
starts (started agent tenant ∷ rs) = suc (starts rs)
starts (finished agent tenant ∷ rs) = starts rs
starts (failed agent error tenant ∷ rs) = starts rs

abbrev pub finishes : List Recording → ℕ
finishes [] = 0
finishes (started agent tenant ∷ rs) = finishes rs
finishes (finished agent tenant ∷ rs) = suc (finishes rs)
finishes (failed agent error tenant ∷ rs) = finishes rs

total_started-apply :
    (r : Recording) (m : MetricsStore)
    → (apply r m).total_sessions_started + starts [] ≡ m.total_sessions_started + starts (r ∷ [])
unfolding record_session_started record_session_finished record_session_failure append_stream_event
total_started-apply (started agent tenant) m = ground arith
total_started-apply (finished agent tenant) m = ground arith
total_started-apply (failed agent error tenant) m = ground arith

-- Where every finish is of an agent and a tenant with an active session: the active sessions of the
-- snapshot and the finishes of a run make up the sessions active before it and its starts, the
-- tenants' gauge balances in the same way, and the total of sessions started grows by the starts.
-- The store before the run has sound gauges.
pub snapshot-run :
    (rs : List Recording) (m : MetricsStore) (now : ℕ)
    → IsSound m
    → Paired rs m
    → let s = snapshot now (run rs m) in
      (s.active_sessions + finishes rs ≡ sum_values m.sessions_by_agent + starts rs)
      × (sum_values s.sessions_by_tenant + finishes rs
          ≡ sum_values m.sessions_by_tenant + starts rs)
      × (s.total_sessions_started ≡ m.total_sessions_started + starts rs)
unfolding run snapshot
snapshot-run [] m now g p = omega arith
snapshot-run (started agent tenant ∷ rs) m now g p =
    let r = started agent tenant in
    let (a, t) = apply-dicts r m in
    omega (
      arith,
      snapshot-run rs (apply r m) now (apply-IsSound r m g) p,
      ap sum_values a,
      ap sum_values t,
      sum_values-increment agent m.sessions_by_agent,
      sum_values-increment tenant m.sessions_by_tenant,
      total_started-apply r m,
    )
snapshot-run (finished agent tenant ∷ rs) m now g p =
    let r = finished agent tenant in
    let (a, t) = apply-dicts r m in
    omega (
      arith,
      snapshot-run rs (apply r m) now (apply-IsSound r m g) p.2,
      ap sum_values a,
      ap sum_values t,
      sum_values-decrement agent m.sessions_by_agent g.agents p.0,
      sum_values-decrement tenant m.sessions_by_tenant g.tenants p.1,
      total_started-apply r m,
    )
snapshot-run (failed agent error tenant ∷ rs) m now g p =
    let r = failed agent error tenant in
    let (a, t) = apply-dicts r m in
    omega (
      arith,
      snapshot-run rs (apply r m) now (apply-IsSound r m g) p,
      ap sum_values a,
      ap sum_values t,
      total_started-apply r m,
    )
