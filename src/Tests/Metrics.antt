-- ===== src/Tests/Metrics.antt =====
-- The metrics store and the audit log on short runs.
use openrtc_python.Prelude.{false, true, map, ℕ, All, ◌+◌, ◌≡◌, refl, none, List, [], ◌∷◌, arith}
use openrtc_python.Prelude.Text.{Text, Text-discrete, codes}
use openrtc_python.Prelude.Dict.{remove, DistinctKeys, Dict, get, get_or, put}
use openrtc_python.Prelude.Outcome.{is_ret, type_error, ret, Outcome, raise, runtime_error}
use openrtc_python.Metrics.{
  new_store, Recording, started, finished, failed, run, snapshot, sum_values,
  record_session_started, record_session_finished, record_session_failure, append_stream_event,
  increment, decrement,
}
use openrtc_python.Metrics.Balance.{run-IsSound, IsSound, Paired, snapshot-run}
use openrtc_python.Audit.{to_dict, AuditEvent, Emission, AuditLog, emit_all}
use openrtc_python.Audit.Records.{shown_seqs, emit_all-seqs}
use openrtc_python.Metrics.Pickle
use openrtc_python.Metrics.Pickle.{Pairs, Unpickled, get_state, counts, set_state, of_store, older}
use openrtc_python.Metrics.Pickle.Typed.{all_taken, is_well_typed, set_state-typed}
use openrtc_python.Metrics.Pickle.RoundTrip.{set_state-get_state_store}

abbrev a : Text
a = codes "a"

abbrev t : Text
t = codes "t"

-- Two sessions, one of which fails and ends.
abbrev rs : List Recording
rs = started a t ∷ started a t ∷ failed a (codes "boom") t ∷ finished a t ∷ []

new_store-IsSound : IsSound (new_store 0)
unfolding new_store
new_store-IsSound = record { agents = tt; tenants = tt }

rs-Paired : Paired rs (new_store 0)
unfolding new_store record_session_started record_session_finished record_session_failure
    append_stream_event increment decrement get get_or put Text-discrete
rs-Paired = (omega arith, omega arith, tt)

snapshot-run_example :
    let s = snapshot 9 (run rs (new_store 0)) in
    (s.active_sessions + 1 ≡ 0 + 2)
    × (sum_values s.sessions_by_tenant + 1 ≡ 0 + 2)
    × (s.total_sessions_started ≡ 0 + 2)
unfolding new_store sum_values
snapshot-run_example = snapshot-run rs (new_store 0) 9 new_store-IsSound rs-Paired

abbrev emission : Emission
emission = record {
  now = 1;
  event_type = codes "reload";
  actor = codes "cli";
  target = codes "pool";
  result = codes "ok";
  version = none;
  fields = [];
  sink = raise runtime_error;
}

abbrev log : AuditLog
log = record { seq = 3; handed = [] }

-- The second emission has an extra field `seq`.
abbrev emissions : List Emission
emissions = emission ∷ (record emission { fields = (codes "seq", codes "9") ∷ [] }) ∷ []

emissions-distinct : All (λ e. DistinctKeys e.fields) emissions
unfolding get
emissions-distinct = (tt, ((refl, tt), tt))

emit_all-seqs_example :
    let after = emit_all emissions log in
    (new : List AuditEvent) × (after.handed ≡ new)
    × (map (λ e. get (codes "seq") (to_dict e)) new ≡ shown_seqs 3 emissions)
    × (after.seq ≡ 5)
emit_all-seqs_example = emit_all-seqs emissions log emissions-distinct

abbrev to_int : Pickle.Value → Outcome ℕ
to_int (Pickle.int n) = ret n
to_int _ = raise type_error

abbrev to_float : ℕ → Outcome ℕ
to_float n = ret n

to_int_int : (n : ℕ) → to_int (Pickle.int n) ≡ ret n
to_int_int n = refl

set_state-get_state_store_example :
    let m = run rs (new_store 0) in
    (set_state to_int to_float (get_state m) ≡ ret (of_store m))
    × (set_state to_int to_float (older (get_state m))
        ≡ ret (record (of_store m) {
          sessions_by_tenant = [];
          stream_events = [];
          overflow_since_drain = 0;
        }))
set_state-get_state_store_example =
    set_state-get_state_store to_int to_float to_int_int (run rs (new_store 0))
      (run-IsSound rs (new_store 0) new_store-IsSound)

-- A state of an older version, and one whose overflow is a text.
abbrev old_state : Dict Pickle.Value
old_state = older (get_state (new_store 6))

abbrev bad_state : Dict Pickle.Value
bad_state = (codes "_metrics_stream_overflow_since_drain", Pickle.text (codes "2")) ∷ old_state

old_state_accepted : is_well_typed to_int to_float old_state ≡ true
unfolding is_well_typed all_taken get_state new_store get Text-discrete remove
old_state_accepted = refl

set_state-typed_example :
    is_ret (set_state to_int to_float bad_state) ≡ is_well_typed to_int to_float bad_state
set_state-typed_example = set_state-typed to_int to_float bad_state

bad_state_rejected : is_well_typed to_int to_float bad_state ≡ false
unfolding is_well_typed all_taken get_state new_store get Text-discrete remove
bad_state_rejected = refl
