-- ===== src/Wiring/Interleaved/Counted.antt =====
-- What the counts of the shared metrics say when sessions alternate.
use openrtc_python.Prelude.{
  ap, ◌∙◌, ℕ, ◌≡◌, refl, Bool, false, ◌&&◌, Option, none, some, List, [], ◌∷◌, arith, length,
  length-append, count_if, count_if-append, get_elem?, set, length-set, count_if-set, Bool-cases,
  inl, inr,
}
use openrtc_python.Prelude.Text.{Text}
use openrtc_python.Prelude.Dict.{get, get_or}
use openrtc_python.Observer.{SessionInfo, build_session_outcome}
use openrtc_python.Breaker.{Breaker}
use openrtc_python.Metrics.{new_store, decrement}
use openrtc_python.Metrics.Gauge.{get_or-increment, get_or-decrement}
use openrtc_python.Wiring.{
  error_of, RuntimeState, Moment, Finish, Session, finish_session, record_failure, end_or_defer,
  run_session_end,
}
use openrtc_python.Wiring.Counts.{record_failure-counts, started-counts, finished-counts}
use openrtc_python.Wiring.{error_of}
use openrtc_python.Wiring.Interleaved.{
  Phase, in_body, held, over, Worker, Turn, begins, body_ends, end_hook, begin, end_body,
  call_end_hook, turn, run, new_worker, is_open, of_agent, of_tenant, is_over,
}

module _ (a t : Text) where
  record Counted (w : Worker) : Type 0 where
    pub agents :
        get_or a 0 w.state.metrics.sessions_by_agent ≡ count_if (is_open (of_agent a)) w.sessions
    pub tenants :
        get_or t 0 w.state.metrics.sessions_by_tenant ≡ count_if (is_open (of_tenant t)) w.sessions
    pub started : w.state.metrics.total_sessions_started ≡ length w.sessions
    pub ends : length w.state.ended ≡ count_if is_over w.sessions

  begin-Counted : (info : SessionInfo) (w : Worker) → Counted w → Counted (begin info w)
  unfolding begin
  begin-Counted info w c =
      let (by_agent, by_tenant, total) =
        started-counts info.agent_name info.tenant w.state.metrics in
      let new = in_body info ∷ [] in
      record {
        agents =
            ap (get_or a 0) by_agent
            ∙ get_or-increment info.agent_name a w.state.metrics.sessions_by_agent
            ∙ ground (arith, c.agents, count_if-append (is_open (of_agent a)) w.sessions new);
        tenants =
            ap (get_or t 0) by_tenant
            ∙ get_or-increment info.tenant t w.state.metrics.sessions_by_tenant
            ∙ ground (arith, c.tenants, count_if-append (is_open (of_tenant t)) w.sessions new);
        started = omega (arith, total, c.started, length-append w.sessions new);
        ends = omega (arith, c.ends, count_if-append is_over w.sessions new);
      }

  -- A state with the counts and the outcomes of the worker's own.
  record Agrees (st : RuntimeState) (w : Worker) : Type 0 where
    pub agents : st.metrics.sessions_by_agent ≡ w.state.metrics.sessions_by_agent
    pub tenants : st.metrics.sessions_by_tenant ≡ w.state.metrics.sessions_by_tenant
    pub started : st.metrics.total_sessions_started ≡ w.state.metrics.total_sessions_started
    pub ends : st.ended ≡ w.state.ended

  -- The open session at `i` is finished.
  finish-Counted :
      (i : ℕ) (at : Moment) (f : Finish) (st : RuntimeState) (w : Worker) (old : Phase)
      → get_elem? w.sessions i ≡ some old
      → ((of : SessionInfo → Bool) → is_open of old ≡ of f.info)
      → is_over old ≡ false
      → Agrees st w
      → Counted w
      → Counted (record { state = (finish_session at f st).1; sessions = set w.sessions i over })
  unfolding finish_session
  finish-Counted i at f st w old found of_info not_over same c =
      let (by_agent, by_tenant, total) =
        finished-counts f.info.agent_name f.info.tenant st.metrics in
      record {
        agents =
            ap (get_or a 0) (by_agent ∙ ap (decrement f.info.agent_name) same.agents)
            ∙ get_or-decrement f.info.agent_name a w.state.metrics.sessions_by_agent
            ∙ ground (
              arith,
              c.agents,
              of_info (of_agent a),
              count_if-set (is_open (of_agent a)) w.sessions i old over found,
            );
        tenants =
            ap (get_or t 0) (by_tenant ∙ ap (decrement f.info.tenant) same.tenants)
            ∙ get_or-decrement f.info.tenant t w.state.metrics.sessions_by_tenant
            ∙ ground (
              arith,
              c.tenants,
              of_info (of_tenant t),
              count_if-set (is_open (of_tenant t)) w.sessions i old over found,
            );
        started = total ∙ same.started ∙ omega (arith, c.started, length-set w.sessions i over);
        ends = ground (
          arith,
          ap (length {0}) same.ends,
          c.ends,
          count_if-set is_over w.sessions i old over found,
          length-append st.ended (build_session_outcome at.wall f.info f.error ∷ []),
        );
      }

  -- The session at `i` is held open from now on.
  hold-Counted :
      (i : ℕ) (f : Finish) (st : RuntimeState) (w : Worker)
      → get_elem? w.sessions i ≡ some (in_body f.info)
      → Agrees st w
      → Counted w
      → Counted (record { state = st; sessions = set w.sessions i (held f) })
  hold-Counted i f st w found same c =
      let before = in_body f.info in
      let count_a = count_if-set (is_open (of_agent a)) w.sessions i before (held f) found in
      let count_t = count_if-set (is_open (of_tenant t)) w.sessions i before (held f) found in
      record {
        agents = ap (get_or a 0) same.agents ∙ omega (arith, c.agents, count_a);
        tenants = ap (get_or t 0) same.tenants ∙ omega (arith, c.tenants, count_t);
        started = same.started ∙ omega (arith, c.started, length-set w.sessions i (held f));
        ends =
            ap length same.ends
            ∙ omega (arith, c.ends, count_if-set is_over w.sessions i before (held f) found);
      }

  failed-Agrees :
      (s : Session) (info : SessionInfo) (w : Worker)
      → Agrees
          (record w.state { metrics = record_failure s.body s.error_text info w.state.metrics })
          w
  failed-Agrees s info w =
      let (by_agent, by_tenant, total) =
        record_failure-counts s.body s.error_text info w.state.metrics in
      record { agents = by_agent; tenants = by_tenant; started = total; ends = refl }

  end_body-Counted :
      (i : ℕ) (s : Session) (w : Worker) (o : Option Phase)
      → get_elem? w.sessions i ≡ o
      → Counted w
      → Counted (end_body i s w o)
  unfolding end_body end_or_defer
  end_body-Counted i s w (some (in_body info)) found c =
      let st = record w.state {
        metrics = record_failure s.body s.error_text info w.state.metrics;
      } in
      let f : Finish = record { info = info; error = error_of s.body } in
      elim (Bool-cases (s.defer_session_end && s.is_held_open)) [
        | inl deferred ↦ rw deferred (hold-Counted i f st w found (failed-Agrees s info w) c)
        | inr here ↦ rw here (
            finish-Counted i s.moment f st w (in_body info) found (λ of. refl) refl
              (failed-Agrees s info w) c)
      ]
  end_body-Counted i s w (some (held f)) found c = c
  end_body-Counted i s w (some over) found c = c
  end_body-Counted i s w none found c = c

  call_end_hook-Counted :
      (i : ℕ) (at : Moment) (w : Worker) (o : Option Phase)
      → get_elem? w.sessions i ≡ o
      → Counted w
      → Counted (call_end_hook i at w o)
  unfolding call_end_hook run_session_end
  call_end_hook-Counted i at w (some (held f)) found c =
      finish-Counted i at f w.state w (held f) found (λ of. refl) refl
        (record { agents = refl; tenants = refl; started = refl; ends = refl }) c
  call_end_hook-Counted i at w (some (in_body info)) found c = c
  call_end_hook-Counted i at w (some over) found c = c
  call_end_hook-Counted i at w none found c = c

  turn-Counted : (u : Turn) (w : Worker) → Counted w → Counted (turn u w)
  unfolding turn
  turn-Counted (begins info) w c = begin-Counted info w c
  turn-Counted (body_ends i s) w c = end_body-Counted i s w (get_elem? w.sessions i) refl c
  turn-Counted (end_hook i at) w c = call_end_hook-Counted i at w (get_elem? w.sessions i) refl c

  run-Counted : (turns : List Turn) (w : Worker) → Counted w → Counted (run turns w)
  unfolding run
  run-Counted [] w c = c
  run-Counted (u ∷ turns) w c = run-Counted turns (turn u w) (turn-Counted u w c)

  -- However the steps of any number of sessions alternate, whether their bodies return, raise or are
  -- held open, and however often their end hooks are called: the counts that the caps read are, for
  -- every agent and every tenant, the number of its sessions that have begun and not ended; as many
  -- sessions were started as have begun, and the observers got one outcome for each that has ended.
  pub run-counts :
      (now : ℕ) (breaker : Option Breaker) (turns : List Turn)
      → let w = run turns (new_worker now breaker) in
        (get_or a 0 w.state.metrics.sessions_by_agent ≡ count_if (is_open (of_agent a)) w.sessions)
        × (get_or t 0 w.state.metrics.sessions_by_tenant
            ≡ count_if (is_open (of_tenant t)) w.sessions)
        × (w.state.metrics.total_sessions_started ≡ length w.sessions)
        × (length w.state.ended ≡ count_if is_over w.sessions)
  unfolding new_worker new_store get_or get
  run-counts now breaker turns =
      let c =
        run-Counted turns (new_worker now breaker)
          (record { agents = refl; tenants = refl; started = refl; ends = refl }) in
      (c.agents, c.tenants, c.started, c.ends)
