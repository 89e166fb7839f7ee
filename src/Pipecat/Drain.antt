-- ===== src/Pipecat/Drain.antt =====
-- Repeated drains of a pipecat pool.
use openrtc_python.Prelude.{◌≡◌, refl, ap, ◌∙◌, true, false, List, [], ◌∷◌}
use openrtc_python.Prelude.Outcome.{Outcome, ret, raise}
use openrtc_python.Audit.{AuditEvent, AuditLog, Emission, emit}
use openrtc_python.Pipecat.{PipecatBackend, begin_drain, after_emit, pool_begin_drain}

-- The pool after a list of drains, each with the event that it would emit.
abbrev pub drains : List Emission → PipecatBackend × AuditLog → PipecatBackend × AuditLog
drains [] p = p
drains (e ∷ events) p = drains events (pool_begin_drain e p).1

drains-draining :
    (events : List Emission) (b : PipecatBackend) (log : AuditLog)
    → b.draining ≡ true
    → drains events (b, log) ≡ (b, log)
unfolding pool_begin_drain begin_drain
drains-draining [] b log h = refl
drains-draining (e ∷ events) b log h =
    ap (drains events) (one_more (pool_begin_drain e (b, log)) (rw h refl))
    ∙ drains-draining events b log h
  where
    one_more :
        (r : Outcome (Unit {0}) × (PipecatBackend × AuditLog))
        → r ≡ (ret tt, (b, log))
        → r.1 ≡ (b, log)
    one_more r e = ap (λ (q : Outcome (Unit {0}) × (PipecatBackend × AuditLog)). q.1) e

after_emit-state :
    (b : PipecatBackend) (o : Outcome AuditEvent × AuditLog) → (after_emit b o).1 ≡ (b, o.1)
unfolding after_emit
after_emit-state b (ret e, log) = refl
after_emit-state b (raise x, log) = refl

first_drain :
    (event : Emission) (b : PipecatBackend) (log : AuditLog)
    → b.draining ≡ false
    → (pool_begin_drain event (b, log)).1 ≡ (record b { draining = true }, (emit event log).1)
unfolding pool_begin_drain begin_drain
first_drain event b log h =
    rw (h, pool_begin_drain, begin_drain)
      (after_emit-state (record b { draining = true }) (emit event log))

-- However often a pool that is not draining is drained, it drains from the first call on, keeps its
-- builders, and its audit log has the event of the first call alone.
pub drains-once :
    (event : Emission) (events : List Emission) (b : PipecatBackend) (log : AuditLog)
    → b.draining ≡ false
    → drains (event ∷ events) (b, log) ≡ (record b { draining = true }, (emit event log).1)
drains-once event events b log h =
    ap (drains events) (first_drain event b log h)
    ∙ drains-draining events (record b { draining = true }) (emit event log).1 refl
