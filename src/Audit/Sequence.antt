-- ===== src/Audit/Sequence.antt =====
-- The sequence numbers of `AuditLog` leave no gap.
use openrtc_python.Prelude.{ℕ, ◌+◌, ◌≡◌, sym, ◌∙◌, List, [], ◌∷◌, ◌++◌, length, arith}
use mathlib.Core.List.{append-nil, append_assoc}
use openrtc_python.Audit.{AuditEvent, Emission, AuditLog, make_event, emit, emit_all}

-- The events of these emissions, numbered on from `n`.
unfoldable pub numbered : ℕ → List Emission → List AuditEvent
numbered n [] = []
numbered n (e ∷ es) = make_event (n + 1) e ∷ numbered (n + 1) es

-- Whatever its sink does, a log hands out one event for each emission, in order, with consecutive
-- numbers from the last one on, so a gap or a reorder shows.
pub emit_all-numbered :
    (es : List Emission) (log : AuditLog)
    → ((emit_all es log).handed ≡ log.handed ++ numbered log.seq es)
      × ((emit_all es log).seq ≡ log.seq + length es)
unfolding emit_all emit numbered
emit_all-numbered [] log = (sym (append-nil log.handed), omega arith)
emit_all-numbered (e ∷ es) log =
    let event = make_event (log.seq + 1) e in
    let (handed, seq) = emit_all-numbered es (emit e log).1 in
    (handed ∙ append_assoc log.handed (event ∷ []) (numbered (log.seq + 1) es), omega (arith, seq))
