-- ===== src/Pipecat.antt =====
-- backends/pipecat/backend.py and observer.py: the builders of a pipecat pool, its drain with the
-- pool's audit event, and the lifecycle that a call's frames drive.
pub mod Notices
pub mod Drain
pub mod Dispatch
pub mod Prewarm
use openrtc_python.Prelude.{
  ℕ, Bool, true, false, not, ◌&&◌, ◌||◌, Option, none, some, List, [], ◌∷◌, ◌++◌, if◌then◌else◌,
}
use openrtc_python.Prelude.Text.{Text, codes}
use openrtc_python.Prelude.Dict.{Dict, get, put, remove, keys}
use openrtc_python.Prelude.Outcome.{Outcome, Exc, ret, raise, key_error}
use openrtc_python.Audit.{AuditLog, AuditEvent, Emission, emit}

-- A frame that the pipeline pushes.
pub data Frame : Type 0 where
  start_frame end_frame cancel_frame other_frame : Frame

-- What the observers are told: a start, or an end that was cancelled or not.
pub data Notice : Type 0 where
  session_start : Notice
  session_end : Bool → Notice

pub record Lifecycle : Type 0 where
  pub started : Bool
  pub ended : Bool
  pub notices : List Notice

abbrev pub new_lifecycle : Lifecycle
new_lifecycle = record { started = false; ended = false; notices = [] }

-- `_start`
unfoldable pub start_session : Lifecycle → Lifecycle
start_session l =
    if l.started then l else record l { started = true; notices = l.notices ++ session_start ∷ [] }

-- `_end`
unfoldable pub end_session : Bool → Lifecycle → Lifecycle
end_session cancelled l =
    if l.ended || not l.started
    then l
    else record l { ended = true; notices = l.notices ++ session_end cancelled ∷ [] }

unfoldable pub on_push_frame : Frame → Lifecycle → Lifecycle
on_push_frame start_frame l = start_session l
on_push_frame end_frame l = end_session false l
on_push_frame cancel_frame l = end_session true l
on_push_frame other_frame l = l

unfoldable pub push_frames : List Frame → Lifecycle → Lifecycle
push_frames [] l = l
push_frames (f ∷ frames) l = push_frames frames (on_push_frame f l)

pub record PipecatBackend : Type 0 where
  pub builders : Dict ℕ
  pub draining : Bool

-- `get` and `remove`
unfoldable pub get_builder : Text → PipecatBackend → Outcome ℕ
get_builder name b = elim (get name b.builders) [ none ↦ raise key_error | some x ↦ ret x ]

unfoldable pub remove_builder : Text → PipecatBackend → Outcome ℕ × PipecatBackend
remove_builder name b = elim (get name b.builders) [
  | none ↦ (raise key_error, b)
  | some x ↦ (ret x, record b { builders = remove name b.builders })
]

abbrev pub registered_names : PipecatBackend → List Text
registered_names b = keys b.builders

unfoldable pub begin_drain : PipecatBackend → Bool × PipecatBackend
begin_drain b = if b.draining then (false, b) else (true, record b { draining = true })

-- `AgentPool.begin_drain` on this backend: the event of the first drain.
after_emit :
    PipecatBackend
    → Outcome AuditEvent × AuditLog
    → Outcome (Unit {0}) × (PipecatBackend × AuditLog)
after_emit b (ret e, log) = (ret tt, (b, log))
after_emit b (raise x, log) = (raise x, (b, log))

unfoldable pub pool_begin_drain :
    Emission → PipecatBackend × AuditLog → Outcome (Unit {0}) × (PipecatBackend × AuditLog)
unfolding after_emit begin_drain
pool_begin_drain event (b, log) =
    let (began, after) = begin_drain b in
    let emitted = after_emit after (emit event log) in
    if began then emitted else (ret tt, (after, log))
