-- ===== src/Audit.antt =====
-- core/audit.py: the audit log. The lock covers the numbering, so an emit is one step; a sink is
-- what it does with the event.
pub mod Sequence
pub mod Records
use openrtc_python.Prelude.{ℕ, suc, ◌+◌, Option, none, some, List, [], ◌∷◌, ◌++◌, if◌then◌else◌}
use openrtc_python.Prelude.Text.{Text, codes}
use openrtc_python.Prelude.Dict.{Dict, update}
use openrtc_python.Prelude.Outcome.{Outcome, ret, raise, is_exception}

pub record AuditEvent : Type 0 where
  pub seq : ℕ
  pub timestamp : ℕ
  pub event_type : Text
  pub actor : Text
  pub target : Text
  pub result : Text
  pub version : Option Text
  pub fields : List (Text × Text)

-- The arguments of `emit`, with the clock's reading, and what the sink does with the event.
pub record Emission : Type 0 where
  pub now : ℕ
  pub event_type : Text
  pub actor : Text
  pub target : Text
  pub result : Text
  pub version : Option Text
  pub fields : List (Text × Text)
  pub sink : Outcome (Unit {0})

pub record AuditLog : Type 0 where
  pub seq : ℕ
  -- the events handed to the sink
  pub handed : List AuditEvent

unfoldable pub make_event : ℕ → Emission → AuditEvent
make_event seq e = record {
  seq = seq;
  timestamp = e.now;
  event_type = e.event_type;
  actor = e.actor;
  target = e.target;
  result = e.result;
  version = e.version;
  fields = e.fields;
}

-- `contextlib.suppress(Exception)` round the sink.
suppressed : Outcome (Unit {0}) → AuditEvent → Outcome AuditEvent
suppressed (ret _) event = ret event
suppressed (raise e) event = if is_exception e then ret event else raise e

unfoldable pub emit : Emission → AuditLog → Outcome AuditEvent × AuditLog
unfolding suppressed make_event
emit e log =
    let event = make_event (log.seq + 1) e in
    (suppressed e.sink event, record { seq = log.seq + 1; handed = log.handed ++ event ∷ [] })

unfoldable pub emit_all : List Emission → AuditLog → AuditLog
emit_all [] log = log
emit_all (e ∷ es) log = emit_all es (emit e log).1

-- A value of a record: a number, a text or `None`.
pub data Item : Type 0 where
  number : ℕ → Item
  text : Text → Item
  null : Item

abbrev pub item_of : Option Text → Item
item_of none = null
item_of (some s) = text s

abbrev pub text_items : List (Text × Text) → Dict Item
text_items [] = []
text_items ((k, v) ∷ fields) = (k, text v) ∷ text_items fields

-- `AuditEvent.to_dict`: the extra fields come last.
unfoldable pub to_dict : AuditEvent → Dict Item
to_dict e =
    update
      ((codes "seq", number e.seq)
        ∷ (codes "timestamp", number e.timestamp)
        ∷ (codes "event", text e.event_type)
        ∷ (codes "actor", text e.actor)
        ∷ (codes "target", text e.target)
        ∷ (codes "result", text e.result)
        ∷ (codes "version", item_of e.version)
        ∷ [])
      (text_items e.fields)
