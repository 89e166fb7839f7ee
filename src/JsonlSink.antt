-- ===== src/JsonlSink.antt =====
-- observability/jsonl_sink.py: the metrics stream, its writer and its parser. `json` is Python's.
pub mod RoundTrip
use openrtc_python.Prelude.{
  ℕ, ◌+◌, Bool, true, false, not, ◌&&◌, ◌||◌, ◌==◌, Option, none, some, List, [], ◌∷◌, ◌++◌,
  if◌then◌else◌,
}
use openrtc_python.Prelude.Text.{Text, codes, strip, is_empty, text_eq}
use openrtc_python.Prelude.Dict.{Dict, get}
use openrtc_python.Prelude.Outcome.{
  Outcome, Exc, ret, raise, runtime_error, json_decode_error, attribute_error,
}

-- A JSON value: a float by whether it equals one, and by its identity; what an array or an object has
-- in it stays closed.
pub data Json : Type 0 where
  null : Json
  boolean : Bool → Json
  integer : ℕ → Json
  negative : ℕ → Json
  floating : Bool → ℕ → Json
  string : Text → Json
  array : ℕ → Json
  object : ℕ → Json

-- A document: an object with its fields, or another value.
pub data Document : Type 0 where
  fields : Dict Json → Document
  value : Json → Document

abbrev pub schema_version : ℕ
schema_version = 1

abbrev pub kind_snapshot : Text
kind_snapshot = codes "snapshot"

abbrev pub kind_event : Text
kind_event = codes "event"

-- `value == 1`: also of `True` and of `1.0`.
unfoldable pub is_schema_version : Option Json → Bool
is_schema_version (some (boolean b)) = b
is_schema_version (some (integer n)) = n == schema_version
is_schema_version (some (floating is_one n)) = is_one
is_schema_version _ = false

unfoldable pub is_kind : Option Json → Bool
is_kind (some (string s)) = text_eq s kind_snapshot || text_eq s kind_event
is_kind _ = false

-- `_metrics_json_seq_ok`
unfoldable pub seq_ok : Option Json → Bool
seq_ok (some (integer n)) = true
seq_ok (some (negative n)) = true
seq_ok _ = false

-- `_metrics_json_wall_ok`
unfoldable pub wall_ok : Option Json → Bool
wall_ok (some (integer n)) = true
wall_ok (some (negative n)) = true
wall_ok (some (floating is_one n)) = true
wall_ok _ = false

unfoldable pub payload_ok : Option Json → Bool
payload_ok (some (object n)) = true
payload_ok _ = false

unfoldable pub check_record : Dict Json → Option (Dict Json)
unfolding is_schema_version is_kind seq_ok wall_ok payload_ok
check_record r =
    if not (is_schema_version (get (codes "schema_version") r))
    then none
    else if not (is_kind (get (codes "kind") r))
    then none
    else if not (seq_ok (get (codes "seq") r))
    then none
    else if not (wall_ok (get (codes "wall_time_unix") r))
    then none
    else if not (payload_ok (get (codes "payload") r))
    then none
    else some r

-- `record.get` is no attribute of a value that is no object.
parsed : Outcome Document → Outcome (Option (Dict Json))
unfolding check_record
parsed (ret (fields r)) = ret (check_record r)
parsed (ret (value v)) = raise attribute_error
parsed (raise json_decode_error) = ret none
parsed (raise e) = raise e

-- `_file` is the open file, by its lines.
pub record Sink : Type 0 where
  pub file : Option (List Text)
  pub seq : ℕ

abbrev pub new_sink : Sink
new_sink = record { file = none; seq = 0 }

-- `snapshot_envelope` and `event_envelope`, with the payload's dict.
unfoldable pub envelope : Text → ℕ → Json → ℕ → Dict Json
envelope kind seq wall payload =
    (codes "schema_version", integer schema_version)
    ∷ (codes "kind", string kind)
    ∷ (codes "seq", integer seq)
    ∷ (codes "wall_time_unix", wall)
    ∷ (codes "payload", object payload)
    ∷ []

-- `open`, which truncates the file.
unfoldable pub open_sink : Sink → Sink
open_sink s = record s { file = some [] }

unfoldable pub close_sink : Sink → Sink
close_sink s = record s { file = none }

module _ (loads : Text → Outcome Document) where
  unfoldable pub parse_metrics_jsonl_line : Text → Outcome (Option (Dict Json))
  unfolding parsed
  parse_metrics_jsonl_line line =
      if is_empty (strip line) then ret none else parsed (loads (strip line))

-- `json.dumps` with `sort_keys`.
module _ (dumps : Dict Json → Outcome Text) where
  dumped : List Text → ℕ → Outcome Text → Outcome (Unit {0}) × Sink
  dumped lines seq (ret text) =
      (ret tt, record { file = some (lines ++ (text ++ codes "\n") ∷ []); seq = seq })
  dumped lines seq (raise e) = (raise e, record { file = some lines; seq = seq })

  written : Option (List Text) → Text → Json → ℕ → Sink → Outcome (Unit {0}) × Sink
  unfolding dumped
  written none kind wall payload s = (raise runtime_error, s)
  written (some lines) kind wall payload s =
      let seq = s.seq + 1 in dumped lines seq (dumps (envelope kind seq wall payload))

  -- `write_snapshot` and `write_event`, which differ in the kind.
  unfoldable pub write_record : Text → Json → ℕ → Sink → Outcome (Unit {0}) × Sink
  unfolding written
  write_record kind wall payload s = written s.file kind wall payload s
