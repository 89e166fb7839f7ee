-- ===== src/Tests/JsonlSink.antt =====
-- An event that is written to an open stream. The text of a record names its sequence number, and
-- reading it back gives the record.
use openrtc_python.Prelude.{
  ◌&&◌, ◌==◌, if◌then◌else◌, arith, Bool-cases, sym, ◌∙◌, ap, ◌≡◌, refl, ◌+◌, some, List, [], ◌∷◌,
  ◌++◌, ◌⊎◌, inl, inr, Bool, true, false,
}
use openrtc_python.Prelude.Text.{Text, codes, text_eq}
use openrtc_python.Prelude.Dict.{Dict, get}
use openrtc_python.Prelude.Outcome.{
  Outcome, Exc, ret, raise, json_decode_error, type_error, ret-injective,
}
use openrtc_python.JsonlSink.{
  Json, Document, fields, floating, string, integer, object, kind_event, envelope, Sink, wall_ok,
  write_record, parse_metrics_jsonl_line,
}
use openrtc_python.JsonlSink.RoundTrip.{IsJson, write_record-parse}

abbrev event : Dict Json
event = envelope kind_event 4 (floating false 17) 8

-- The test of the one record that these stand-ins for `json` know.
is_event : Dict Json → Bool
is_event
      ((a, integer v)
        ∷ (b, string k)
        ∷ (c, integer n)
        ∷ (d, floating false w)
        ∷ (e, object p)
        ∷ []) =
    text_eq a (codes "schema_version")
    && v == 1
    && text_eq b (codes "kind")
    && text_eq k kind_event
    && text_eq c (codes "seq")
    && n == 4
    && text_eq d (codes "wall_time_unix")
    && w == 17
    && text_eq e (codes "payload")
    && p == 8
is_event _ = false

is_event-event : (d : Dict Json) → is_event d ≡ true → d ≡ event
unfolding is_event envelope
is_event-event
      ((a, integer v) ∷ (b, string k) ∷ (c, integer n) ∷ (d, floating false w) ∷ (e, object p) ∷ [])
      h =
    ground (arith, h)
is_event-event d h = absurd (ground (arith, h))

abbrev dumps : Dict Json → Outcome Text
dumps d = if is_event d then ret (codes "{}") else raise type_error

abbrev loads : Text → Outcome Document
loads s = if text_eq s (codes "{}") then ret (fields event) else raise json_decode_error

dumps-ret : (d : Dict Json) (s : Text) → dumps d ≡ ret s → (s ≡ codes "{}") × (d ≡ event)
dumps-ret d s h = elim (Bool-cases (is_event d)) [
  | inl known ↦ (sym (ret-injective (ground (arith, h, known))), is_event-event d known)
  | inr unknown ↦ absurd (ground (arith, h, unknown))
]

json : IsJson loads dumps
json = record {
  body = λ d. [];
  sort_keys = λ d. d;
  braces = λ d s h. (dumps-ret d s h).0;
  reads = λ d s h. reads d s (dumps-ret d s h);
  same_fields = λ d k. refl;
}
  where
    reads : (d : Dict Json) (s : Text) → (s ≡ codes "{}") × (d ≡ event) → loads s ≡ ret (fields d)
    reads d s (e, same) = ap loads e ∙ loads_event ∙ ap (λ r. ret (fields r)) (sym same)
      where
        loads_event : loads (codes "{}") ≡ ret (fields event)
        loads_event = ground arith

write_record-parse_example :
    let s : Sink = record { file = some []; seq = 3 } in
    let (result, after) = write_record dumps kind_event (floating false 17) 8 s in
    ((lines : List Text) × (line : Text) × (r : Dict Json) × (result ≡ ret tt)
      × (s.file ≡ some lines)
      × (after.file ≡ some (lines ++ line ∷ []))
      × (after.seq ≡ s.seq + 1)
      × (parse_metrics_jsonl_line loads line ≡ ret (some r))
      × ((k : Text) → get k r ≡ get k (envelope kind_event (s.seq + 1) (floating false 17) 8)))
    ⊎ ((e : Exc) × (result ≡ raise e) × (after.file ≡ s.file))
unfolding wall_ok
write_record-parse_example =
    write_record-parse loads dumps json kind_event (floating false 17) 8
      (record { file = some []; seq = 3 }) (inr refl) refl
