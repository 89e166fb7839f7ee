-- ===== src/JsonlSink/RoundTrip.antt =====
-- A line of the metrics stream that was written is parsed back.
use mathlib.Core.List.{reverse, reverse-append, reverse-reverse}
use openrtc_python.Prelude.{
  ℕ_discrete, ◌≡◌, refl, sym, ap, ◌∙◌, ℕ, ◌+◌, true, false, Option, none, some, List, [], ◌∷◌, ◌++◌,
  arith, ◌⊎◌, inl, inr,
}
use openrtc_python.Prelude.Text.{Text, Text-discrete, codes, strip, lstrip, is_empty, is_space}
use openrtc_python.Prelude.Dict.{Dict, get}
use openrtc_python.Prelude.Outcome.{Outcome, Exc, ret, raise, runtime_error, Outcome-cases}
use openrtc_python.JsonlSink.{
  Json, Document, fields, kind_snapshot, kind_event, check_record, envelope, Sink,
  parse_metrics_jsonl_line, parsed, write_record, written, is_schema_version, is_kind, seq_ok,
  wall_ok, payload_ok,
}

-- What `json` promises: an object's text stands in braces, and reading it back gives the object, with
-- its keys in another order.
pub record IsJson (loads : Text → Outcome Document) (dumps : Dict Json → Outcome Text)
    : Type 0 where
  pub body : Dict Json → Text
  pub sort_keys : Dict Json → Dict Json
  pub braces : (d : Dict Json) (s : Text) → dumps d ≡ ret s → s ≡ b'{' ∷ (body d ++ b'}' ∷ [])
  pub reads : (d : Dict Json) (s : Text) → dumps d ≡ ret s → loads s ≡ ret (fields (sort_keys d))
  pub same_fields : (d : Dict Json) (k : Text) → get k (sort_keys d) ≡ get k d

-- A line in braces loses its newline alone.
strip-line :
    (body : Text) → strip ((b'{' ∷ (body ++ b'}' ∷ [])) ++ codes "\n") ≡ b'{' ∷ (body ++ b'}' ∷ [])
unfolding strip lstrip is_space
strip-line body =
    let t = b'{' ∷ (body ++ b'}' ∷ []) in
    let e1 : reverse (t ++ codes "\n") ≡ 10 ∷ reverse t = reverse-append t (codes "\n") in
    let e2 : reverse t ≡ b'}' ∷ reverse (b'{' ∷ body) = reverse-append (b'{' ∷ body) (b'}' ∷ []) in
    ap (λ u. reverse (lstrip u)) e1
    ∙ ap (λ u. reverse (lstrip (10 ∷ u))) e2
    ∙ ap reverse (sym e2)
    ∙ reverse-reverse t

envelope-accepted :
    (r : Dict Json) (kind : Text) (seq : ℕ) (wall : Json) (payload : ℕ)
    → ((k : Text) → get k r ≡ get k (envelope kind seq wall payload))
    → (kind ≡ kind_snapshot) ⊎ (kind ≡ kind_event)
    → wall_ok (some wall) ≡ true
    → check_record r ≡ some r
unfolding check_record envelope is_schema_version is_kind seq_ok payload_ok get Text-discrete
    ℕ_discrete
envelope-accepted r kind seq wall payload same known w = rw (same (codes "schema_version")) (
    rw (same (codes "kind")) (
      rw (same (codes "seq")) (
        rw (same (codes "wall_time_unix"))
          (rw (same (codes "payload")) (ground (arith, known, w))))))

parse-dumped :
    (loads : Text → Outcome Document) (dumps : Dict Json → Outcome Text) (json : IsJson loads dumps)
    (d : Dict Json) (text : Text)
    → dumps d ≡ ret text
    → check_record (json.sort_keys d) ≡ some (json.sort_keys d)
    → parse_metrics_jsonl_line loads (text ++ codes "\n") ≡ ret (some (json.sort_keys d))
unfolding parse_metrics_jsonl_line parsed
parse-dumped loads dumps json d text e accepted =
    let braces = json.braces d text e in
    let stripped : strip (text ++ codes "\n") ≡ text =
      ap (λ t. strip (t ++ codes "\n")) braces ∙ strip-line (json.body d) ∙ sym braces in
    let some_text : is_empty text ≡ false = ap is_empty braces in
    rw (stripped, some_text, json.reads d text e) (ap ret accepted)

-- If `json` reads back the fields of what it writes, whatever is written to an open sink of a known
-- kind with a wall time that is a number is one more line, with the next sequence number, and the
-- parser reads that line back: a record with the same fields as were written. A write that raises, as
-- on a sink that is not open or a payload that JSON cannot write, leaves the lines as they are.
pub write_record-parse :
    (loads : Text → Outcome Document) (dumps : Dict Json → Outcome Text) (json : IsJson loads dumps)
    (kind : Text) (wall : Json) (payload : ℕ) (s : Sink)
    → (kind ≡ kind_snapshot) ⊎ (kind ≡ kind_event)
    → wall_ok (some wall) ≡ true
    → let (result, after) = write_record dumps kind wall payload s in
      ((lines : List Text) × (line : Text) × (r : Dict Json) × (result ≡ ret tt)
        × (s.file ≡ some lines)
        × (after.file ≡ some (lines ++ line ∷ []))
        × (after.seq ≡ s.seq + 1)
        × (parse_metrics_jsonl_line loads line ≡ ret (some r))
        × ((k : Text) → get k r ≡ get k (envelope kind (s.seq + 1) wall payload)))
      ⊎ ((e : Exc) × (result ≡ raise e) × (after.file ≡ s.file))
unfolding write_record
write_record-parse loads dumps json kind wall payload s known w = go s.file refl
  where
    record_ : Dict Json
    record_ = envelope kind (s.seq + 1) wall payload

    Written : Outcome (Unit {0}) × Sink → Type 0
    Written (result, after) =
        ((lines : List Text) × (line : Text) × (r : Dict Json) × (result ≡ ret tt)
          × (s.file ≡ some lines)
          × (after.file ≡ some (lines ++ line ∷ []))
          × (after.seq ≡ s.seq + 1)
          × (parse_metrics_jsonl_line loads line ≡ ret (some r))
          × ((k : Text) → get k r ≡ get k (envelope kind (s.seq + 1) wall payload)))
        ⊎ ((e : Exc) × (result ≡ raise e) × (after.file ≡ s.file))

    go :
        (file : Option (List Text))
        → s.file ≡ file
        → Written (written dumps file kind wall payload s)
    go none e = inr (runtime_error, refl, refl)
    go (some lines) e = elim (Outcome-cases (dumps record_)) [
      | inr (x, failed) ↦ inr (x, rw failed refl, rw failed (sym e))
      | inl (text, dumped_) ↦
          let same = json.same_fields record_ in
          let accepted =
            envelope-accepted (json.sort_keys record_) kind (s.seq + 1) wall payload same known w in
          inl (
            lines,
            text ++ codes "\n",
            json.sort_keys record_,
            rw dumped_ refl,
            e,
            rw dumped_ refl,
            rw dumped_ refl,
            parse-dumped loads dumps json record_ text dumped_ accepted,
            same,
          )
    ]
