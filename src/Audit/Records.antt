-- ===== src/Audit/Records.antt =====
-- The flat records of an audit log: their numbers, and what an extra field does to one.
use openrtc_python.Prelude.{
  ℕ, ◌+◌, ◌≡◌, refl, ap, ◌∙◌, Option, none, some, List, [], ◌∷◌, ◌++◌, arith, All, length, map,
}
use openrtc_python.Prelude.Text.{Text, Text-discrete, codes}
use openrtc_python.Prelude.Dict.{Dict, get, first, get-update, DistinctKeys}
use openrtc_python.Audit.{
  AuditEvent, Emission, AuditLog, make_event, emit_all, Item, number, text_items, to_dict,
}
use openrtc_python.Audit.Sequence.{numbered, emit_all-numbered}

get-text_items :
    (k : Text) (fields : Dict Text) → get k fields ≡ none → get k (text_items fields) ≡ none
unfolding get
get-text_items k [] h = refl
get-text_items k ((j, v) ∷ fields) h = ground (arith, get-text_items k fields)

text_items-DistinctKeys :
    (fields : Dict Text) → DistinctKeys fields → DistinctKeys (text_items fields)
text_items-DistinctKeys [] h = tt
text_items-DistinctKeys ((j, v) ∷ fields) h =
    (get-text_items j fields h.0, text_items-DistinctKeys fields h.1)

-- The number that a record shows: the extra field of that name, if there is one, else the event's.
abbrev pub shown_seq : Dict Text → ℕ → Option Item
shown_seq fields seq = first (get (codes "seq") (text_items fields)) (some (number seq))

to_dict-seq :
    (e : AuditEvent)
    → DistinctKeys e.fields
    → get (codes "seq") (to_dict e) ≡ shown_seq e.fields e.seq
unfolding to_dict get Text-discrete
to_dict-seq e h =
    get-update (codes "seq") _ (text_items e.fields) (text_items-DistinctKeys e.fields h)

-- The numbers that the records of these emissions show, from `n` on.
unfoldable pub shown_seqs : ℕ → List Emission → List (Option Item)
shown_seqs n [] = []
shown_seqs n (e ∷ es) = shown_seq e.fields (n + 1) ∷ shown_seqs (n + 1) es

numbered-shown :
    (n : ℕ) (es : List Emission)
    → All (λ e. DistinctKeys e.fields) es
    → map (λ e. get (codes "seq") (to_dict e)) (numbered n es) ≡ shown_seqs n es
unfolding numbered shown_seqs make_event
numbered-shown n [] h = refl
numbered-shown n (e ∷ es) h =
    ap (λ x. x ∷ map (λ e. get (codes "seq") (to_dict e)) (numbered (n + 1) es))
      (to_dict-seq (make_event (n + 1) e) h.0)
    ∙ ap (◌∷◌ (shown_seq e.fields (n + 1))) (numbered-shown (n + 1) es h.1)

-- Whatever the sinks do, a log hands out one event for each emission, in order. The flat record of the
-- k-th of them shows the last number before plus k, so a gap or a reorder shows, but for an emission
-- with an extra field `seq`, whose record shows that field instead. An emission has each extra field
-- once.
pub emit_all-seqs :
    (es : List Emission) (log : AuditLog)
    → All (λ e. DistinctKeys e.fields) es
    → let after = emit_all es log in
      (new : List AuditEvent) × (after.handed ≡ log.handed ++ new)
      × (map (λ e. get (codes "seq") (to_dict e)) new ≡ shown_seqs log.seq es)
      × (after.seq ≡ log.seq + length es)
emit_all-seqs es log h =
    let (handed, seq) = emit_all-numbered es log in
    (numbered log.seq es, handed, numbered-shown log.seq es h, seq)
