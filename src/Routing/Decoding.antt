-- ===== src/Routing/Decoding.antt =====
-- `_agent_name_from_metadata` under the documented errors of `json.loads`, and under others.
use openrtc_python.Prelude.{◌≡◌, refl, ◌≢◌, false, Option, none, arith, inl, inr, Bool-cases}
use openrtc_python.Prelude.Text.{Text, strip, is_empty}
use openrtc_python.Prelude.Outcome.{Outcome, Exc, Returns, ret, raise, json_decode_error}
use openrtc_python.SessionView.{Object, absent, str, mapping, unknown}
use openrtc_python.Routing.{
  Loads, Decoded, object, non_object, decoded_name, agent_name_from_metadata,
}

abbrev pub Decodes : Outcome Decoded → Type 0
Decodes (ret d) = Unit
Decodes (raise json_decode_error) = Unit
Decodes (raise e) = ⊥

-- `json.loads` returns, or raises `JSONDecodeError`.
abbrev pub OnlyDecodeErrors : Loads → Type 0
OnlyDecodeErrors loads = (s : Text) → Decodes (loads s)

decoded_name-Returns :
    (loads : Loads) (o : Outcome Decoded) → Decodes o → Returns (decoded_name loads o)
unfolding decoded_name
decoded_name-Returns loads (ret (object d)) h = tt
decoded_name-Returns loads (ret non_object) h = tt
decoded_name-Returns loads (raise json_decode_error) h = tt
decoded_name-Returns loads (raise e) h = elim h [ ]

pub agent_name_from_metadata-Returns :
    (loads : Loads)
    → OnlyDecodeErrors loads
    → (metadata : Object)
    → (found : Option Text) × (agent_name_from_metadata loads metadata ≡ ret found)
unfolding agent_name_from_metadata
agent_name_from_metadata-Returns loads decodes absent = (none, refl)
agent_name_from_metadata-Returns loads decodes (str s) = elim (Bool-cases (is_empty (strip s))) [
  | inl e ↦ (none, rw e)
  | inr e ↦ rw e (
      found (decoded_name loads (loads (strip s)))
        (decoded_name-Returns loads (loads (strip s)) (decodes (strip s))))
]
  where
    found : (o : Outcome (Option Text)) → Returns o → (f : Option Text) × (o ≡ ret f)
    found (ret f) h = (f, refl)
    found (raise e) h = elim h [ ]
agent_name_from_metadata-Returns loads decodes (mapping d) = (_, refl)
agent_name_from_metadata-Returns loads decodes (unknown b) = (none, refl)

-- Any other exception of `json.loads` goes through.
pub agent_name_from_metadata-raise :
    (loads : Loads) (s : Text) (e : Exc)
    → is_empty (strip s) ≡ false
    → loads (strip s) ≡ raise e
    → e ≢ json_decode_error
    → agent_name_from_metadata loads (str s) ≡ raise e
unfolding agent_name_from_metadata decoded_name
agent_name_from_metadata-raise loads s e full bad other = ground arith
