-- ===== src/Tests/Routing.antt =====
-- Routing at two agents, with metadata given as mappings, and the checks on names.
use openrtc_python.Prelude.{ℕ, ◌≡◌, refl, ◌⊎◌, true, none, some, List, [], ◌∷◌}
use openrtc_python.Prelude.Text.{Text, Text-discrete, codes, contains, lstrip, strip, is_space}
use openrtc_python.Prelude.Dict.{Dict, get, keys}
use openrtc_python.Prelude.Outcome.{Exc, ret, raise, json_decode_error}
use openrtc_python.SessionView.{text, absent, str, mapping, SessionView, JobContext, for_livekit}
use openrtc_python.Routing.{
  Loads, object, Router, agent_name_from_metadata, agent_name_from_mapping, resolve_agent_name,
  resolve_agent_config,
}
use openrtc_python.Routing.Resolved.{resolve_agent_config-get}
use openrtc_python.Routing.Precedence.{by_signals, resolve_agent_name-by_signals}

-- Every text decodes to `{"agent": "support"}`, but for the empty one.
abbrev pub loads : Loads
loads [] = raise json_decode_error
loads (c ∷ s) = ret (object ((codes "agent", text (codes "support")) ∷ []))

abbrev pub sales : Text
sales = codes "sales"

abbrev pub support : Text
support = codes "support"

abbrev pub agents : List Text
agents = sales ∷ support ∷ []

-- Job metadata names nobody, room metadata names `support`.
abbrev pub view : SessionView
view = record {
  room_name = codes "sales-1";
  job_id = str [];
  job_metadata = absent;
  room_metadata = mapping ((codes "agent", text (codes " support ")) ∷ []);
}

resolve_agent_name-by_signals_example :
    resolve_agent_name loads agents view none ≡ by_signals agents view.room_name (some support)
unfolding agent_name_from_metadata agent_name_from_mapping get Text-discrete strip lstrip is_space
resolve_agent_name-by_signals_example =
    resolve_agent_name-by_signals loads agents view none (some support) refl refl

abbrev router : Router
router payload = ret (some support)

abbrev configs : Dict ℕ
configs = (sales, 1) ∷ (support, 2) ∷ []

abbrev ctx : JobContext
ctx = record {
  job = none;
  room = some (record { name = str (codes "support-7"); metadata = absent });
}

resolve_agent_config-get_example :
    let named = resolve_agent_name loads (keys configs) (for_livekit ctx) none in
    ((name : Text) × (c : ℕ) × (named ≡ ret name)
      × (contains name (keys configs) ≡ true)
      × (get name configs ≡ some c)
      × (resolve_agent_config loads configs ctx none ≡ ret c))
    ⊎ ((e : Exc) × (named ≡ raise e) × (resolve_agent_config loads configs ctx none ≡ raise e))
resolve_agent_config-get_example =
    resolve_agent_config-get loads (sales, 1) ((support, 2) ∷ []) ctx none
