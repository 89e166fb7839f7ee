-- ===== src/Routing.antt =====
-- routing/base_routing.py, the strategies and routing/resolver.py: which registered agent handles a
-- session. `json.loads` and the custom router are parameters.
pub mod Resolved
pub mod Precedence
pub mod Decoding
use openrtc_python.Prelude.{
  Bool, true, false, Option, none, some, List, [], ◌∷◌, ◌++◌, if◌then◌else◌,
}
use openrtc_python.Prelude.Text.{Text, codes, strip, is_empty, contains, starts_with}
use openrtc_python.Prelude.Dict.{Dict, get, keys}
use openrtc_python.Prelude.Outcome.{
  is_exception, Outcome, ret, raise, Exc, value_error, runtime_error, key_error, json_decode_error,
  stop_iteration, cancelled_error, ◌>>=◌,
}
use openrtc_python.SessionView.{
  Value, text, Object, absent, str, mapping, SessionView, JobContext, for_livekit,
}

-- What `json.loads` decodes to: an object, or a value of another type.
pub data Decoded : Type 0 where
  object : Dict Value → Decoded
  non_object : Decoded

-- `json.loads(s)`: the value, or the exception that it raises.
abbrev pub Loads : Type 0
Loads = Text → Outcome Decoded

-- The value under a key, stripped, if it is a text with something in it.
named_by : Option Value → Option Text
named_by (some (text s)) = let name = strip s in if is_empty name then none else some name
named_by _ = none

-- The loop of `_agent_name_from_mapping` over the keys.
first_named : List Text → Dict Value → Option Text
unfolding named_by
first_named [] metadata = none
first_named (key ∷ more) metadata = elim (named_by (get key metadata)) [
  | some name ↦ some name
  | none ↦ first_named more metadata
]

abbrev pub metadata_agent_keys : List Text
metadata_agent_keys = codes "agent" ∷ codes "demo" ∷ []

unfoldable pub agent_name_from_mapping : Dict Value → Option Text
unfolding first_named
agent_name_from_mapping metadata = first_named metadata_agent_keys metadata

abbrev pub startswith_agent : Text → Text → Bool
startswith_agent room_name name = starts_with room_name (name ++ codes "-")

-- The first name whose `<name>-` the room name starts with.
unfoldable pub prefix_match : Text → List Text → Option Text
prefix_match room_name [] = none
prefix_match room_name (name ∷ names) =
    if startswith_agent room_name name then some name else prefix_match room_name names

-- `next(iter(names))`
unfoldable pub next_iter : List Text → Outcome Text
next_iter [] = raise stop_iteration
next_iter (name ∷ names) = ret name

unfoldable pub require_registered_name : List Text → Text → Outcome Text
require_registered_name agent_names name =
    if contains name agent_names then ret name else raise value_error

-- `_ROUTING_STRATEGIES`: the two metadata strategies differ in their source.
pub data Strategy : Type 0 where
  job_metadata_strategy room_metadata_strategy room_name_prefix default_fallback : Strategy

abbrev pub routing_strategies : List Strategy
routing_strategies =
    job_metadata_strategy ∷ room_metadata_strategy ∷ room_name_prefix ∷ default_fallback ∷ []

abbrev pub Router : Type 0
Router = Option (Dict Value) → Outcome (Option Text)

module _ (loads : Loads) where
  -- The `try` around `json.loads`: a decoding error is no name, any other exception goes on up.
  decoded_name : Outcome Decoded → Outcome (Option Text)
  decoded_name (ret (object d)) = ret (agent_name_from_mapping d)
  decoded_name (ret non_object) = ret none
  decoded_name (raise json_decode_error) = ret none
  decoded_name (raise e) = raise e

  unfoldable pub agent_name_from_metadata : Object → Outcome (Option Text)
  unfolding decoded_name
  agent_name_from_metadata absent = ret none
  agent_name_from_metadata (mapping d) = ret (agent_name_from_mapping d)
  agent_name_from_metadata (str s) =
      let stripped = strip s in
      if is_empty stripped then ret none else decoded_name (loads stripped)
  agent_name_from_metadata _ = ret none

  registered : List Text → Option Text → Outcome (Option Text)
  registered agent_names none = ret none
  registered agent_names (some name) = do
    found ← require_registered_name agent_names name
    ret (some found)

  unfoldable pub metadata_resolve : List Text → Object → Outcome (Option Text)
  unfolding registered
  metadata_resolve agent_names metadata = do
    name ← agent_name_from_metadata metadata
    registered agent_names name

  unfoldable pub resolve : Strategy → List Text → SessionView → Outcome (Option Text)
  resolve job_metadata_strategy names view = metadata_resolve names view.job_metadata
  resolve room_metadata_strategy names view = metadata_resolve names view.room_metadata
  resolve room_name_prefix names view = ret (prefix_match view.room_name names)
  resolve default_fallback names view = do name ← next_iter names; ret (some name)

  -- The loop of `_resolve_agent_name`, with its last `raise`.
  unfoldable pub run_strategies : List Strategy → List Text → SessionView → Outcome Text
  run_strategies [] names view = raise runtime_error
  run_strategies (s ∷ more) names view =
      let rest = run_strategies more names view in
      do found ← resolve s names view; elim found [ some name ↦ ret name | none ↦ rest ]

  decoded_mapping : Outcome Decoded → Outcome (Option (Dict Value))
  decoded_mapping (ret (object d)) = ret (some d)
  decoded_mapping (ret non_object) = ret none
  decoded_mapping (raise json_decode_error) = ret none
  decoded_mapping (raise e) = raise e

  unfoldable pub metadata_to_mapping : Object → Outcome (Option (Dict Value))
  unfolding decoded_mapping
  metadata_to_mapping (mapping d) = ret (some d)
  metadata_to_mapping (str s) =
      let stripped = strip s in
      if is_empty stripped then ret none else decoded_mapping (loads stripped)
  metadata_to_mapping _ = ret none

  -- What the router returned, or raised: `except Exception` leaves a cancellation alone.
  router_answer : List Text → Outcome (Option Text) → Outcome (Option Text)
  router_answer names (raise e) = raise (if is_exception e then value_error else e)
  router_answer names (ret none) = ret none
  router_answer names (ret (some name)) =
      if contains name names then ret (some name) else raise value_error

  unfoldable pub resolve_via_router : List Text → SessionView → Router → Outcome (Option Text)
  unfolding router_answer
  resolve_via_router names view router = do
    metadata ← metadata_to_mapping view.job_metadata
    router_answer names (router metadata)

  via_router : List Text → SessionView → Option Router → Outcome (Option Text)
  via_router names view none = ret none
  via_router names view (some router) = resolve_via_router names view router

  unfoldable pub resolve_agent_name : List Text → SessionView → Option Router → Outcome Text
  unfolding via_router
  resolve_agent_name names view router = do
    routed ← via_router names view router
    elim routed [ some name ↦ ret name | none ↦ run_strategies routing_strategies names view ]

  module _ {ℓ} {Config : Type ℓ} where
    -- `agents[name]`
    abbrev pub get_item : Dict Config → Text → Outcome Config
    get_item agents name = elim (get name agents) [ none ↦ raise key_error | some c ↦ ret c ]

    resolve_in : Dict Config → JobContext → Option Router → Outcome Config
    resolve_in [] ctx router = raise runtime_error
    resolve_in agents ctx router = do
      name ← resolve_agent_name (keys agents) (for_livekit ctx) router
      get_item agents name

    unfoldable pub resolve_agent_config : Dict Config → JobContext → Option Router → Outcome Config
    unfolding resolve_in
    resolve_agent_config agents ctx router = resolve_in agents ctx router
