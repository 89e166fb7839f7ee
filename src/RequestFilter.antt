-- ===== src/RequestFilter.antt =====
-- routing/request_filter.py, and the composition of the filters in core/pool.py: which jobs a
-- worker accepts.
pub mod Mirror
pub mod Ownership
pub mod Caps
pub mod Tenant
use openrtc_python.Prelude.{
  ℕ, Bool, true, false, Option, none, some, List, [], ◌∷◌, leb, if◌then◌else◌,
}
use openrtc_python.Prelude.Text.{Text, codes, strip, is_empty, contains}
use openrtc_python.Prelude.Dict.{Dict, get, get_or, update}
use openrtc_python.Prelude.Outcome.{Outcome, ret, raise, Exc, json_decode_error, ◌>>=◌}
use openrtc_python.SessionView.{Value, null, text, opaque, Object, absent, str, mapping, Room}
use openrtc_python.Validation.{default_tenant}
use openrtc_python.Observer.{merge_metadata}
use openrtc_python.Routing.{Loads, agent_name_from_metadata, prefix_match, next_iter}

unfoldable pub tenant_or_default : Dict Text → Text
tenant_or_default merged =
    let raw = get_or (codes "tenant") [] merged in if is_empty raw then default_tenant else raw

module _ (loads : Loads) where
  -- The loop over the two sources, which job acceptance and backpressure share.
  unfoldable pub registered_name : List Text → List Object → Outcome (Option Text)
  registered_name agents [] = ret none
  registered_name agents (metadata ∷ more) =
      let rest = registered_name agents more in
      do
        name ← agent_name_from_metadata loads metadata
        elim name [ none ↦ rest | some n ↦ if contains n agents then ret (some n) else rest ]

  -- `isinstance(room_name, str)`, then the first prefix that matches.
  unfoldable pub prefixed_name : List Text → Object → Option Text
  prefixed_name agents (str room_name) = prefix_match room_name agents
  prefixed_name agents _ = none

  unfoldable pub owns_room : List Text → Object → Object → Object → Outcome Bool
  owns_room agents room_name job_metadata room_metadata = do
    found ← registered_name agents (job_metadata ∷ room_metadata ∷ [])
    elim found [
      | some _ ↦ ret true
      | none ↦ elim (prefixed_name agents room_name) [ some _ ↦ ret true | none ↦ ret false ]
    ]

  some_agent_name : List Text → Object → Object → Object → Outcome (Option Text)
  some_agent_name agents room_name job_metadata room_metadata = do
    found ← registered_name agents (job_metadata ∷ room_metadata ∷ [])
    elim found [
      | some n ↦ ret (some n)
      | none ↦ elim (prefixed_name agents room_name) [
        | some n ↦ ret (some n)
        | none ↦ do first ← next_iter agents; ret (some first)
      ]
    ]

  unfoldable pub resolve_request_agent_name :
      List Text → Object → Object → Object → Outcome (Option Text)
  unfolding some_agent_name
  resolve_request_agent_name [] room_name job_metadata room_metadata = ret none
  resolve_request_agent_name (a ∷ agents) room_name job_metadata room_metadata =
      some_agent_name (a ∷ agents) room_name job_metadata room_metadata

  module _ (repr : ℕ → Text) where
    -- `merged.get("tenant") or DEFAULT_TENANT`
    unfoldable pub resolve_request_tenant : Object → Object → Outcome Text
    unfolding tenant_or_default
    resolve_request_tenant job_metadata room_metadata = do
      merged ← merge_metadata loads repr room_metadata job_metadata
      ret (tenant_or_default merged)

-- What a filter does to its request, in order.
pub data Reply : Type 0 where
  accept reject : Reply

pub record Request : Type 0 where
  pub room : Room
  pub job_metadata : Object

-- A filter reads and may change the worker's state `S`; an exception ends it.
abbrev pub Filter : Type 0 → Type 0
Filter S = Request → S → Outcome (List Reply) × S

-- `base_filter`, or `await req.accept()` where there is none.
abbrev pub base_or_accept : {S : Type 0} → Option (Filter S) → Filter S
base_or_accept none req s = (ret (accept ∷ []), s)
base_or_accept (some base) req s = base req s

-- `cap is not None and counts.get(name, 0) >= cap`
unfoldable pub at_cap : Dict ℕ → Dict ℕ → Text → Bool
at_cap caps counts name = elim (get name caps) [
  | none ↦ false
  | some cap ↦ leb cap (get_or name 0 counts)
]

unfoldable pub agent_at_cap : Dict ℕ → Dict ℕ → Option Text → Bool
agent_at_cap caps counts none = false
agent_at_cap caps counts (some name) = at_cap caps counts name

-- The end of the three layered filters: reject, or let the base decide.
layered : {S : Type 0} → Option (Filter S) → Request → Outcome Bool × S → Outcome (List Reply) × S
layered base req (ret true, s) = (ret (reject ∷ []), s)
layered base req (ret false, s) = base_or_accept base req s
layered base req (raise e, s) = (raise e, s)

module _ {S : Type 0} (loads : Loads) where
  unfoldable pub registered_rooms_filter : (S → List Text) → Filter S
  registered_rooms_filter agents req s = (
    do
      owned ← owns_room loads (agents s) req.room.name req.job_metadata req.room.metadata
      if owned then ret (accept ∷ []) else ret (reject ∷ []),
    s,
  )

  unfoldable pub per_agent_backpressure_filter :
      (S → List Text) → Dict ℕ → (S → Dict ℕ) → Option (Filter S) → Filter S
  unfolding layered agent_at_cap
  per_agent_backpressure_filter agents caps active_counts base req s = layered base req (
    do
      name ←
          resolve_request_agent_name loads (agents s) req.room.name req.job_metadata
            req.room.metadata
      ret (agent_at_cap caps (active_counts s) name),
    s,
  )

  module _ (repr : ℕ → Text) where
    unfoldable pub per_tenant_backpressure_filter :
        Dict ℕ → (S → Dict ℕ) → Option (Filter S) → Filter S
    unfolding layered
    per_tenant_backpressure_filter caps active_counts base req s = layered base req (
      do
        tenant ← resolve_request_tenant loads repr req.job_metadata req.room.metadata
        ret (at_cap caps (active_counts s) tenant),
      s,
    )

    ask : (Text → S → Bool × S) → Outcome Text → S → Outcome Bool × S
    ask should_reject (raise e) s = (raise e, s)
    ask should_reject (ret tenant) s = let (answer, s') = should_reject tenant s in (ret answer, s')

    unfoldable pub tenant_circuit_filter : (Text → S → Bool × S) → Option (Filter S) → Filter S
    unfolding layered ask
    tenant_circuit_filter should_reject base req s =
        layered base req (
          ask should_reject (resolve_request_tenant loads repr req.job_metadata req.room.metadata)
            s)

    -- The layers that `AgentPool.__init__` puts over the base filter, the innermost first.
    per_agent_layer :
        (S → List Text) → (S → Dict ℕ) → Option (Dict ℕ) → Option (Filter S) → Option (Filter S)
    per_agent_layer agents counts none base = base
    per_agent_layer agents counts (some caps) base =
        some (per_agent_backpressure_filter agents caps counts base)

    per_tenant_layer : (S → Dict ℕ) → Option (Dict ℕ) → Option (Filter S) → Option (Filter S)
    per_tenant_layer counts none base = base
    per_tenant_layer counts (some caps) base =
        some (per_tenant_backpressure_filter caps counts base)

    circuit_layer : Option (Text → S → Bool × S) → Option (Filter S) → Option (Filter S)
    circuit_layer none base = base
    circuit_layer (some should_reject) base = some (tenant_circuit_filter should_reject base)

    unfoldable pub pool_filter :
        (S → List Text)
        → (S → Dict ℕ)
        → (S → Dict ℕ)
        → Option (Dict ℕ)
        → Option (Dict ℕ)
        → Option (Text → S → Bool × S)
        → Option (Filter S)
        → Option (Filter S)
    unfolding per_agent_layer per_tenant_layer circuit_layer
    pool_filter agents by_agent by_tenant agent_caps tenant_caps should_reject base =
        circuit_layer should_reject
          (per_tenant_layer by_tenant tenant_caps (per_agent_layer agents by_agent agent_caps base))
