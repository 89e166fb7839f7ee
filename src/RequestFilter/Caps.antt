-- ===== src/RequestFilter/Caps.antt =====
-- The layers of the pool's filter in core/pool.py: each only adds rejections, and together they
-- decide.
use openrtc_python.Prelude.{
  ℕ, ◌≡◌, refl, ◌⊎◌, Bool, true, false, not, ◌||◌, Option, none, some, List, [], ◌∷◌, arith,
  if◌then◌else◌, inl, inr,
}
use openrtc_python.Prelude.Text.{Text}
use openrtc_python.Prelude.Dict.{Dict}
use openrtc_python.Prelude.Outcome.{Outcome, Exc, ret, raise}
use openrtc_python.Routing.{Loads}
use openrtc_python.RequestFilter.{
  Reply, accept, reject, Request, Filter, base_or_accept, at_cap, agent_at_cap, layered, owns_room,
  resolve_request_agent_name, resolve_request_tenant, registered_rooms_filter,
  per_agent_backpressure_filter, per_tenant_backpressure_filter, tenant_circuit_filter,
  per_agent_layer, per_tenant_layer, circuit_layer, pool_filter,
}

module _ {S : Type 0} where
  -- One answer: a rejection, an exception, or what the base filter does in some state.
  abbrev AddsRejection : Option (Filter S) → Request → Outcome (List Reply) × S → Type 0
  AddsRejection base req (answer, after) =
      (answer ≡ ret (reject ∷ []))
      ⊎ ((e : Exc) × (answer ≡ raise e))
      ⊎ ((s : S) × ((answer, after) ≡ base_or_accept base req s))

  abbrev pub Narrows : Option (Filter S) → Option (Filter S) → Type 0
  Narrows base outer = (req : Request) (s : S) → AddsRejection base req (base_or_accept outer req s)

  layered-Narrows :
      (base inner : Option (Filter S))
      → Narrows base inner
      → (req : Request) (asked : Outcome Bool × S)
      → AddsRejection base req (layered inner req asked)
  unfolding layered
  layered-Narrows base inner h req (ret true, s) = inl refl
  layered-Narrows base inner h req (ret false, s) = h req s
  layered-Narrows base inner h req (raise e, s) = inr (inl (e, refl))

  Narrows-refl : (base : Option (Filter S)) → Narrows base base
  Narrows-refl base req s = inr (inr (s, refl))

  module _ (loads : Loads) (repr : ℕ → Text) where
    per_agent_layer-Narrows :
        (base inner : Option (Filter S)) (agents : S → List Text) (counts : S → Dict ℕ)
        (caps : Option (Dict ℕ))
        → Narrows base inner
        → Narrows base (per_agent_layer loads repr agents counts caps inner)
    unfolding per_agent_layer per_agent_backpressure_filter
    per_agent_layer-Narrows base inner agents counts none h = h
    per_agent_layer-Narrows base inner agents counts (some caps) h =
        λ req s. layered-Narrows base inner h req _

    per_tenant_layer-Narrows :
        (base inner : Option (Filter S)) (counts : S → Dict ℕ) (caps : Option (Dict ℕ))
        → Narrows base inner
        → Narrows base (per_tenant_layer loads repr counts caps inner)
    unfolding per_tenant_layer per_tenant_backpressure_filter
    per_tenant_layer-Narrows base inner counts none h = h
    per_tenant_layer-Narrows base inner counts (some caps) h =
        λ req s. layered-Narrows base inner h req _

    circuit_layer-Narrows :
        (base inner : Option (Filter S)) (should_reject : Option (Text → S → Bool × S))
        → Narrows base inner
        → Narrows base (circuit_layer loads repr should_reject inner)
    unfolding circuit_layer tenant_circuit_filter
    circuit_layer-Narrows base inner none h = h
    circuit_layer-Narrows base inner (some should_reject) h =
        λ req s. layered-Narrows base inner h req _

    -- Whatever layers are switched on, the pool's filter rejects, raises, or does just what the
    -- base filter does: a cap or a breaker never lets in a job that the base would refuse.
    pub pool_filter-Narrows :
        (agents : S → List Text) (by_agent by_tenant : S → Dict ℕ)
        (agent_caps tenant_caps : Option (Dict ℕ)) (should_reject : Option (Text → S → Bool × S))
        (base : Option (Filter S))
        → Narrows base (
            pool_filter loads repr agents by_agent by_tenant agent_caps tenant_caps should_reject
              base)
    unfolding pool_filter
    pool_filter-Narrows agents by_agent by_tenant agent_caps tenant_caps should_reject base =
        circuit_layer-Narrows base _ should_reject (
          per_tenant_layer-Narrows base _ by_tenant tenant_caps
            (per_agent_layer-Narrows base base agents by_agent agent_caps (Narrows-refl base)))

    -- With every layer on and the ownership filter as base, a job whose tenant, agent and owner can
    -- be resolved gets one reply: it is accepted exactly when the tenant's breaker is closed, the
    -- tenant and the agent are below their caps, and a registered agent owns the room.
    pub pool_filter_decides :
        (agents : S → List Text) (by_agent by_tenant : S → Dict ℕ) (agent_caps tenant_caps : Dict ℕ)
        (should_reject : Text → S → Bool × S) (req : Request) (s : S) (tenant : Text)
        (name : Option Text) (owned : Bool)
        → let after = (should_reject tenant s).1 in
          resolve_request_tenant loads repr req.job_metadata req.room.metadata ≡ ret tenant
          → resolve_request_agent_name loads
              (agents after)
              req.room.name
              req.job_metadata
              req.room.metadata
            ≡ ret name
          → owns_room loads (agents after) req.room.name req.job_metadata req.room.metadata
            ≡ ret owned
          → base_or_accept
              (pool_filter loads repr agents by_agent by_tenant
                (some agent_caps)
                (some tenant_caps)
                (some should_reject)
                (some (registered_rooms_filter loads agents)))
              req
              s
            ≡ (
              ret (
                  (if (should_reject tenant s).0
                      || at_cap tenant_caps (by_tenant after) tenant
                      || agent_at_cap agent_caps (by_agent after) name
                      || not owned
                    then reject
                    else accept)
                  ∷ []),
              after,
            )
    unfolding pool_filter tenant_circuit_filter per_tenant_backpressure_filter
        per_agent_backpressure_filter registered_rooms_filter
    pool_filter_decides agents by_agent by_tenant agent_caps tenant_caps should_reject req s tenant
          name owned t n o =
        rw t (ground arith)
