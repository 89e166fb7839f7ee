-- ===== src/Routing/Precedence.antt =====
-- `_resolve_agent_name`: the order of the routing signals, without the strategy objects.
use openrtc_python.Prelude.{◌≡◌, refl, Option, none, some, List, arith, if◌then◌else◌}
use openrtc_python.Prelude.Text.{Text, contains}
use openrtc_python.Prelude.Outcome.{Outcome, ret, raise, value_error, is_exception, ◌>>=◌}
use openrtc_python.Prelude.Dict.{Dict}
use openrtc_python.SessionView.{Value, SessionView}
use openrtc_python.Routing.{
  Loads, Router, prefix_match, next_iter, require_registered_name, agent_name_from_metadata,
  registered, metadata_resolve, resolve, run_strategies, router_answer, metadata_to_mapping,
  resolve_via_router, via_router, resolve_agent_name, routing_strategies,
}

abbrev pub or_else : Option Text → Option Text → Option Text
or_else (some n) _ = some n
or_else none o = o

-- A name in metadata must be registered; without one the room's prefix decides, then the order of
-- registration.
abbrev pub by_signals : List Text → Text → Option Text → Outcome Text
by_signals names room_name (some n) = require_registered_name names n
by_signals names room_name none = elim (prefix_match room_name names) [
  | some n ↦ ret n
  | none ↦ next_iter names
]

abbrev pub by_router : List Text → Outcome Text → Outcome (Option Text) → Outcome Text
by_router names chain (ret (some n)) = if contains n names then ret n else raise value_error
by_router names chain (ret none) = chain
by_router names chain (raise e) = raise (if is_exception e then value_error else e)

module _ (loads : Loads) where
  -- Without a custom router, and where both metadata values can be read, the chain follows the
  -- first name of job metadata and room metadata, which must be registered; else the room-name
  -- prefix; else the first agent.
  pub resolve_agent_name-by_signals :
      (names : List Text) (view : SessionView) (job room : Option Text)
      → agent_name_from_metadata loads view.job_metadata ≡ ret job
      → agent_name_from_metadata loads view.room_metadata ≡ ret room
      → resolve_agent_name loads names view none
        ≡ by_signals names view.room_name (or_else job room)
  unfolding resolve_agent_name via_router run_strategies resolve metadata_resolve registered
  resolve_agent_name-by_signals names view job room ej er = ground arith

  -- Where job metadata can be read, a custom router goes first. A registered name that it returns
  -- is the result, whatever the metadata and the room name say; an unknown name, or an exception
  -- other than a cancellation and the like, rejects the session with `ValueError`; `None` leaves
  -- the decision to the chain.
  pub resolve_agent_name-by_router :
      (names : List Text) (view : SessionView) (router : Router) (payload : Option (Dict Value))
      → metadata_to_mapping loads view.job_metadata ≡ ret payload
      → resolve_agent_name loads names view (some router)
        ≡ by_router names (resolve_agent_name loads names view none) (router payload)
  unfolding resolve_agent_name via_router resolve_via_router router_answer
  resolve_agent_name-by_router names view router payload e = rw e (go (router payload))
    where
      go :
          (answer : Outcome (Option Text))
          → (router_answer loads names answer >>= λ routed. elim routed [
            | some name ↦ ret name
            | none ↦ run_strategies loads routing_strategies names view
          ])
            ≡ by_router names (run_strategies loads routing_strategies names view) answer
      go (raise e) = refl
      go (ret none) = refl
      go (ret (some n)) = ground arith
