-- ===== src/RequestFilter/Mirror.antt =====
-- `_resolve_request_agent_name` against `_resolve_agent_name`: backpressure counts a job against
-- the agent that routing will give it to.
use openrtc_python.Prelude.{◌≡◌, none, some, List, [], ◌∷◌, arith}
use openrtc_python.Prelude.Text.{Text, contains}
use openrtc_python.Prelude.Outcome.{ret}
use openrtc_python.SessionView.{SessionView, str}
use openrtc_python.Routing.{
  Loads, next_iter, require_registered_name, metadata_resolve, resolve, run_strategies,
  resolve_agent_name,
}
use openrtc_python.Routing.Resolved.{resolve_agent_name-contains}
use openrtc_python.RequestFilter.{
  registered_name, prefixed_name, some_agent_name, resolve_request_agent_name,
}

module _ (loads : Loads) where
  -- Where routing without a custom router resolves a name, the backpressure filter attributes the
  -- job with the same room name and metadata to the same agent.
  pub resolve_request_agent_name-resolve_agent_name :
      (names : List Text) (view : SessionView) (name : Text)
      → resolve_agent_name loads names view none ≡ ret name
      → resolve_request_agent_name loads names
          (str view.room_name)
          view.job_metadata
          view.room_metadata
        ≡ ret (some name)
  unfolding resolve_agent_name run_strategies resolve metadata_resolve require_registered_name
      resolve_request_agent_name some_agent_name registered_name prefixed_name next_iter contains
  resolve_request_agent_name-resolve_agent_name [] view name h =
      absurd (ground (arith, resolve_agent_name-contains loads [] view none name h))
  resolve_request_agent_name-resolve_agent_name (n ∷ names) view name h = ground arith
