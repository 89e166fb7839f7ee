-- ===== src/Tests/Filters.antt =====
-- The job filters at two agents, with caps on an agent and a tenant.
use openrtc_python.Prelude.{
  ℕ, ◌≡◌, refl, Bool, true, false, not, ◌||◌, none, some, [], ◌∷◌, arith, if◌then◌else◌,
}
use openrtc_python.Prelude.Text.{
  Text, Text-discrete, codes, contains, lstrip, strip, is_space, starts_with,
}
use openrtc_python.Prelude.Dict.{Dict, get, get_or, put, update}
use openrtc_python.Prelude.Outcome.{ret, raise, value_error}
use openrtc_python.SessionView.{text, absent, str, mapping, SessionView}
use openrtc_python.Validation.{tenant_id_max, is_name_char, full_match, require_tenant_id}
use openrtc_python.Validation.Names.{IsToken}
use openrtc_python.Observer.{
  SessionInfo, build_session_info, coerce_metadata, merge_metadata, to_text_map, resolve_tenant,
}
use openrtc_python.Routing.{
  agent_name_from_metadata, agent_name_from_mapping, prefix_match, resolve_agent_name,
  run_strategies, resolve, metadata_resolve, require_registered_name,
}
use openrtc_python.RequestFilter.{
  Request, accept, reject, base_or_accept, at_cap, agent_at_cap, owns_room, registered_name,
  prefixed_name, resolve_request_agent_name, resolve_request_tenant, registered_rooms_filter,
  per_tenant_backpressure_filter, pool_filter, tenant_or_default,
}
use openrtc_python.RequestFilter.Mirror.{resolve_request_agent_name-resolve_agent_name}
use openrtc_python.RequestFilter.Ownership.{owns_room_unroutable}
use openrtc_python.RequestFilter.Caps.{pool_filter_decides}
use openrtc_python.RequestFilter.Tenant.{request_of, per_tenant_backpressure_filter-padded}
use openrtc_python.Tests.Routing.{loads, sales, support, agents, view}

abbrev repr : ℕ → Text
repr n = []

-- Job metadata with a padded tenant id, and no agent.
abbrev padded : SessionView
padded = record {
  room_name = codes "sales-1";
  job_id = str [];
  job_metadata = mapping ((codes "tenant", text (codes "acme ")) ∷ []);
  room_metadata = absent;
}

abbrev acme : Text
acme = codes "acme"

-- The state: how many sessions are active, and how often the breaker was asked.
abbrev one_count : ℕ → Dict ℕ
one_count n = (acme, n) ∷ (sales, n) ∷ []

abbrev ask_breaker : Text → ℕ → Bool × ℕ
ask_breaker tenant n = (false, n)

abbrev caps : Dict ℕ
caps = (acme, 1) ∷ []

abbrev agent_caps : Dict ℕ
agent_caps = (sales, 5) ∷ []

pool_filter_decides_example :
    let req = request_of (str padded.room_name) padded in
    base_or_accept
      (pool_filter loads repr
        (λ n. agents)
        one_count
        one_count
        (some agent_caps)
        (some caps)
        (some ask_breaker)
        (some (registered_rooms_filter loads (λ n. agents))))
      req
      2
    ≡ (
      ret (
          (if false
              || at_cap caps (one_count 2) (codes "acme ")
              || agent_at_cap agent_caps (one_count 2) (some sales)
              || not true
            then reject
            else accept)
          ∷ []),
      2,
    )
unfolding resolve_request_tenant tenant_or_default merge_metadata coerce_metadata to_text_map update
    put get get_or Text-discrete resolve_request_agent_name registered_name prefixed_name
    prefix_match starts_with agent_name_from_metadata agent_name_from_mapping owns_room
pool_filter_decides_example =
    pool_filter_decides loads repr (λ n. agents) one_count one_count agent_caps caps ask_breaker
      (request_of (str padded.room_name) padded) 2 (codes "acme ") (some sales) true refl refl refl

routed : resolve_agent_name loads agents view none ≡ ret support
unfolding resolve_agent_name run_strategies resolve metadata_resolve require_registered_name
    contains agent_name_from_metadata agent_name_from_mapping get Text-discrete strip lstrip
    is_space
routed = refl

resolve_request_agent_name-resolve_agent_name_example :
    resolve_request_agent_name loads agents
      (str view.room_name)
      view.job_metadata
      view.room_metadata
    ≡ ret (some support)
resolve_request_agent_name-resolve_agent_name_example =
    resolve_request_agent_name-resolve_agent_name loads agents view support routed

abbrev info : SessionInfo
info = record {
  agent_name = sales;
  room_name = codes "sales-1";
  job_id = str [];
  metadata = (codes "tenant", acme) ∷ [];
  started_at = 7;
  tenant = acme;
  deployment_version = none;
}

built : build_session_info loads repr 7 sales padded none ≡ ret info
unfolding build_session_info merge_metadata coerce_metadata to_text_map update put get get_or
    Text-discrete resolve_tenant require_tenant_id full_match is_name_char strip lstrip is_space
built = refl

acme-IsToken : IsToken tenant_id_max acme
unfolding is_name_char
acme-IsToken = record { some_char = refl; short = omega arith; charset = refl }

seen :
    resolve_request_tenant loads repr padded.job_metadata padded.room_metadata ≡ ret (codes "acme ")
unfolding resolve_request_tenant tenant_or_default merge_metadata coerce_metadata to_text_map update
    put get get_or Text-discrete
seen = refl

abbrev request : Request
request = request_of (str padded.room_name) padded

-- Three sessions of `acme` run under a cap of one, and a fourth is accepted.
per_tenant_backpressure_filter-padded_example :
    per_tenant_backpressure_filter loads repr caps one_count none request 3 ≡ (ret (accept ∷ []), 3)
per_tenant_backpressure_filter-padded_example =
    per_tenant_backpressure_filter-padded loads repr 7 sales padded none info (codes "acme ") caps
      built seen (λ e. ground arith) (acme-IsToken, tt) one_count none (str padded.room_name) 3

-- Job metadata names an agent of another deployment.
abbrev foreign : SessionView
foreign = record view { job_metadata = mapping ((codes "agent", text (codes "gone")) ∷ []) }

owns_room_unroutable_example :
    (owns_room loads agents (str foreign.room_name) foreign.job_metadata foreign.room_metadata
      ≡ ret true)
    × (resolve_agent_name loads agents foreign none ≡ raise value_error)
unfolding contains agent_name_from_metadata agent_name_from_mapping get Text-discrete strip lstrip
    is_space
owns_room_unroutable_example =
    owns_room_unroutable loads agents foreign (codes "gone") support refl refl refl refl

owned : owns_room loads agents (str view.room_name) view.job_metadata view.room_metadata ≡ ret true
unfolding owns_room registered_name contains agent_name_from_metadata agent_name_from_mapping get
    Text-discrete strip lstrip is_space
owned = refl
