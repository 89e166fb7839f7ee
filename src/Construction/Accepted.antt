-- ===== src/Construction/Accepted.antt =====
-- The constructor of `AgentPool`: what is true of a pool that it returns.
use openrtc_python.Prelude.{
  subst, ◌≡◌, sym, ◌∙◌, ℕ, ◌≤◌, Bool, false, ◌&&◌, Option, none, some, List, [], ◌∷◌, arith, ◌⊎◌,
  Bool-cases, inl, inr,
}
use openrtc_python.Prelude.Text.{Text, codes, text_eq}
use openrtc_python.Prelude.Dict.{Dict}
use openrtc_python.Prelude.Outcome.{Outcome, ret, raise, >>=-ret, ret-injective}
use openrtc_python.Validation.{
  Argument, require_positive_int, require_non_negative_number, validate_isolation,
  require_agent_name, require_tenant_id, agent_name_max, tenant_id_max,
}
use openrtc_python.Validation.Names.{IsToken, require_tenant_id-IsToken, require_agent_name-IsToken}
use openrtc_python.Serialization.{Python}
use openrtc_python.Registry.{Defaults, AgentConfig, add}
use openrtc_python.Registry.Names.{adds, IsRegistry, run_steps-IsRegistry}
use openrtc_python.Construction.{
  Import, AgentObject, Agents, livekit_agents, pipecat_builders, check_optional_caps,
  strip_optional, Options, ServerParams, Pool, both, exclusive, check_hot_reload,
  resolve_backend_builder, register_pipeline_builder, added, add_agent, add_agents, given_agents,
  server_params, new_pool, add_observers, no_agents, plain_addition,
}
use openrtc_python.Construction.Checks.{
  Stripped, IsCaps, exclusive-ret, validate_isolation-ret, require_positive_int-ret,
  strip_optional-ret, resolve_backend_builder-ret, check_caps-IsCaps, check_hot_reload-ret,
  require_non_negative_number-ret,
}

abbrev pub GoodAgents : Agents → Type 0
GoodAgents (livekit_agents agents) = IsRegistry agents
GoodAgents (pipecat_builders builders) = Unit

pub record IsAccepted {F : Type 0} (below_zero : F → Bool) (o : Options F) (p : Pool F)
    : Type 0 where
  pub one_filter : (o.has_request_fnc && o.accept_only_registered_rooms) ≡ false
  pub one_source : both o.agent o.agents ≡ false
  pub isolation : (p.isolation ≡ codes "coroutine") ⊎ (p.isolation ≡ codes "process")
  pub backend : (p.backend ≡ codes "livekit") ⊎ (p.backend ≡ codes "pipecat")
  pub sessions : 1 ≤ p.params.max_concurrent_sessions
  pub failures : 1 ≤ p.params.consecutive_failure_limit
  pub timeout : 1 ≤ p.params.drain_timeout
  pub warn : below_zero p.params.memory_warn_mb ≡ false
  pub limit : below_zero p.params.memory_limit_mb ≡ false
  pub version : Stripped o.deployment_version p.deployment_version
  pub name : Stripped o.agent_name p.agent_name
  pub agent_caps : IsCaps agent_name_max p.agent_caps
  pub tenant_caps : IsCaps tenant_id_max p.tenant_caps
  pub hot_reload :
      (o.enable_hot_reload ≡ false)
      ⊎ ((p.backend ≡ codes "livekit") × (p.isolation ≡ codes "coroutine"))
  pub registry : GoodAgents p.agents

module _ {F : Type 0} (below_zero : F → Bool) (to_float : ℕ → F) (import_backend : Text → Import)
    (py : Python) (defaults : Defaults) (resolve : Text → Text) where
  add_agent-GoodAgents :
      (name : Text) (a : AgentObject) (agents result : Agents)
      → GoodAgents agents
      → add_agent below_zero to_float import_backend py defaults resolve name a agents ≡ ret result
      → GoodAgents result
  unfolding add_agent added
  add_agent-GoodAgents name a (livekit_agents agents) result h e =
      go (add py defaults resolve name (plain_addition a.agent_cls) agents)
        (run_steps-IsRegistry py defaults resolve (adds name (plain_addition a.agent_cls) ∷ [])
          agents h)
        e
    where
      go :
          (o : Outcome AgentConfig × Dict AgentConfig)
          → IsRegistry o.1
          → added below_zero to_float import_backend py defaults resolve o ≡ ret result
          → GoodAgents result
      go (ret c, after) good e = subst GoodAgents (ret-injective e) good
      go (raise x, after) good e = absurd (ground (arith, e))
  add_agent-GoodAgents name a (pipecat_builders builders) result h e =
      let (n, e1, f1) = >>=-ret (require_agent_name name) _ e in
      let (more, e2, f2) = >>=-ret (register_pipeline_builder n a builders) _ f1 in
      subst GoodAgents (ret-injective f2) tt

  add_agents-GoodAgents :
      (given : List (Text × AgentObject)) (agents result : Agents)
      → GoodAgents agents
      → add_agents below_zero to_float import_backend py defaults resolve given agents ≡ ret result
      → GoodAgents result
  unfolding add_agents
  add_agents-GoodAgents [] agents result h e = subst GoodAgents (ret-injective e) h
  add_agents-GoodAgents ((name, a) ∷ more) agents result h e =
      let (next, e1, f1) =
        >>=-ret (add_agent below_zero to_float import_backend py defaults resolve name a agents) _
          e in
      add_agents-GoodAgents more next result (add_agent-GoodAgents name a agents next h e1) f1

  no_agents-GoodAgents : (backend : Text) → GoodAgents (no_agents backend)
  no_agents-GoodAgents backend = elim (Bool-cases (text_eq backend (codes "livekit"))) [
    | inl livekit ↦ rw livekit (tt, tt)
    | inr foreign ↦ rw foreign tt
  ]

  caps-IsCaps :
      (m : ℕ) (require_name : Text → Outcome Text)
      (token : (value name : Text) → require_name value ≡ ret name → IsToken m name)
      (caps : Option (List (Text × Argument F))) (result : Dict ℕ)
      → check_optional_caps require_name caps ≡ ret result
      → IsCaps m result
  caps-IsCaps m require_name token none result e = subst (IsCaps m) (ret-injective e) tt
  caps-IsCaps m require_name token (some caps) result e =
      check_caps-IsCaps m require_name token caps [] result tt e

  pub server_params-ret :
      (o : Options F) (p : ServerParams F)
      → ((n : ℕ) → below_zero (to_float n) ≡ false)
      → server_params below_zero to_float import_backend py defaults resolve o ≡ ret p
      → (1 ≤ p.max_concurrent_sessions)
        × (1 ≤ p.consecutive_failure_limit)
        × (1 ≤ p.drain_timeout)
        × (below_zero p.memory_warn_mb ≡ false)
        × (below_zero p.memory_limit_mb ≡ false)
  unfolding server_params
  server_params-ret o p law e =
      let (sessions, e1, f1) = >>=-ret (require_positive_int o.max_concurrent_sessions) _ e in
      let (failures, e2, f2) = >>=-ret (require_positive_int o.consecutive_failure_limit) _ f1 in
      let (timeout, e3, f3) = >>=-ret (require_positive_int o.drain_timeout) _ f2 in
      let (warn, e4, f4) =
        >>=-ret (require_non_negative_number below_zero to_float o.memory_warn_mb) _ f3 in
      let (limit, e5, f5) =
        >>=-ret (require_non_negative_number below_zero to_float o.memory_limit_mb) _ f4 in
      subst
        (λ (q : ServerParams F).
          (1 ≤ q.max_concurrent_sessions)
          × (1 ≤ q.consecutive_failure_limit)
          × (1 ≤ q.drain_timeout)
          × (below_zero q.memory_warn_mb ≡ false)
          × (below_zero q.memory_limit_mb ≡ false))
        (ret-injective f5)
        (
          require_positive_int-ret o.max_concurrent_sessions sessions e1,
          require_positive_int-ret o.consecutive_failure_limit failures e2,
          require_positive_int-ret o.drain_timeout timeout e3,
          require_non_negative_number-ret below_zero to_float o.memory_warn_mb warn law e4,
          require_non_negative_number-ret below_zero to_float o.memory_limit_mb limit law e5,
        )

  -- If a number that is no negative integer becomes a float that is not below zero, a pool that the
  -- constructor returns has only options that are in bounds: limits of at least one, watermarks that
  -- are not below zero, a known isolation and backend, a version and a name that are absent or stripped
  -- and not empty, caps of at least one under valid names, hot reload with the livekit backend and
  -- coroutines alone, no two options that exclude each other, and on the livekit backend a registry
  -- that is well formed.
  pub new_pool-IsAccepted :
      (o : Options F) (p : Pool F)
      → ((n : ℕ) → below_zero (to_float n) ≡ false)
      → new_pool below_zero to_float import_backend py defaults resolve o ≡ ret p
      → IsAccepted below_zero o p
  unfolding new_pool
  new_pool-IsAccepted o p law e =
      let (u1, e1, f1) =
        >>=-ret (exclusive (o.has_request_fnc && o.accept_only_registered_rooms)) _ e in
      let (u2, e2, f2) = >>=-ret (exclusive (both o.agent o.agents)) _ f1 in
      let (isolation, e3, f3) = >>=-ret (validate_isolation o.isolation) _ f2 in
      let (params, e4, f4) =
        >>=-ret (server_params below_zero to_float import_backend py defaults resolve o) _ f3 in
      let (version, e5, f5) = >>=-ret (strip_optional o.deployment_version) _ f4 in
      let (name, e6, f6) = >>=-ret (strip_optional o.agent_name) _ f5 in
      let (u7, e7, f7) = >>=-ret (resolve_backend_builder import_backend o.backend) _ f6 in
      let (observers, e8, f8) = >>=-ret (add_observers o.observers []) _ f7 in
      let (agents, e9, f9) =
        >>=-ret
          (add_agents below_zero to_float import_backend py defaults resolve
            (given_agents below_zero to_float import_backend py defaults resolve o)
            (no_agents o.backend))
          _ f8 in
      let (agent_caps, e10, f10) =
        >>=-ret (check_optional_caps require_agent_name o.max_sessions_per_agent) _ f9 in
      let (tenant_caps, e11, f11) =
        >>=-ret (check_optional_caps require_tenant_id o.max_sessions_per_tenant) _ f10 in
      let (u12, e12, f12) =
        >>=-ret (check_hot_reload o.enable_hot_reload o.backend o.isolation) _ f11 in
      let (same, known) = validate_isolation-ret o.isolation isolation e3 in
      let bounds = server_params-ret o params law e4 in
      subst (IsAccepted below_zero o) (ret-injective f12) (record {
        one_filter = exclusive-ret _ e1;
        one_source = exclusive-ret _ e2;
        isolation = subst (λ i. (i ≡ codes "coroutine") ⊎ (i ≡ codes "process")) (sym same) known;
        backend = resolve_backend_builder-ret import_backend o.backend e7;
        sessions = bounds.0;
        failures = bounds.1;
        timeout = bounds.2;
        warn = bounds.3;
        limit = bounds.4;
        version = strip_optional-ret o.deployment_version version e5;
        name = strip_optional-ret o.agent_name name e6;
        agent_caps =
            caps-IsCaps agent_name_max require_agent_name
              (λ value n accepted. (require_agent_name-IsToken value n accepted).1)
              o.max_sessions_per_agent agent_caps e10;
        tenant_caps =
            caps-IsCaps tenant_id_max require_tenant_id
              (λ value n accepted. (require_tenant_id-IsToken value n accepted).1)
              o.max_sessions_per_tenant tenant_caps e11;
        hot_reload = elim (check_hot_reload-ret o.enable_hot_reload o.backend o.isolation e12) [
          | inl off ↦ inl off
          | inr (livekit, coroutine) ↦ inr (livekit, same ∙ coroutine)
        ];
        registry =
            add_agents-GoodAgents _ (no_agents o.backend) agents (no_agents-GoodAgents o.backend)
              e9;
      })
