-- ===== src/Build/Own.antt =====
-- What the session of one job is made of.
use openrtc_python.Prelude.{
  ◌≡◌, ap, ◌∙◌, sym, subst, ℕ, Option, some, [], ◌∷◌, All, Bool-cases, inl, inr,
}
use openrtc_python.Prelude.Text.{Text, text_eq, text_eq→eq}
use openrtc_python.Prelude.Dict.{Dict, get, keys}
use openrtc_python.Prelude.Outcome.{Outcome, ret, >>=-ret, ret-injective, Outcome-cases}
use openrtc_python.SessionView.{JobContext, for_livekit}
use openrtc_python.Routing.{Loads, resolve_agent_config, resolve_agent_name}
use openrtc_python.Routing.Resolved.{resolve_agent_config-get}
use openrtc_python.Observer.{SessionInfo, build_session_info}
use openrtc_python.TenantConfig.{Resolver, Providers, resolve_tenant_providers}
use openrtc_python.Serialization.{ProviderValue}
use openrtc_python.TurnHandling.{Any}
use openrtc_python.Registry.{AgentConfig}
use openrtc_python.Registry.Names.{IsEntry}
use openrtc_python.Build.{
  session_kwargs_of, Router, agent_providers, repeats_own, tenant_config, Setting, Built, construct,
  with_info, with_config, build_session,
}
use openrtc_python.Build.Cached.{IsStatic, entry_of, tenant_config-IsStatic}

resolved :
    (loads : Loads) (agents : Dict AgentConfig) (ctx : JobContext) (router : Option Router)
    (c : AgentConfig)
    → resolve_agent_config loads agents ctx router ≡ ret c
    → (name : Text) × (resolve_agent_name loads (keys agents) (for_livekit ctx) router ≡ ret name)
      × (get name agents ≡ some c)
unfolding resolve_agent_config
resolved loads [] ctx router c h = cc
resolved loads (entry ∷ more) ctx router c h =
    elim (resolve_agent_config-get loads entry more ctx router) [
      | inl (name, found, named, known, at, same) ↦
          (name, named, at ∙ ap some (ret-injective (sym same ∙ h)))
      | inr (x, named, same) ↦ cc
    ]

module _ {S : Type 0} (agent_session : Providers ProviderValue → ℕ → Dict Any → Outcome S)
    (loads : Loads) (repr : ℕ → Text) where
  with_config_of :
      (agents : Dict AgentConfig) (at : Setting) (ctx : JobContext)
      (resolver : Option (Resolver ProviderValue)) (b : Built S)
      → (build_session agent_session loads repr agents at ctx resolver).0 ≡ ret b
      → (with_config agent_session loads repr at ctx
          (resolve_agent_config loads agents ctx at.router)
          resolver).0
        ≡ ret b
  unfolding build_session
  with_config_of [] at ctx resolver b h = cc
  with_config_of (entry ∷ more) at ctx resolver b h = h

module _ {S : Type 0} (agent_session : Providers ProviderValue → ℕ → Dict Any → Outcome S)
    (loads : Loads) (repr : ℕ → Text) (agents : Dict AgentConfig)
    (configs : Dict (Dict ProviderValue)) where
  -- A session of a job: its agent is the registered one that routing names, its tenant the one that
  -- the job's metadata name, and its providers are the agent's but for those that the tenant's entry
  -- overrides. The class of sessions has made it of these, the prewarmed VAD and the agent's options.
  pub record IsOwn (entries : Text → Option (Dict ProviderValue)) (at : Setting) (ctx : JobContext)
      (b : Built S) : Type 0 where
    pub routed :
        resolve_agent_name loads (keys agents) (for_livekit ctx) at.router ≡ ret b.config.name
    pub listed : get b.config.name agents ≡ some b.config
    pub identity :
        build_session_info loads repr at.now b.config.name (for_livekit ctx) at.version ≡ ret b.info
    pub own :
        b.providers ≡ resolve_tenant_providers (agent_providers b.config) (entries b.info.tenant)
    pub constructed :
        (kwargs : Dict Any) × (vad : ℕ) × (session_kwargs_of at b.config ≡ ret kwargs)
        × (at.vad ≡ ret vad)
        × (agent_session b.providers vad kwargs ≡ ret b.session)

  -- What a session is constructed of.
  abbrev Constructed : AgentConfig → Providers ProviderValue → Setting → S → Type 0
  Constructed c providers at session =
      (kwargs : Dict Any) × (vad : ℕ) × (session_kwargs_of at c ≡ ret kwargs)
      × (at.vad ≡ ret vad)
      × (agent_session providers vad kwargs ≡ ret session)

  construct-parts :
      (c : AgentConfig) (info : SessionInfo) (providers : Providers ProviderValue) (at : Setting)
      (b : Built S)
      → construct agent_session c info providers at.vad (session_kwargs_of at c) ≡ ret b
      → (b.config ≡ c)
        × (b.info ≡ info)
        × (b.providers ≡ providers)
        × Constructed c providers at b.session
  unfolding construct
  construct-parts c info providers at b h =
      let (kwargs, chosen, h1) = >>=-ret (session_kwargs_of at c) _ h in
      let (vad, prewarmed, h2) = >>=-ret at.vad _ h1 in
      elim (Bool-cases (repeats_own (keys kwargs))) [
        | inl repeats ↦ cc (rw repeats at h2)
        | inr fine ↦
            let (session, made, same) =
              >>=-ret (agent_session providers vad kwargs) _ (rw fine at h2) in
            let e = ret-injective same in
            (
              sym (ap (λ (x : Built S). x.config) e),
              sym (ap (λ (x : Built S). x.info) e),
              sym (ap (λ (x : Built S). x.providers) e),
              (kwargs, vad, chosen, prewarmed, made ∙ ap (λ (x : Built S). ret x.session) e),
            )
      ]

  with_info-IsOwn :
      (at : Setting) (ctx : JobContext) (c : AgentConfig)
      (resolver : Option (Resolver ProviderValue)) (b : Built S)
      → IsStatic configs resolver
      → resolve_agent_name loads (keys agents) (for_livekit ctx) at.router ≡ ret c.name
      → get c.name agents ≡ some c
      → (with_info agent_session loads repr at c
          (build_session_info loads repr at.now c.name (for_livekit ctx) at.version)
          resolver).0
        ≡ ret b
      → IsOwn (entry_of configs resolver) at ctx b
  unfolding with_info
  with_info-IsOwn at ctx c resolver b static named found h =
      elim (Outcome-cases
        (build_session_info loads repr at.now c.name (for_livekit ctx) at.version)) [
          | inr (x, e) ↦ cc (rw e at h)
          | inl (info, e) ↦
              let (config, p, q) = tenant_config-IsStatic configs info.tenant resolver static in
              let (pc, pi, pp, made) =
                construct-parts c info
                  (resolve_tenant_providers (agent_providers c)
                    (tenant_config info.tenant resolver).0)
                  at b (rw e at h) in
              record {
                routed = named ∙ ap (λ (x : AgentConfig). ret x.name) (sym pc);
                listed = subst (λ (x : AgentConfig). get x.name agents ≡ some x) (sym pc) found;
                identity =
                    subst
                      (λ (x : AgentConfig).
                        build_session_info loads repr at.now x.name (for_livekit ctx) at.version
                        ≡ ret b.info)
                      (sym pc) (e ∙ ap ret (sym pi));
                own = pp ∙ ap (resolve_tenant_providers (agent_providers c)) config ∙ (λ i.
                    resolve_tenant_providers (agent_providers (sym pc i))
                      (entry_of configs resolver (sym pi i).tenant));
                constructed =
                    subst (λ (x : AgentConfig). Constructed x b.providers at b.session) (sym pc)
                      (subst (λ p. Constructed c p at b.session) (sym pp) made);
              }
        ]

  get-IsEntry :
      (d : Dict AgentConfig) (name : Text) (c : AgentConfig)
      → All IsEntry d
      → get name d ≡ some c
      → c.name ≡ name
  unfolding get
  get-IsEntry [] name c all h = cc
  get-IsEntry ((k, v) ∷ d) name c all h = elim (Bool-cases (text_eq k name)) [
    | inl same ↦
        let e : v ≡ c = cc (rw same at h) in
        sym (ap (λ (x : AgentConfig). x.name) e) ∙ all.0.named ∙ text_eq→eq k name same
    | inr other ↦ get-IsEntry d name c all.1 (rw other at h)
  ]

  pub build_session-IsOwn :
      (at : Setting) (ctx : JobContext) (resolver : Option (Resolver ProviderValue)) (b : Built S)
      → All IsEntry agents
      → IsStatic configs resolver
      → (build_session agent_session loads repr agents at ctx resolver).0 ≡ ret b
      → IsOwn (entry_of configs resolver) at ctx b
  unfolding with_config
  build_session-IsOwn at ctx resolver b entries static h =
      let built = with_config_of agent_session loads repr agents at ctx resolver b h in
      elim (Outcome-cases (resolve_agent_config loads agents ctx at.router)) [
        | inr (x, e) ↦ cc (rw e at built)
        | inl (c, e) ↦
            let (name, named, found) = resolved loads agents ctx at.router c e in
            let same = get-IsEntry agents name c entries found in
            with_info-IsOwn at ctx c resolver b static (named ∙ ap ret (sym same))
              (ap (λ n. get n agents) same ∙ found) (rw e at built)
      ]
