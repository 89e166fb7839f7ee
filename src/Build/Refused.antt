-- ===== src/Build/Refused.antt =====
-- Why a job gets no session.
use openrtc_python.Prelude.{
  if◌then◌else◌, ◌≡◌, refl, ◌⊎◌, true, ap, ◌∙◌, sym, ℕ, Option, [], ◌∷◌, Bool-cases, inl, inr,
}
use openrtc_python.Prelude.Text.{Text}
use openrtc_python.Prelude.Dict.{Dict, keys}
use openrtc_python.Prelude.Outcome.{
  >>=-raise, Outcome, ret, raise, Exc, runtime_error, type_error, raise-injective, Outcome-cases,
}
use openrtc_python.SessionView.{JobContext, for_livekit}
use openrtc_python.Routing.{Loads, resolve_agent_config}
use openrtc_python.Observer.{SessionInfo, build_session_info}
use openrtc_python.TenantConfig.{Resolver, Providers, resolve_tenant_providers}
use openrtc_python.Serialization.{ProviderValue}
use openrtc_python.TurnHandling.{Any}
use openrtc_python.Registry.{AgentConfig}
use openrtc_python.Build.{
  session_kwargs_of, Built, agent_providers, repeats_own, Setting, construct, with_info,
  with_config, build_session,
}
use openrtc_python.Build.Cached.{IsStatic, entry_of, tenant_config-IsStatic}

module _ {S : Type 0} (agent_session : Providers ProviderValue → ℕ → Dict Any → Outcome S) where
  -- The session is not constructed: making the turn detection raises, there is no prewarmed VAD, an
  -- option repeats an argument that is given anyway, or the class raises.
  abbrev pub IsUnbuilt : AgentConfig → Providers ProviderValue → Setting → Exc → Type 0
  IsUnbuilt c providers at e =
      (session_kwargs_of at c ≡ raise e)
      ⊎ ((kwargs : Dict Any) × (session_kwargs_of at c ≡ ret kwargs)
          × ((at.vad ≡ raise e)
              ⊎ ((vad : ℕ) × (at.vad ≡ ret vad)
                  × (((repeats_own (keys kwargs) ≡ true) × (e ≡ type_error))
                      ⊎ (agent_session providers vad kwargs ≡ raise e)))))

  construct-IsUnbuilt :
      (c : AgentConfig) (info : SessionInfo) (providers : Providers ProviderValue) (at : Setting)
      (e : Exc)
      → construct agent_session c info providers at.vad (session_kwargs_of at c) ≡ raise e
      → IsUnbuilt c providers at e
  unfolding construct
  construct-IsUnbuilt c info providers at e h = elim (>>=-raise (session_kwargs_of at c) _ h) [
    | inl undetected ↦ inl undetected
    | inr (kwargs, chosen, h1) ↦ inr (
      kwargs,
      chosen,
      (elim (>>=-raise at.vad _ h1) [
        | inl no_vad ↦ inl no_vad
        | inr (vad, prewarmed, h2) ↦ inr (vad, prewarmed, called kwargs vad (>>=-raise _ _ h2))
      ]),
    )
  ]
    where
      call : Dict Any → ℕ → Outcome S
      call kwargs vad =
          if repeats_own (keys kwargs) then raise type_error else agent_session providers vad kwargs

      called :
          (kwargs : Dict Any) (vad : ℕ)
          → (call kwargs vad ≡ raise e)
            ⊎ ((session : S) × (call kwargs vad ≡ ret session)
                × Path
                    (Outcome (Built S))
                    (ret (record {
                      session = session;
                      config = c;
                      info = info;
                      providers = providers;
                    }))
                    (raise e))
          → ((repeats_own (keys kwargs) ≡ true) × (e ≡ type_error))
            ⊎ (agent_session providers vad kwargs ≡ raise e)
      called kwargs vad (inl failed) = elim (Bool-cases (repeats_own (keys kwargs))) [
        | inl repeats ↦ inl (repeats, sym (raise-injective (rw repeats at failed)))
        | inr fine ↦ inr (rw fine at failed)
      ]
      called kwargs vad (inr (session, made, h)) = cc

  module _ (loads : Loads) (repr : ℕ → Text) where
    -- No agent is registered, no agent is routed to, the metadata give no identity, or the session
    -- is not constructed.
    abbrev pub IsRefused :
        (Text → Option (Dict ProviderValue))
        → Dict AgentConfig
        → Setting
        → JobContext
        → Exc
        → Type 0
    IsRefused entries agents at ctx e =
        ((agents ≡ []) × (e ≡ runtime_error))
        ⊎ ((resolve_agent_config loads agents ctx at.router ≡ raise e)
            ⊎ ((c : AgentConfig) × (resolve_agent_config loads agents ctx at.router ≡ ret c)
                × ((build_session_info loads repr at.now c.name (for_livekit ctx) at.version
                      ≡ raise e)
                    ⊎ ((info : SessionInfo) × (build_session_info loads repr at.now c.name
                            (for_livekit ctx) at.version
                          ≡ ret info)
                        × IsUnbuilt c
                            (resolve_tenant_providers (agent_providers c) (entries info.tenant)) at
                            e))))

    pub build_session-IsRefused :
        (configs : Dict (Dict ProviderValue)) (agents : Dict AgentConfig) (at : Setting)
        (ctx : JobContext) (resolver : Option (Resolver ProviderValue)) (e : Exc)
        → IsStatic configs resolver
        → (build_session agent_session loads repr agents at ctx resolver).0 ≡ raise e
        → IsRefused (entry_of configs resolver) agents at ctx e
    unfolding build_session with_config with_info
    build_session-IsRefused configs [] at ctx resolver e static h =
        inl (refl, sym (raise-injective h))
    build_session-IsRefused configs (entry ∷ more) at ctx resolver e static h =
        elim (Outcome-cases (resolve_agent_config loads (entry ∷ more) ctx at.router)) [
          | inr (x, unrouted) ↦ inr (inl (unrouted ∙ ap raise (raise-injective (rw unrouted at h))))
          | inl (c, routed) ↦
              let h' = rw routed at h in
              inr (
                inr (
                  c,
                  routed,
                  elim (Outcome-cases
                      (build_session_info loads repr at.now c.name (for_livekit ctx) at.version)) [
                        | inr (x, failed) ↦
                            inl (failed ∙ ap raise (raise-injective (rw failed at h')))
                        | inl (info, known) ↦
                            let (config, after, same) =
                              tenant_config-IsStatic configs info.tenant resolver static in
                            inr (
                              info,
                              known,
                              construct-IsUnbuilt c info _ at e (
                                  ap
                                    (λ entry.
                                      construct agent_session c info
                                        (resolve_tenant_providers (agent_providers c) entry) at.vad
                                        (session_kwargs_of at c))
                                    (sym config)
                                  ∙ rw known at h'),
                            )
                      ],
                ))
        ]
