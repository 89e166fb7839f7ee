-- ===== src/Build/Cached.antt =====
-- A worker's resolver over a static map: what it answers in a session, and what the session leaves in
-- its cache.
use openrtc_python.Prelude.{◌≡◌, refl, ℕ, Option, none, some, [], ◌∷◌, inl, inr}
use openrtc_python.Prelude.Text.{Text}
use openrtc_python.Prelude.Dict.{Dict, get}
use openrtc_python.Prelude.Outcome.{Outcome, Outcome-cases}
use openrtc_python.SessionView.{JobContext, for_livekit}
use openrtc_python.Routing.{Loads, resolve_agent_config}
use openrtc_python.Observer.{build_session_info}
use openrtc_python.TenantConfig.{Resolver, Providers}
use openrtc_python.TenantConfig.Static.{IsFaithful, resolve-IsFaithful}
use openrtc_python.Serialization.{ProviderValue}
use openrtc_python.TurnHandling.{Any}
use openrtc_python.Registry.{AgentConfig}
use openrtc_python.Build.{tenant_config, Setting, with_info, with_config, build_session}

-- The resolver of a worker, if it has one, answers as a static map does.
abbrev pub IsStatic : Dict (Dict ProviderValue) → Option (Resolver ProviderValue) → Type 0
IsStatic configs none = Unit
IsStatic configs (some r) = IsFaithful configs r

-- The tenant's entry in the map, if there is a resolver.
abbrev pub entry_of :
    Dict (Dict ProviderValue) → Option (Resolver ProviderValue) → Text → Option (Dict ProviderValue)
entry_of configs none tenant = none
entry_of configs (some r) tenant = get tenant configs

pub tenant_config-IsStatic :
    (configs : Dict (Dict ProviderValue)) (tenant : Text)
    (resolver : Option (Resolver ProviderValue))
    → IsStatic configs resolver
    → ((tenant_config tenant resolver).0 ≡ entry_of configs resolver tenant)
      × IsStatic configs (tenant_config tenant resolver).1
      × (entry_of configs (tenant_config tenant resolver).1 ≡ entry_of configs resolver)
unfolding tenant_config
tenant_config-IsStatic configs tenant none f = (refl, tt, refl)
tenant_config-IsStatic configs tenant (some r) f =
    let (found, after) = resolve-IsFaithful configs tenant r f in (found, after, refl)

module _ {S : Type 0} (agent_session : Providers ProviderValue → ℕ → Dict Any → Outcome S)
    (loads : Loads) (repr : ℕ → Text) where
  -- What a job leaves in the cache is still the map's.
  pub build_session-IsStatic :
      (configs : Dict (Dict ProviderValue)) (agents : Dict AgentConfig) (at : Setting)
      (ctx : JobContext) (resolver : Option (Resolver ProviderValue))
      → IsStatic configs resolver
      → let after = (build_session agent_session loads repr agents at ctx resolver).1 in
        IsStatic configs after × (entry_of configs after ≡ entry_of configs resolver)
  unfolding build_session with_config with_info
  build_session-IsStatic configs [] at ctx resolver static = (static, refl)
  build_session-IsStatic configs (entry ∷ more) at ctx resolver static =
      elim (Outcome-cases (resolve_agent_config loads (entry ∷ more) ctx at.router)) [
        | inr (x, e) ↦ rw e (static, refl)
        | inl (c, e) ↦
            rw e
              (elim (Outcome-cases
                (build_session_info loads repr at.now c.name (for_livekit ctx) at.version)) [
                  | inr (x, e') ↦ rw e' (static, refl)
                  | inl (info, e') ↦
                      let (config, after, same) =
                        tenant_config-IsStatic configs info.tenant resolver static in
                      rw e' (after, same)
                ])
      ]
