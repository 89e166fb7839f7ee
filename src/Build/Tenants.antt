-- ===== src/Build/Tenants.antt =====
-- Which agent and whose providers the sessions of many jobs get.
use openrtc_python.Prelude.{subst, ℕ, Option, List, [], ◌∷◌, All, inl, inr}
use openrtc_python.Prelude.Text.{Text}
use openrtc_python.Prelude.Dict.{Dict}
use openrtc_python.Prelude.Outcome.{Outcome, ret, raise, Outcome-cases}
use openrtc_python.SessionView.{JobContext}
use openrtc_python.Routing.{Loads}
use openrtc_python.TenantConfig.{Resolver, Providers}
use openrtc_python.Serialization.{ProviderValue}
use openrtc_python.TurnHandling.{Any}
use openrtc_python.Registry.{AgentConfig}
use openrtc_python.Registry.Names.{IsEntry}
use openrtc_python.Build.{Setting, Built, build_session, build_sessions}
use openrtc_python.Build.Cached.{IsStatic, entry_of, build_session-IsStatic}
use openrtc_python.Build.Own.{IsOwn, build_session-IsOwn}
use openrtc_python.Build.Refused.{IsRefused, build_session-IsRefused}

module _ {S : Type 0} (agent_session : Providers ProviderValue → ℕ → Dict Any → Outcome S)
    (loads : Loads) (repr : ℕ → Text) (agents : Dict AgentConfig)
    (configs : Dict (Dict ProviderValue)) where
  -- What one job gives is its own: the session that its routing, metadata and tenant make, or the
  -- exception of the step that failed.
  abbrev pub IsAnswer :
      (Text → Option (Dict ProviderValue)) → Setting → JobContext → Outcome (Built S) → Type 0
  IsAnswer entries at ctx (ret b) = IsOwn agent_session loads repr agents configs entries at ctx b
  IsAnswer entries at ctx (raise e) = IsRefused agent_session loads repr entries agents at ctx e

  -- One answer for each job, in their order.
  abbrev pub AreOwn :
      (Text → Option (Dict ProviderValue))
      → List (Setting × JobContext)
      → List (Outcome (Built S))
      → Type 0
  AreOwn entries [] [] = Unit
  AreOwn entries ((at, ctx) ∷ jobs) (o ∷ built) =
      IsAnswer entries at ctx o × AreOwn entries jobs built
  AreOwn entries _ _ = ⊥

  -- Over any sequence of jobs, whatever the resolver's cache already holds, each job has one answer. A
  -- session gets the registered agent that routing names for its job, the identity that its own metadata
  -- give, and the providers of that agent, overridden by the entry of its own tenant alone. A job
  -- raises only where no agent is registered, with what its routing, its identity, the making of its
  -- turn detection, the lookup of the prewarmed VAD or the class of sessions raises on these providers,
  -- or where a session option repeats one of the call's own arguments. The registry is well formed, and the resolver, if any, is over a static map.
  pub build_sessions-AreOwn :
      (jobs : List (Setting × JobContext)) (resolver : Option (Resolver ProviderValue))
      → All IsEntry agents
      → IsStatic configs resolver
      → AreOwn
          (entry_of configs resolver)
          jobs
          (build_sessions agent_session loads repr agents jobs resolver).0
  unfolding build_sessions
  build_sessions-AreOwn [] resolver entries static = tt
  build_sessions-AreOwn ((at, ctx) ∷ jobs) resolver entries static =
      let (after, same) =
        build_session-IsStatic agent_session loads repr configs agents at ctx resolver static in
      let next = (build_session agent_session loads repr agents at ctx resolver).1 in
      let more =
        subst (λ f. AreOwn f jobs (build_sessions agent_session loads repr agents jobs next).0) same
          (build_sessions-AreOwn jobs next entries after) in
      elim (Outcome-cases (build_session agent_session loads repr agents at ctx resolver).0) [
        | inr (x, e) ↦ rw e (
          build_session-IsRefused agent_session loads repr configs agents at ctx resolver x static
              e,
          more,
        )
        | inl (b, e) ↦ rw e (
          build_session-IsOwn agent_session loads repr agents configs at ctx resolver b entries
              static e,
          more,
        )
      ]
