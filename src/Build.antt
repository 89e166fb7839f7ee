-- ===== src/Build.antt =====
-- core/wiring.py, `build_session`: what becomes one session, from the registered agents, the routing,
-- the session's identity, its tenant's providers and its session options. The `AgentSession` class is
-- a parameter, and what the assets of the prewarm give, or raise, is data of the job.
pub mod Cached
pub mod Own
pub mod Refused
pub mod Tenants
use openrtc_python.Prelude.{
  ℕ, Bool, true, false, ◌||◌, Option, none, some, List, [], ◌∷◌, if◌then◌else◌,
}
use openrtc_python.Prelude.Text.{Text, codes, contains}
use openrtc_python.Prelude.Dict.{Dict, keys}
use openrtc_python.Prelude.Outcome.{Outcome, ret, raise, runtime_error, type_error, ◌>>=◌}
use openrtc_python.SessionView.{JobContext, for_livekit}
use openrtc_python.Routing.{Loads, Router, resolve_agent_config}
use openrtc_python.Observer.{SessionInfo, build_session_info}
use openrtc_python.TenantConfig
use openrtc_python.TenantConfig.{Resolver, Providers, resolve_tenant_providers}
use openrtc_python.Serialization.{ProviderValue}
use openrtc_python.TurnHandling.{Any, default_turn_detection, build_session_kwargs}
use openrtc_python.Registry.{AgentConfig}

-- `config.stt, config.llm, config.tts`
abbrev pub agent_providers : AgentConfig → Providers ProviderValue
agent_providers c = record { stt = some c.stt; llm = some c.llm; tts = some c.tts }

-- The keyword arguments that the call gives besides `**session_kwargs`; a second one of the same name
-- is a `TypeError`.
abbrev pub own_arguments : List Text
own_arguments = codes "stt" ∷ codes "llm" ∷ codes "tts" ∷ codes "vad" ∷ []

unfoldable pub repeats_own : List Text → Bool
repeats_own [] = false
repeats_own (k ∷ ks) = contains k own_arguments || repeats_own ks

-- What the providers of a session without and with a tenant resolver are.
unfoldable pub tenant_config :
    Text
    → Option (Resolver ProviderValue)
    → Option (Dict ProviderValue) × Option (Resolver ProviderValue)
tenant_config tenant none = (none, none)
tenant_config tenant (some r) =
    let (config, after) = TenantConfig.resolve tenant r in (config, some after)

-- The moment of the start, what the worker knows of itself and of its turn detection.
pub record Setting : Type 0 where
  pub now : ℕ
  pub version : Option Text
  pub remote_eot_url : Option Text
  -- the job's inference executor, if any, by whether it is the stub
  pub inference_executor : Option Bool
  -- the prewarmed factory, looked up and called
  pub detector : Outcome Any
  -- the prewarmed VAD, looked up
  pub vad : Outcome ℕ
  pub router : Option Router

-- `_build_session_kwargs` on the job: the default turn detection is made first, and may raise.
unfoldable pub session_kwargs_of : Setting → AgentConfig → Outcome (Dict Any)
session_kwargs_of at c = do
  detection ← default_turn_detection at.remote_eot_url at.inference_executor at.detector
  ret (build_session_kwargs c.session_kwargs detection)

pub record Built (S : Type 0) : Type 0 where
  pub session : S
  pub config : AgentConfig
  pub info : SessionInfo
  pub providers : Providers ProviderValue

module _ {S : Type 0} (agent_session : Providers ProviderValue → ℕ → Dict Any → Outcome S) where
  -- The call of `AgentSession`: its own arguments are evaluated before the others are added to them.
  unfoldable pub construct :
      AgentConfig
      → SessionInfo
      → Providers ProviderValue
      → Outcome ℕ
      → Outcome (Dict Any)
      → Outcome (Built S)
  construct c info providers prewarmed_vad session_kwargs = do
    kwargs ← session_kwargs
    vad ← prewarmed_vad
    session ←
        if repeats_own (keys kwargs) then raise type_error else agent_session providers vad kwargs
    ret (record { session = session; config = c; info = info; providers = providers })

  module _ (loads : Loads) (repr : ℕ → Text) where
    -- From the session's info on.
    unfoldable pub with_info :
        Setting
        → AgentConfig
        → Outcome SessionInfo
        → Option (Resolver ProviderValue)
        → Outcome (Built S) × Option (Resolver ProviderValue)
    with_info at c (raise e) resolver = (raise e, resolver)
    with_info at c (ret info) resolver =
        let (config, after) = tenant_config info.tenant resolver in
        (
          construct c info (resolve_tenant_providers (agent_providers c) config) at.vad
              (session_kwargs_of at c),
          after,
        )

    -- From the agent's config on.
    unfoldable pub with_config :
        Setting
        → JobContext
        → Outcome AgentConfig
        → Option (Resolver ProviderValue)
        → Outcome (Built S) × Option (Resolver ProviderValue)
    with_config at ctx (raise e) resolver = (raise e, resolver)
    with_config at ctx (ret c) resolver =
        with_info at c (build_session_info loads repr at.now c.name (for_livekit ctx) at.version)
          resolver

    -- The session of one job, and the resolver with its cache after it.
    unfoldable pub build_session :
        Dict AgentConfig
        → Setting
        → JobContext
        → Option (Resolver ProviderValue)
        → Outcome (Built S) × Option (Resolver ProviderValue)
    build_session [] at ctx resolver = (raise runtime_error, resolver)
    build_session (entry ∷ more) at ctx resolver =
        with_config at ctx (resolve_agent_config loads (entry ∷ more) ctx at.router) resolver

    -- The sessions of one job after the other.
    unfoldable pub build_sessions :
        Dict AgentConfig
        → List (Setting × JobContext)
        → Option (Resolver ProviderValue)
        → List (Outcome (Built S)) × Option (Resolver ProviderValue)
    build_sessions agents [] resolver = ([], resolver)
    build_sessions agents ((at, ctx) ∷ jobs) resolver =
        let (built, after) = build_session agents at ctx resolver in
        let (more, last) = build_sessions agents jobs after in (built ∷ more, last)
