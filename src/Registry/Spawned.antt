-- ===== src/Registry/Spawned.antt =====
-- An agent's config through the spawn of a worker process: `__getstate__` and `__setstate__`.
use mathlib.Core.Path.{fun_ext}
use openrtc_python.Prelude.{◌≡◌, refl, ℕ, Bool, true, false, ◌&&◌, ◌⊎◌, inl, inr}
use openrtc_python.Prelude.Dict.{Dict}
use openrtc_python.Prelude.Outcome.{Exc, Outcome, ret, raise}
use openrtc_python.Serialization.{ProviderValue, Python, resolve_agent_class}
use openrtc_python.Serialization.Providers.{
  is_spawn_safe, respawned, serialize_provider_value-Crosses,
}
use openrtc_python.Registry.{AgentConfig}
use openrtc_python.Registry.State.{State, then_import, get_state, set_state}

-- All three providers can go into the spawned process.
abbrev pub are_spawn_safe : Python → AgentConfig → Bool
are_spawn_safe py c = is_spawn_safe py c.stt && (is_spawn_safe py c.llm && is_spawn_safe py c.tts)

-- The config that the spawned process makes of a config, from what becomes of each provider there:
-- the providers in their order, then the agent's class; the first exception ends it.
abbrev with_providers :
    Python
    → AgentConfig
    → (Dict ℕ → Outcome ProviderValue × Dict ℕ)
    → (Dict ℕ → Outcome ProviderValue × Dict ℕ)
    → (Dict ℕ → Outcome ProviderValue × Dict ℕ)
    → Dict ℕ
    → Outcome AgentConfig × Dict ℕ
with_providers py c stt_of llm_of tts_of modules = then_import (stt_of modules) (λ stt m1.
    then_import (llm_of m1) (λ llm m2. then_import (tts_of m2) (λ tts m3.
      then_import (resolve_agent_class py c.agent_ref m3) (λ cls m4.
        (ret (record c { agent_cls = py.class_of cls; stt = stt; llm = llm; tts = tts }), m4)))))

unfoldable pub respawned_config : Python → AgentConfig → Dict ℕ → Outcome AgentConfig × Dict ℕ
respawned_config py c =
    with_providers py c (respawned py c.stt) (respawned py c.llm) (respawned py c.tts)

-- `__getstate__` returns exactly where the three providers are spawn-safe, and else raises.
-- `__setstate__` on the state that it returned gives the config itself, with the class of the agent as
-- the new process finds it, and with each provider of a known class or of a livekit plugin made anew,
-- by a call of its own class with the options that it was given: in the order stt, llm, tts, and the
-- agent's class last. The first exception on the way is the result.
pub set_state-get_state :
    (py : Python) (c : AgentConfig) (modules : Dict ℕ)
    → ((s : State) × (get_state py c ≡ ret s)
        × (are_spawn_safe py c ≡ true)
        × (set_state py s modules ≡ respawned_config py c modules))
      ⊎ ((e : Exc) × (get_state py c ≡ raise e) × (are_spawn_safe py c ≡ false))
unfolding get_state set_state respawned_config
set_state-get_state py c modules = elim (serialize_provider_value-Crosses py c.stt) [
  | inr (e, failed, unsafe) ↦ inr (e, rw failed refl, rw unsafe refl)
  | inl (stt, s1, k1, d1) ↦ elim (serialize_provider_value-Crosses py c.llm) [
    | inr (e, failed, unsafe) ↦ inr (e, rw (s1, failed) refl, rw (k1, unsafe) refl)
    | inl (llm, s2, k2, d2) ↦ elim (serialize_provider_value-Crosses py c.tts) [
      | inr (e, failed, unsafe) ↦ inr (e, rw (s1, s2, failed) refl, rw (k1, k2, unsafe) refl)
      | inl (tts, s3, k3, d3) ↦ inl (
        record {
          name = c.name;
          stt = stt;
          llm = llm;
          tts = tts;
          greeting = c.greeting;
          session_kwargs = c.session_kwargs;
          agent_ref = c.agent_ref;
          source_path = c.source_path;
        },
        rw (s1, s2, s3) refl,
        rw (k1, k2, k3) refl,
        λ i. with_providers py c (fun_ext d1 i) (fun_ext d2 i) (fun_ext d3 i) modules,
      )
    ]
  ]
]
