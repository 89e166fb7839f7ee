-- ===== src/TenantConfig.antt =====
-- core/tenant_config.py: the per-tenant provider config, and its cache. The source is a mapping or a
-- callable; a callable may answer differently at each call, so it reads the number of the call.
pub mod Cache
pub mod Static
use openrtc_python.Prelude.{length, ℕ, suc, ◌+◌, Option, none, some, List, [], ◌∷◌, ◌++◌, length}
use openrtc_python.Prelude.Text.{Text, codes}
use openrtc_python.Prelude.Dict.{Dict, get, put}

pub data Source (Provider : Type 0) : Type 0 where
  static : Dict (Dict Provider) → Source Provider
  callable : (ℕ → Text → Option (Dict Provider)) → Source Provider

pub record Resolver (Provider : Type 0) : Type 0 where
  pub source : Source Provider
  pub cache : Dict (Option (Dict Provider))
  -- the tenants that the source was asked for, and those that a warning was logged for
  pub asked : List Text
  pub warned : List Text

pub record Providers (Provider : Type 0) : Type 0 where
  pub stt : Option Provider
  pub llm : Option Provider
  pub tts : Option Provider

unfoldable pub new_resolver : {Provider : Type 0} → Source Provider → Resolver Provider
new_resolver source = record { source = source; cache = []; asked = []; warned = [] }

module _ {Provider : Type 0} where
  unfoldable pub lookup : Source Provider → ℕ → Text → Option (Dict Provider)
  lookup (static configs) n tenant = get tenant configs
  lookup (callable f) n tenant = f n tenant

  abbrev warn_if_missing : Option (Dict Provider) → Text → List Text → List Text
  warn_if_missing none tenant warned = warned ++ tenant ∷ []
  warn_if_missing (some c) tenant warned = warned

  miss : Text → Resolver Provider → Option (Dict Provider) × Resolver Provider
  miss tenant r =
      let config = lookup r.source (length r.asked) tenant in
      (
        config,
        record r {
          cache = put tenant config r.cache;
          asked = r.asked ++ tenant ∷ [];
          warned = warn_if_missing config tenant r.warned;
        },
      )

  unfoldable pub resolve : Text → Resolver Provider → Option (Dict Provider) × Resolver Provider
  unfolding miss
  resolve tenant r = elim (get tenant r.cache) [ some config ↦ (config, r) | none ↦ miss tenant r ]

  -- `tenant_config.get(key, default)`
  override : Text → Option Provider → Dict Provider → Option Provider
  override key default config = elim (get key config) [ none ↦ default | some p ↦ some p ]

  unfoldable pub resolve_tenant_providers :
      Providers Provider → Option (Dict Provider) → Providers Provider
  unfolding override
  resolve_tenant_providers agent none = agent
  resolve_tenant_providers agent (some config) = record {
    stt = override (codes "stt") agent.stt config;
    llm = override (codes "llm") agent.llm config;
    tts = override (codes "tts") agent.tts config;
  }
