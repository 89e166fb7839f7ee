-- ===== src/Tests/Build.antt =====
-- Three jobs of two tenants on one agent, one of which has no turn detection, through a static map of providers, and a pipecat call.
use openrtc_python.Prelude.{
  false, arith, ◌+◌, ℕ, ◌≡◌, refl, true, Option, none, some, List, [], ◌∷◌, All, ◌⊎◌,
}
use openrtc_python.Prelude.Text.{Text, codes}
use openrtc_python.Prelude.Dict.{Dict, get}
use openrtc_python.Prelude.Outcome.{key_error, Exc, Outcome, ret, raise}
use openrtc_python.SessionView.{
  text, absent, str, mapping, JobContext, for_livekit, RunnerArguments, for_pipecat,
}
use openrtc_python.Validation.{is_name_char}
use openrtc_python.Observer.{SessionInfo, build_session_info}
use openrtc_python.Routing.{resolve_agent_config}
use openrtc_python.TenantConfig.{static, new_resolver, Providers, Resolver}
use openrtc_python.TenantConfig.Static.{new_resolver-IsFaithful}
use openrtc_python.Serialization.{ProviderValue, plain, null, AgentClass}
use openrtc_python.TurnHandling.{Any}
use openrtc_python.Registry.{AgentConfig}
use openrtc_python.Registry.Names.{IsEntry}
use openrtc_python.Build.{Setting, build_sessions}
use openrtc_python.Build.Cached.{entry_of}
use openrtc_python.Build.Tenants.{AreOwn, build_sessions-AreOwn}
use openrtc_python.Pipecat.Dispatch.{
  Builder, build_pipecat_session, build_call, build_call-resolve_agent_config,
}
use openrtc_python.Tests.Routing.{loads}

abbrev repr : ℕ → Text
repr n = []

abbrev sales_class : AgentClass
sales_class = record {
  cls_module = codes "app";
  cls_qualname = codes "Sales";
  source_file = ret none;
  is_agent_subclass = true;
}

abbrev sales : AgentConfig
sales = record {
  name = codes "sales";
  agent_cls = sales_class;
  stt = plain 1;
  llm = plain 2;
  tts = null;
  greeting = none;
  session_kwargs = [];
  source_path = none;
  agent_ref = record { module_name = codes "app"; qualname = codes "Sales"; module_path = none };
}

abbrev agents : Dict AgentConfig
agents = (codes "sales", sales) ∷ []

sales-IsEntry : All IsEntry agents
unfolding is_name_char
sales-IsEntry = (
  record {
    named = refl;
    token = record { some_char = refl; short = omega arith; charset = refl };
    agent = refl;
  },
  tt,
)

abbrev configs : Dict (Dict ProviderValue)
configs = (codes "acme", (codes "llm", plain 7) ∷ []) ∷ []

abbrev job : Text → JobContext
job tenant = record {
  job = some (record {
    id = str (codes "j");
    metadata = mapping ((codes "tenant", text tenant) ∷ []);
    room = none;
  });
  room = none;
}

abbrev setting : Setting
setting = record {
  now = 5;
  version = none;
  remote_eot_url = none;
  inference_executor = some true;
  detector = raise key_error;
  vad = ret 8;
  router = none;
}

abbrev session : Providers ProviderValue → ℕ → Dict Any → Outcome ℕ
session providers vad kwargs = ret 3

abbrev jobs : List (Setting × JobContext)
jobs =
    (setting, job (codes "acme"))
    ∷ (record setting { inference_executor = some false }, job (codes "acme"))
    ∷ (setting, job (codes "globex"))
    ∷ []

abbrev resolver : Option (Resolver ProviderValue)
resolver = some (new_resolver (static configs))

build_sessions-AreOwn_example :
    AreOwn session loads repr agents configs
      (entry_of configs resolver)
      jobs
      (build_sessions session loads repr agents jobs resolver).0
build_sessions-AreOwn_example =
    build_sessions-AreOwn session loads repr agents configs jobs resolver sales-IsEntry
      (new_resolver-IsFaithful configs)

-- A livekit job and a pipecat call with one view.
abbrev room_job : JobContext
room_job = record {
  job = some (record {
    id = str (codes "j");
    metadata = mapping ((codes "tenant", text (codes "acme")) ∷ []);
    room = none;
  });
  room = some (record { name = str (codes "sales-1"); metadata = absent });
}

abbrev call : RunnerArguments
call = record {
  room_url = absent;
  room_name = str (codes "sales-1");
  session_id = str (codes "j");
  body = mapping ((codes "tenant", text (codes "acme")) ∷ []);
}

abbrev builder : Builder ℕ ℕ
builder view prewarm = (ret 4, prewarm + 1)

abbrev builders : Dict (Builder ℕ ℕ)
builders = (codes "sales", builder) ∷ []

one_view : for_livekit room_job ≡ for_pipecat call
unfolding for_livekit for_pipecat
one_view = refl

build_call-resolve_agent_config_example :
    let job = resolve_agent_config loads agents room_job none in
    let built = build_call loads repr builders none 5 none call 0 in
    ((name : Text) × (c : AgentConfig) × (b : Builder ℕ ℕ) × (get name agents ≡ some c)
      × (get name builders ≡ some b)
      × (job ≡ ret c)
      × (((info : SessionInfo) × (build_session_info loads repr 5 name (for_livekit room_job) none
              ≡ ret info)
            × (built ≡ build_pipecat_session b (for_pipecat call) info 0))
          ⊎ ((e : Exc) × (build_session_info loads repr 5 name (for_livekit room_job) none
                ≡ raise e)
              × (built ≡ (raise e, 0)))))
    ⊎ ((e : Exc) × (job ≡ raise e) × (built ≡ (raise e, 0)))
build_call-resolve_agent_config_example =
    build_call-resolve_agent_config loads repr (codes "sales", sales) [] (codes "sales", builder) []
      none 5 none room_job call 0 refl one_view
