-- ===== src/Registry/State.antt =====
-- core/config.py: the state of an agent's config that is pickled for a spawn.
use openrtc_python.Prelude.{ℕ, Option}
use openrtc_python.Prelude.Text.{Text}
use openrtc_python.Prelude.Dict.{Dict}
use openrtc_python.Prelude.Outcome.{Outcome, ret, raise, ◌>>=◌}
use openrtc_python.TurnHandling.{Any}
use openrtc_python.Serialization.{
  ProviderValue, AgentClassRef, Python, serialize_provider_value, deserialize_provider_value,
  resolve_agent_class,
}
use openrtc_python.Registry.{AgentConfig}

-- `__getstate__`
pub record State : Type 0 where
  pub name : Text
  pub stt : ProviderValue
  pub llm : ProviderValue
  pub tts : ProviderValue
  pub greeting : Option Text
  pub session_kwargs : Dict Any
  pub agent_ref : AgentClassRef
  pub source_path : Option Text

unfoldable pub get_state : Python → AgentConfig → Outcome State
get_state py c = serialize_provider_value py c.stt >>= λ stt.
    serialize_provider_value py c.llm >>= λ llm. serialize_provider_value py c.tts >>= λ tts.
    ret (record {
      name = c.name;
      stt = stt;
      llm = llm;
      tts = tts;
      greeting = c.greeting;
      session_kwargs = c.session_kwargs;
      agent_ref = c.agent_ref;
      source_path = c.source_path;
    })

-- A step of `__setstate__`, in which modules are imported.
abbrev pub then_import :
    {A B : Type 0} → Outcome A × Dict ℕ → (A → Dict ℕ → Outcome B × Dict ℕ) → Outcome B × Dict ℕ
then_import (raise e, modules) more = (raise e, modules)
then_import (ret a, modules) more = more a modules

unfoldable pub set_state : Python → State → Dict ℕ → Outcome AgentConfig × Dict ℕ
set_state py s modules = then_import (deserialize_provider_value py s.stt modules) (λ stt m1.
    then_import (deserialize_provider_value py s.llm m1) (λ llm m2.
      then_import (deserialize_provider_value py s.tts m2) (λ tts m3.
        then_import (resolve_agent_class py s.agent_ref m3) (λ cls m4. (
          ret (record {
            name = s.name;
            agent_cls = py.class_of cls;
            stt = stt;
            llm = llm;
            tts = tts;
            greeting = s.greeting;
            session_kwargs = s.session_kwargs;
            source_path = s.source_path;
            agent_ref = s.agent_ref;
          }),
          m4,
        )))))
