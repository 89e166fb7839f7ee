-- ===== src/Serialization.antt =====
-- core/serialization.py and the module loader of core/discovery.py: the references to providers and
-- agent classes that survive a spawn. Modules, classes and other Python objects are numbers; paths
-- are resolved.
pub mod Loader
pub mod Providers
use openrtc_python.Prelude.{
  ◌++◌, ℕ, Bool, true, false, not, ◌&&◌, ◌||◌, ◌==◌, Option, none, some, List, [], ◌∷◌,
  if◌then◌else◌,
}
use openrtc_python.Prelude.Text.{Text, codes, text_eq, starts_with}
use openrtc_python.Prelude.Dict.{Dict, get, put, remove}
use openrtc_python.Prelude.Outcome.{
  Outcome, Exc, ret, raise, value_error, type_error, runtime_error, os_error, module_not_found,
  is_exception, ◌>>=◌,
}

-- The value of a provider option: what `isinstance(value, NotGiven)` says where `openai` is
-- installed, and its type's name and module.
pub record OptionValue : Type 0 where
  pub is_openai_not_given : Bool
  pub type_name : Text
  pub type_module : Text
  pub value : ℕ

pub record ProviderRef : Type 0 where
  pub module_name : Text
  pub qualname : Text
  pub kwargs : Dict OptionValue

-- A provider object: its class, and its `_opts`, which may be missing or `None`.
pub record Provider : Type 0 where
  pub cls_module : Text
  pub cls_qualname : Text
  pub opts : Option (Option (Dict OptionValue))
  pub object : ℕ

pub data ProviderValue : Type 0 where
  null : ProviderValue
  -- a `str`, `int`, `float` or `bool`
  plain : ℕ → ProviderValue
  ref : ProviderRef → ProviderValue
  provider : Provider → ProviderValue

unfoldable pub is_not_given : OptionValue → Bool
is_not_given v =
    v.is_openai_not_given
    || (text_eq v.type_name (codes "NotGiven")
        && (text_eq v.type_module (codes "openai._types")
            || starts_with v.type_module (codes "openai.")))

unfoldable pub filter_provider_kwargs : Dict OptionValue → Dict OptionValue
filter_provider_kwargs [] = []
filter_provider_kwargs ((key, v) ∷ options) =
    let rest = filter_provider_kwargs options in if is_not_given v then rest else (key, v) ∷ rest

unfoldable pub extract_provider_kwargs : Option (Option (Dict OptionValue)) → Dict OptionValue
unfolding filter_provider_kwargs
extract_provider_kwargs (some (some options)) = filter_provider_kwargs options
extract_provider_kwargs _ = []

abbrev pub has_opts : Option (Option (Dict OptionValue)) → Bool
has_opts none = false
has_opts (some _) = true

-- `key in _PROVIDER_REF_KEYS`
unfoldable pub is_provider_ref_key : Text → Text → Bool
is_provider_ref_key m q =
    (text_eq m (codes "livekit.plugins.openai.stt") && text_eq q (codes "STT"))
    || (text_eq m (codes "livekit.plugins.openai.tts") && text_eq q (codes "TTS"))
    || (text_eq m (codes "livekit.plugins.openai.responses.llm") && text_eq q (codes "LLM"))

abbrev pub provider_ref : Provider → ProviderRef
provider_ref p = record {
  module_name = p.cls_module;
  qualname = p.cls_qualname;
  kwargs = extract_provider_kwargs p.opts;
}

unfoldable pub try_build_provider_ref : Provider → Option ProviderRef
try_build_provider_ref p =
    if is_provider_ref_key p.cls_module p.cls_qualname
    then some (provider_ref p)
    else if starts_with p.cls_module (codes "livekit.plugins.") && has_opts p.opts
    then some (provider_ref p)
    else none

-- `qualname.split(".")`: the parts from here on, the first of them begun.
unfoldable pub split_dots : Text → Text → List Text
split_dots part [] = part ∷ []
split_dots part (c ∷ s) =
    let here = split_dots [] s in
    let on = split_dots (part ++ c ∷ []) s in if c == b'.' then part ∷ here else on

-- `p in s`
unfoldable pub occurs : Text → Text → Bool
occurs p [] = starts_with [] p
occurs p (c ∷ s) = starts_with (c ∷ s) p || occurs p s

-- A class: its module and qualified name, what `inspect.getsourcefile` gives, and whether it is a
-- class that derives from `Agent`.
pub record AgentClass : Type 0 where
  pub cls_module : Text
  pub cls_qualname : Text
  pub source_file : Outcome (Option Text)
  pub is_agent_subclass : Bool

pub record AgentClassRef : Type 0 where
  pub module_name : Text
  pub qualname : Text
  pub module_path : Option Text

-- `OSError` and `TypeError` count as no file.
unfoldable pub try_get_module_path : Outcome (Option Text) → Outcome (Option Text)
try_get_module_path (ret path) = ret path
try_get_module_path (raise os_error) = ret none
try_get_module_path (raise type_error) = ret none
try_get_module_path (raise e) = raise e

abbrev is_none : Option Text → Bool
is_none none = true
is_none (some _) = false

unfoldable pub build_agent_class_ref : AgentClass → Outcome AgentClassRef
unfolding try_get_module_path
build_agent_class_ref c =
    if occurs (codes "<locals>") c.cls_qualname
    then raise value_error
    else try_get_module_path c.source_file >>= λ path.
        if text_eq c.cls_module (codes "__main__") && is_none path
        then raise value_error
        else ret
            (record { module_name = c.cls_module; qualname = c.cls_qualname; module_path = path })

-- Python's import system, pickle and object model. `spec` gives the new module of an import spec
-- with a loader; `exec_module` runs its code, which may change what is loaded.
pub record Python : Type 0 where
  pub dumps : ProviderValue → Outcome (Unit {0})
  pub getattr : ℕ → Text → Outcome ℕ
  -- `Class(**kwargs)`, which may import modules
  pub call : ℕ → Dict OptionValue → Dict ℕ → Outcome ProviderValue × Dict ℕ
  pub class_of : ℕ → AgentClass
  -- the resolved `__file__`
  pub file_of : ℕ → Option Text
  pub import_module : Text → Dict ℕ → Outcome ℕ × Dict ℕ
  pub spec : Text → Text → Option ℕ
  pub exec_module : ℕ → Dict ℕ → Outcome (Unit {0}) × Dict ℕ

-- `existing_module` was loaded from this file.
abbrev pub is_loaded_from : Option Text → Text → Bool
is_loaded_from none path = false
is_loaded_from (some file) path = text_eq file path

module _ (py : Python) where
  open py use {dumps, getattr, call, class_of, file_of, import_module, spec, exec_module}

  probed : ProviderValue → Outcome (Unit {0}) → Outcome ProviderValue
  probed value (ret _) = ret value
  probed value (raise e) = if is_exception e then raise value_error else raise e

  unfoldable pub serialize_provider_value : ProviderValue → Outcome ProviderValue
  unfolding probed
  serialize_provider_value null = ret null
  serialize_provider_value (plain n) = ret (plain n)
  serialize_provider_value (ref r) = probed (ref r) (dumps (ref r))
  serialize_provider_value (provider p) = elim (try_build_provider_ref p) [
    | some r ↦ ret (ref r)
    | none ↦ probed (provider p) (dumps (provider p))
  ]

  unfoldable pub resolve_parts : List Text → ℕ → Outcome ℕ
  resolve_parts [] value = ret value
  resolve_parts (part ∷ parts) value = getattr value part >>= λ v. resolve_parts parts v

  unfoldable pub resolve_qualname : ℕ → Text → Outcome ℕ
  unfolding resolve_parts split_dots
  resolve_qualname module_ qualname = resolve_parts (split_dots [] qualname) module_

  imported : ProviderRef → Outcome ℕ × Dict ℕ → Outcome ProviderValue × Dict ℕ
  imported r (raise e, modules) = (raise e, modules)
  imported r (ret m, modules) = elim (resolve_qualname m r.qualname) [
    | raise e ↦ (raise e, modules)
    | ret cls ↦ call cls r.kwargs modules
  ]

  unfoldable pub deserialize_provider_value :
      ProviderValue → Dict ℕ → Outcome ProviderValue × Dict ℕ
  unfolding imported
  deserialize_provider_value (ref r) modules = imported r (import_module r.module_name modules)
  deserialize_provider_value value modules = (ret value, modules)

  ran : Text → ℕ → Outcome (Unit {0}) × Dict ℕ → Outcome ℕ × Dict ℕ
  ran module_name m (ret _, modules) = (ret m, modules)
  ran module_name m (raise e, modules) =
      if is_exception e then (raise e, remove module_name modules) else (raise e, modules)

  load_new : Text → Dict ℕ → Option ℕ → Outcome ℕ × Dict ℕ
  unfolding ran
  load_new module_name modules none = (raise runtime_error, modules)
  load_new module_name modules (some m) =
      ran module_name m (exec_module m (put module_name m modules))

  from_existing : Text → Text → Dict ℕ → Option ℕ → Outcome ℕ × Dict ℕ
  unfolding load_new
  from_existing module_name path modules none = load_new module_name modules (spec module_name path)
  from_existing module_name path modules (some existing) =
      let load = load_new module_name modules (spec module_name path) in
      if is_loaded_from (file_of existing) path then (ret existing, modules) else load

  unfoldable pub load_module_from_path : Text → Text → Dict ℕ → Outcome ℕ × Dict ℕ
  unfolding from_existing
  load_module_from_path module_name path modules =
      from_existing module_name path modules (get module_name modules)

  -- `ModuleNotFoundError` falls back on the file.
  or_from_path : Text → Option Text → Outcome ℕ × Dict ℕ → Outcome ℕ × Dict ℕ
  or_from_path module_name (some path) (raise module_not_found, modules) =
      load_module_from_path module_name path modules
  or_from_path module_name path result = result

  unfoldable pub module_of_ref : AgentClassRef → Option Text → Dict ℕ → Outcome ℕ × Dict ℕ
  unfolding or_from_path
  module_of_ref r none modules =
      or_from_path r.module_name none (import_module r.module_name modules)
  module_of_ref r (some path) modules =
      let other = or_from_path r.module_name (some path) (import_module r.module_name modules) in
      if starts_with r.module_name (codes "openrtc_discovered_")
      then load_module_from_path r.module_name path modules
      else other

  class_in : Text → Outcome ℕ × Dict ℕ → Outcome ℕ × Dict ℕ
  class_in qualname (raise e, modules) = (raise e, modules)
  class_in qualname (ret m, modules) = (
    (resolve_qualname m qualname >>= λ cls.
        if (class_of cls).is_agent_subclass then ret cls else raise type_error),
    modules,
  )

  unfoldable pub resolve_agent_class : AgentClassRef → Dict ℕ → Outcome ℕ × Dict ℕ
  unfolding class_in module_of_ref
  resolve_agent_class r modules = class_in r.qualname (module_of_ref r r.module_path modules)
