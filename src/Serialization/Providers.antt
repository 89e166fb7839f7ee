-- ===== src/Serialization/Providers.antt =====
-- Providers through a spawn: what stands for each, and what is made of it in the new process.
use openrtc_python.Prelude.{
  ◌++◌, ◌≡◌, refl, ap, ◌∙◌, ℕ, Bool, true, false, ◌&&◌, ◌||◌, Option, none, some, [], ◌∷◌, arith,
  if◌then◌else◌, Bool-cases, ◌⊎◌, inl, inr,
}
use openrtc_python.Prelude.Text.{codes, starts_with, Text}
use openrtc_python.Prelude.Dict.{Dict}
use openrtc_python.Prelude.Outcome.{Exc, Outcome, ret, raise, is_ret, value_error, is_exception}
use openrtc_python.Serialization.{
  has_opts, is_provider_ref_key, OptionValue, ProviderRef, Provider, ProviderValue, null, plain,
  ref, provider, is_not_given, filter_provider_kwargs, extract_provider_kwargs, provider_ref,
  try_build_provider_ref, Python, probed, serialize_provider_value, resolve_qualname, imported,
  deserialize_provider_value,
}

-- The process that is spawned makes the provider anew: it is of one of the known classes, or of a
-- livekit plugin and has options.
abbrev pub is_remade : Provider → Bool
is_remade p =
    is_provider_ref_key p.cls_module p.cls_qualname
    || (starts_with p.cls_module (codes "livekit.plugins.") && has_opts p.opts)

-- A value can go into the spawned process: it is made anew there, or pickled.
abbrev pub is_spawn_safe : Python → ProviderValue → Bool
is_spawn_safe py null = true
is_spawn_safe py (plain n) = true
is_spawn_safe py (ref r) = is_ret (py.dumps (ref r))
is_spawn_safe py (provider p) = is_remade p || is_ret (py.dumps (provider p))

-- The options that have a value, in order.
unfoldable pub given_options : Dict OptionValue → Dict OptionValue
given_options [] = []
given_options (option ∷ more) =
    (if is_not_given option.1 then [] else option ∷ []) ++ given_options more

-- What the constructor was given, as far as the object shows it.
abbrev pub given : Option (Option (Dict OptionValue)) → Dict OptionValue
given none = []
given (some none) = []
given (some (some options)) = given_options options

extract_provider_kwargs-given :
    (opts : Option (Option (Dict OptionValue))) → extract_provider_kwargs opts ≡ given opts
unfolding extract_provider_kwargs given_options
extract_provider_kwargs-given none = refl
extract_provider_kwargs-given (some none) = refl
extract_provider_kwargs-given (some (some options)) = go options
  where
    go : (options : Dict OptionValue) → filter_provider_kwargs options ≡ given_options options
    go [] = refl
    go ((k, v) ∷ more) = elim (Bool-cases (is_not_given v)) [
      | inl unset ↦ rw unset (go more)
      | inr set ↦ rw set (ap (◌∷◌ (k, v)) (go more))
    ]

-- `Class(**kwargs)`, with the class found by its name in the module.
abbrev class_call :
    Python → Text → Dict OptionValue → Outcome ℕ × Dict ℕ → Outcome ProviderValue × Dict ℕ
class_call py q kwargs (raise e, modules) = (raise e, modules)
class_call py q kwargs (ret m, modules) = elim (resolve_qualname py m q) [
  | raise e ↦ (raise e, modules)
  | ret cls ↦ py.call cls kwargs modules
]

-- What becomes of a value in the spawned process: a provider that is made anew is what its own class
-- makes of the options that it was given, and every other value is itself.
unfoldable pub respawned : Python → ProviderValue → Dict ℕ → Outcome ProviderValue × Dict ℕ
respawned py null modules = (ret null, modules)
respawned py (plain n) modules = (ret (plain n), modules)
respawned py (ref r) modules =
    class_call py r.qualname r.kwargs (py.import_module r.module_name modules)
respawned py (provider p) modules =
    if is_remade p
    then class_call py p.cls_qualname (given p.opts) (py.import_module p.cls_module modules)
    else (ret (provider p), modules)

deserialize_provider_value-ref :
    (py : Python) (r : ProviderRef) (modules : Dict ℕ)
    → deserialize_provider_value py (ref r) modules
      ≡ class_call py r.qualname r.kwargs (py.import_module r.module_name modules)
unfolding deserialize_provider_value imported
deserialize_provider_value-ref py r modules = go (py.import_module r.module_name modules)
  where
    go : (o : Outcome ℕ × Dict ℕ) → imported py r o ≡ class_call py r.qualname r.kwargs o
    go (raise e, after) = refl
    go (ret m, after) = refl

-- A value is serialized to what stands for it in the new process, or it is not spawn-safe.
abbrev pub Crosses : Python → ProviderValue → Type 0
Crosses py v =
    ((s : ProviderValue) × (serialize_provider_value py v ≡ ret s)
      × (is_spawn_safe py v ≡ true)
      × ((modules : Dict ℕ) → deserialize_provider_value py s modules ≡ respawned py v modules))
    ⊎ ((e : Exc) × (serialize_provider_value py v ≡ raise e) × (is_spawn_safe py v ≡ false))

try_build_provider_ref-is_remade :
    (p : Provider)
    → try_build_provider_ref p ≡ (if is_remade p then some (provider_ref p) else none)
unfolding try_build_provider_ref
try_build_provider_ref-is_remade p = ground arith

-- The probe of a value that is pickled.
probed-Crosses :
    (py : Python) (v : ProviderValue) (o : Outcome (Unit {0}))
    → serialize_provider_value py v ≡ probed py v o
    → is_spawn_safe py v ≡ is_ret o
    → ((modules : Dict ℕ) → deserialize_provider_value py v modules ≡ respawned py v modules)
    → Crosses py v
unfolding probed
probed-Crosses py v (ret _) h k same = inl (v, h, k, same)
probed-Crosses py v (raise e) h k same = elim (Bool-cases (is_exception e)) [
  | inl caught ↦ inr (value_error, (h ∙ rw caught refl), k)
  | inr through ↦ inr (e, (h ∙ rw through refl), k)
]

pub serialize_provider_value-Crosses : (py : Python) (v : ProviderValue) → Crosses py v
unfolding serialize_provider_value deserialize_provider_value respawned
serialize_provider_value-Crosses py null = inl (null, refl, refl, λ m. refl)
serialize_provider_value-Crosses py (plain n) = inl (plain n, refl, refl, λ m. refl)
serialize_provider_value-Crosses py (ref r) =
    probed-Crosses py (ref r) (py.dumps (ref r)) refl refl (deserialize_provider_value-ref py r)
serialize_provider_value-Crosses py (provider p) = elim (Bool-cases (is_remade p)) [
  | inl remade ↦
      let built : try_build_provider_ref p ≡ some (provider_ref p) =
        try_build_provider_ref-is_remade p ∙ rw remade refl in
      inl (
        ref (provider_ref p),
        rw (serialize_provider_value, built) refl,
        rw remade refl,
        λ m.
            deserialize_provider_value-ref py (provider_ref p) m
            ∙ ap (λ kwargs. class_call py p.cls_qualname kwargs (py.import_module p.cls_module m))
                (extract_provider_kwargs-given p.opts)
            ∙ rw remade refl,
      )
  | inr kept ↦
      let unbuilt : try_build_provider_ref p ≡ none =
        try_build_provider_ref-is_remade p ∙ rw kept refl in
      probed-Crosses py (provider p) (py.dumps (provider p))
        (rw (serialize_provider_value, unbuilt) refl) (rw kept refl) (λ m. rw kept refl)
]
