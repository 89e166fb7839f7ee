-- ===== src/TurnHandling.antt =====
-- core/turn_handling.py: the `turn_handling` block of a session, from the explicit one, the
-- deprecated options and the defaults.
pub mod Lookup
pub mod Built
use openrtc_python.Prelude.{
  ℕ, Bool, true, false, not, Option, none, some, List, [], ◌∷◌, ◌++◌, if◌then◌else◌,
}
use openrtc_python.Prelude.Text.{Text, codes, is_empty}
use openrtc_python.Prelude.Dict.{Dict, get, put, remove, update}
use openrtc_python.Prelude.Outcome.{Outcome, ret}

mutual
  -- A Python value: `None`, a `bool`, a `str`, a mapping, or any other object, by its identity.
  pub data Any : Type 0 where
    null : Any
    boolean : Bool → Any
    str : Text → Any
    object : ℕ → Any
    mapping : Entries → Any

  pub data Entries : Type 0 where
    nil : Entries
    entry : Text → Any → Entries → Entries

abbrev pub items : Entries → Dict Any
items nil = []
items (entry k v e) = (k, v) ∷ items e

abbrev pub of_items : Dict Any → Entries
of_items [] = nil
of_items ((k, v) ∷ d) = entry k v (of_items d)

abbrev pub deprecated_keys : List Text
deprecated_keys =
    codes "min_endpointing_delay"
    ∷ codes "max_endpointing_delay"
    ∷ codes "false_interruption_timeout"
    ∷ codes "turn_detection"
    ∷ codes "discard_audio_if_uninterruptible"
    ∷ codes "min_interruption_duration"
    ∷ codes "min_interruption_words"
    ∷ codes "allow_interruptions"
    ∷ codes "resume_false_interruption"
    ∷ codes "agent_false_interruption_timeout"
    ∷ []

-- The loop of `_extract_deprecated_turn_options`: the options that were there, and what is left.
unfoldable pub extract_options : List Text → Dict Any → Dict Any × Dict Any
extract_options [] kwargs = ([], kwargs)
extract_options (key ∷ more) kwargs = elim (get key kwargs) [
  | none ↦ extract_options more kwargs
  | some v ↦
      let (options, left) = extract_options more (remove key kwargs) in ((key, v) ∷ options, left)
]

-- `if source in options: target[name] = options[source]`
unfoldable pub copy_option : Text → Text → Dict Any → Dict Any → Dict Any
copy_option source name options target = elim (get source options) [
  | none ↦ target
  | some v ↦ put name v target
]

-- `options.get("allow_interruptions") is False`
unfoldable pub forbids : Option Any → Bool
forbids (some (boolean false)) = true
forbids _ = false

abbrev pub is_nil : Dict Any → Bool
is_nil [] = true
is_nil (_ ∷ _) = false

-- `if block: turn_handling[name] = block`
unfoldable pub put_block : Text → Dict Any → Dict Any → Dict Any
put_block name block target =
    if is_nil block then target else put name (mapping (of_items block)) target

unfoldable pub endpointing_of : Dict Any → Dict Any
unfolding copy_option
endpointing_of options =
    copy_option (codes "max_endpointing_delay") (codes "max_delay") options
      (copy_option (codes "min_endpointing_delay") (codes "min_delay") options [])

unfoldable pub interruption_of : Dict Any → Dict Any
unfolding copy_option forbids
interruption_of options =
    copy_option (codes "resume_false_interruption") (codes "resume_false_interruption") options (
      copy_option (codes "agent_false_interruption_timeout") (codes "false_interruption_timeout")
        options
        (copy_option (codes "false_interruption_timeout") (codes "false_interruption_timeout")
          options
          (copy_option (codes "min_interruption_words") (codes "min_words") options (
            copy_option (codes "min_interruption_duration") (codes "min_duration") options (
              copy_option (codes "discard_audio_if_uninterruptible")
                (codes "discard_audio_if_uninterruptible") options
                (if forbids (get (codes "allow_interruptions") options)
                  then (codes "enabled", boolean false) ∷ []
                  else []))))))

unfoldable pub deprecated_turn_handling : Dict Any → Dict Any
unfolding put_block endpointing_of interruption_of copy_option
deprecated_turn_handling options =
    copy_option (codes "turn_detection") (codes "turn_detection") options (
      put_block (codes "interruption") (interruption_of options)
        (put_block (codes "endpointing") (endpointing_of options) []))

-- One key of an override: two mappings are merged, and else the new value counts.
unfoldable pub merge_value : Option Any → Any → Any
merge_value (some (mapping old)) (mapping new) = mapping (of_items (update (items old) (items new)))
merge_value _ value = value

unfoldable pub merge_turn_handling : Dict Any → Dict Any → Dict Any
unfolding merge_value
merge_turn_handling merged [] = merged
merge_turn_handling merged ((key, value) ∷ override) =
    merge_turn_handling (put key (merge_value (get key merged) value) merged) override

-- An inference executor, if any, has the mark of the coroutine stub or not.
unfoldable pub is_usable_inference_executor : Option Bool → Bool
is_usable_inference_executor none = false
is_usable_inference_executor (some openrtc_noop) = not openrtc_noop

-- The environment variable, unset or set, and the executor.
unfoldable pub supports_multilingual : Option Text → Option Bool → Bool
unfolding is_usable_inference_executor
supports_multilingual none executor = is_usable_inference_executor executor
supports_multilingual (some remote_url) executor =
    if is_empty remote_url then is_usable_inference_executor executor else true

-- The last argument is what looking up the prewarmed factory and calling it gives.
unfoldable pub default_turn_detection : Option Text → Option Bool → Outcome Any → Outcome Any
unfolding supports_multilingual
default_turn_detection remote_url executor detector =
    if supports_multilingual remote_url executor then detector else ret (str (codes "vad"))

abbrev pub vad_mode : Entries
vad_mode = entry (codes "mode") (str (codes "vad")) nil

unfoldable pub default_turn_handling : Any → Dict Any
default_turn_handling null = (codes "interruption", mapping vad_mode) ∷ []
default_turn_handling detection =
    (codes "interruption", mapping vad_mode) ∷ (codes "turn_detection", detection) ∷ []

-- What `session_kwargs["turn_handling"]` becomes, from the explicit value, the deprecated options
-- and the defaults.
unfoldable pub chosen_turn_handling : Option Any → Dict Any → Dict Any → Any
unfolding deprecated_turn_handling
chosen_turn_handling none options defaults = mapping (
    of_items (
      if is_nil options
      then defaults
      else merge_turn_handling defaults (deprecated_turn_handling options)))
chosen_turn_handling (some null) options defaults = mapping (
    of_items (
      if is_nil options
      then defaults
      else merge_turn_handling defaults (deprecated_turn_handling options)))
chosen_turn_handling (some (mapping explicit)) options defaults =
    mapping (of_items (merge_turn_handling defaults (items explicit)))
chosen_turn_handling (some value) options defaults = value

abbrev pub turn_handling_key : Text
turn_handling_key = codes "turn_handling"

unfoldable pub build_session_kwargs : Dict Any → Any → Dict Any
unfolding chosen_turn_handling extract_options
build_session_kwargs configured detection =
    let (options, left) = extract_options deprecated_keys (remove turn_handling_key configured) in
    put turn_handling_key
      (chosen_turn_handling (get turn_handling_key configured) options
        (default_turn_handling detection))
      left
