-- ===== src/TurnHandling/Built.antt =====
-- `_build_session_kwargs`: which keyword arguments reach the session.
use openrtc_python.Prelude.{
  ℕ_discrete, ◌≡◌, refl, ap, ◌∙◌, Bool, true, false, Option, none, some, List, [], ◌∷◌,
  if◌then◌else◌, arith, Bool-cases, inl, inr,
}
use openrtc_python.Prelude.Text.{Text-discrete, Text, codes, text_eq, contains}
use openrtc_python.Prelude.Dict.{get-put_self, Dict, get, remove, get-put, get-remove}
use openrtc_python.TurnHandling.{
  Any, boolean, mapping, items, of_items, deprecated_keys, extract_options, copy_option, forbids,
  put_block, endpointing_of, interruption_of, deprecated_turn_handling, default_turn_handling,
  chosen_turn_handling, turn_handling_key, build_session_kwargs,
}
use openrtc_python.TurnHandling.Lookup.{
  get-copy_options, copy_options, from_table, items-of_items, get-copy_option, get-extract_options,
}

-- No deprecated option reaches the session, and every other argument but `turn_handling` reaches it
-- as it was configured.
pub build_session_kwargs-get :
    (configured : Dict Any) (detection : Any) (k : Text)
    → text_eq turn_handling_key k ≡ false
    → get k (build_session_kwargs configured detection)
      ≡ (if contains k deprecated_keys then none else get k configured)
unfolding build_session_kwargs
build_session_kwargs-get configured detection k other =
    let (options, left) = extract_options deprecated_keys (remove turn_handling_key configured) in
    let value =
      chosen_turn_handling (get turn_handling_key configured) options
        (default_turn_handling detection) in
    ground (
      arith,
      other,
      get-put turn_handling_key k value left,
      get-extract_options k deprecated_keys (remove turn_handling_key configured),
      get-remove turn_handling_key k configured,
    )

built : Dict Any → Any → Any
built configured detection =
    let (options, left) = extract_options deprecated_keys (remove turn_handling_key configured) in
    chosen_turn_handling (get turn_handling_key configured) options
      (default_turn_handling detection)

-- What block `name` of a turn handling says of `key`.
abbrev inner : Text → Option Any → Option Any
inner key (some (mapping m)) = get key (items m)
inner key _ = none

abbrev pub setting : Text → Text → Option Any → Option Any
setting name key (some (mapping m)) = inner key (get name (items m))
setting name key _ = none

-- The options of the interruption block, in the order in which they are copied.
abbrev pub interruption_table : List (Text × Text)
interruption_table =
    (codes "discard_audio_if_uninterruptible", codes "discard_audio_if_uninterruptible")
    ∷ (codes "min_interruption_duration", codes "min_duration")
    ∷ (codes "min_interruption_words", codes "min_words")
    ∷ (codes "false_interruption_timeout", codes "false_interruption_timeout")
    ∷ (codes "agent_false_interruption_timeout", codes "false_interruption_timeout")
    ∷ (codes "resume_false_interruption", codes "resume_false_interruption")
    ∷ []

abbrev pub enabled_block : Bool → Dict Any
enabled_block true = (codes "enabled", boolean false) ∷ []
enabled_block false = []

interruption_of-table :
    (options : Dict Any)
    → interruption_of options
      ≡ copy_options interruption_table options
          (enabled_block (forbids (get (codes "allow_interruptions") options)))
unfolding interruption_of
interruption_of-table options =
    elim (Bool-cases (forbids (get (codes "allow_interruptions") options))) [
      | inl off ↦ rw off refl
      | inr on ↦ rw on refl
    ]

abbrev pub endpointing_table : List (Text × Text)
endpointing_table =
    (codes "min_endpointing_delay", codes "min_delay")
    ∷ (codes "max_endpointing_delay", codes "max_delay")
    ∷ []

endpointing_of-table :
    (options : Dict Any) → endpointing_of options ≡ copy_options endpointing_table options []
unfolding endpointing_of
endpointing_of-table options = refl

differ :
    (text_eq (codes "turn_detection") (codes "interruption") ≡ false)
    × (text_eq (codes "turn_detection") (codes "endpointing") ≡ false)
    × (text_eq (codes "interruption") (codes "endpointing") ≡ false)
    × (text_eq (codes "endpointing") (codes "interruption") ≡ false)
unfolding Text-discrete ℕ_discrete
differ = (refl, refl, refl, refl)

setting-put_block :
    (name k : Text) (block target : Dict Any)
    → get name target ≡ none
    → inner k (get name (put_block name block target)) ≡ get k block
unfolding put_block get
setting-put_block name k [] target e = rw e refl
setting-put_block name k (b ∷ block) target e =
    ap (inner k) (get-put_self name (mapping (of_items (b ∷ block))) target)
    ∙ ap (get k) (items-of_items (b ∷ block))

get-put_block_ne :
    (name other : Text) (block target : Dict Any)
    → text_eq name other ≡ false
    → get other (put_block name block target) ≡ get other target
unfolding put_block
get-put_block_ne name other [] target e = refl
get-put_block_ne name other (b ∷ block) target e =
    ground (arith, e, get-put name other (mapping (of_items (b ∷ block))) target)

setting-of_items :
    (name k : Text) (d : Dict Any)
    → setting name k (some (mapping (of_items d))) ≡ inner k (get name d)
setting-of_items name k d = ap (λ e. inner k (get name e)) (items-of_items d)

-- The deprecated options are translated by these tables: each key of the two blocks has the value of
-- the option that is copied to it last, `agent_false_interruption_timeout` before
-- `false_interruption_timeout`, and `enabled` is there, and false, exactly if `allow_interruptions`
-- is `False`.
pub deprecated_turn_handling-setting :
    (options : Dict Any) (k : Text)
    → let blocks = some (mapping (of_items (deprecated_turn_handling options))) in
      (setting (codes "endpointing") k blocks ≡ from_table k endpointing_table options none)
      × (setting (codes "interruption") k blocks
          ≡ from_table k interruption_table options
              (get k (enabled_block (forbids (get (codes "allow_interruptions") options)))))
unfolding deprecated_turn_handling get
deprecated_turn_handling-setting options k =
    let endpointing = put_block (codes "endpointing") (endpointing_of options) [] in
    let blocks = put_block (codes "interruption") (interruption_of options) endpointing in
    let detection = codes "turn_detection" in
    let e1 : get (codes "endpointing") (copy_option detection detection options blocks)
        ≡ get (codes "endpointing") endpointing =
      get-copy_option detection detection (codes "endpointing") options blocks
      ∙ ground (
        arith,
        differ,
        get-put_block_ne (codes "interruption") (codes "endpointing") (interruption_of options)
            endpointing,
      ) in
    let e2 : get (codes "interruption") (copy_option detection detection options blocks)
        ≡ get (codes "interruption") blocks =
      get-copy_option detection detection (codes "interruption") options blocks
      ∙ ground (arith, differ) in
    let alone : get (codes "interruption") endpointing ≡ none =
      get-put_block_ne (codes "endpointing") (codes "interruption") (endpointing_of options) []
        differ.3 in
    (
      setting-of_items (codes "endpointing") k (deprecated_turn_handling options)
          ∙ ap (inner k) e1
          ∙ setting-put_block (codes "endpointing") k (endpointing_of options) [] refl
          ∙ ap (get k) (endpointing_of-table options)
          ∙ get-copy_options k endpointing_table options [],
      setting-of_items (codes "interruption") k (deprecated_turn_handling options)
          ∙ ap (inner k) e2
          ∙ setting-put_block (codes "interruption") k (interruption_of options) endpointing alone
          ∙ ap (get k) (interruption_of-table options)
          ∙ get-copy_options k interruption_table options
              (enabled_block (forbids (get (codes "allow_interruptions") options))),
    )
