-- ===== src/TurnHandling/Lookup.antt =====
-- The blocks of a `turn_handling`, key by key: what merging and the deprecated options put there.
use openrtc_python.Prelude.{
  ◌≡◌, refl, ap, ◌∙◌, Option, none, some, List, [], ◌∷◌, if◌then◌else◌, arith, Bool-cases,
  Option-cases, inl, inr,
}
use openrtc_python.Prelude.Text.{Text, text_eq, contains}
use openrtc_python.Prelude.Dict.{
  Dict, first, get, put, remove, get-put, get-remove, DistinctKeys, put-DistinctKeys,
}
use openrtc_python.TurnHandling.{
  Any, items, of_items, copy_option, merge_value, merge_turn_handling, extract_options,
}

pub items-of_items : (d : Dict Any) → items (of_items d) ≡ d
items-of_items [] = refl
items-of_items ((k, v) ∷ d) = ap (◌∷◌ (k, v)) (items-of_items d)

-- A value of an override, if any, over an old one.
abbrev pub merged_at : Option Any → Option Any → Option Any
merged_at old none = old
merged_at old (some value) = some (merge_value old value)

pub get-merge_turn_handling :
    (k : Text) (base override : Dict Any)
    → DistinctKeys override
    → get k (merge_turn_handling base override) ≡ merged_at (get k base) (get k override)
unfolding merge_turn_handling get
get-merge_turn_handling k base [] h = refl
get-merge_turn_handling k base ((key, value) ∷ override) h =
    let merged = put key (merge_value (get key base) value) base in
    let later = get-merge_turn_handling k merged override h.1 in
    let here = get-put key k (merge_value (get key base) value) base in
    elim (Bool-cases (text_eq key k)) [
      | inl same ↦ ground (arith, later, here, h.0)
      | inr other ↦ ground (arith, later, here)
    ]

pub get-copy_option :
    (source name k : Text) (options target : Dict Any)
    → get k (copy_option source name options target)
      ≡ (if text_eq name k then first (get source options) (get k target) else get k target)
unfolding copy_option
get-copy_option source name k options target = elim (Option-cases (get source options)) [
  | inl missing ↦ ground arith
  | inr (v, e) ↦ ground (arith, get-put name k v target)
]

pub copy_option-DistinctKeys :
    (source name : Text) (options target : Dict Any)
    → DistinctKeys target
    → DistinctKeys (copy_option source name options target)
unfolding copy_option
copy_option-DistinctKeys source name options target h = elim (Option-cases (get source options)) [
  | inl missing ↦ rw (missing, copy_option) h
  | inr (v, e) ↦ rw (e, copy_option) (put-DistinctKeys name v target h)
]

-- What is left of the keyword arguments, and which options were taken out.
pub get-extract_options :
    (k : Text) (ks : List Text) (kwargs : Dict Any)
    → let (options, left) = extract_options ks kwargs in
      (get k options ≡ (if contains k ks then get k kwargs else none))
      × (get k left ≡ (if contains k ks then none else get k kwargs))
unfolding extract_options contains get
get-extract_options k [] kwargs = (refl, refl)
get-extract_options k (key ∷ ks) kwargs = elim (Option-cases (get key kwargs)) [
  | inl missing ↦
      let later = get-extract_options k ks kwargs in
      (ground (arith, missing, later), ground (arith, missing, later))
  | inr (v, e) ↦
      let later = get-extract_options k ks (remove key kwargs) in
      let gone = get-remove key k kwargs in
      (ground (arith, e, later, gone), ground (arith, e, later, gone))
]

-- A sequence of copies, by its table of options and the keys that they get.
abbrev pub copy_options : List (Text × Text) → Dict Any → Dict Any → Dict Any
copy_options [] options target = target
copy_options ((source, name) ∷ table) options target =
    copy_options table options (copy_option source name options target)

abbrev pub from_table : Text → List (Text × Text) → Dict Any → Option Any → Option Any
from_table k [] options old = old
from_table k ((source, name) ∷ table) options old =
    from_table k table options (if text_eq name k then first (get source options) old else old)

pub get-copy_options :
    (k : Text) (table : List (Text × Text)) (options target : Dict Any)
    → get k (copy_options table options target) ≡ from_table k table options (get k target)
get-copy_options k [] options target = refl
get-copy_options k ((source, name) ∷ table) options target =
    get-copy_options k table options (copy_option source name options target)
    ∙ ap (from_table k table options) (get-copy_option source name k options target)

pub copy_options-DistinctKeys :
    (table : List (Text × Text)) (options target : Dict Any)
    → DistinctKeys target
    → DistinctKeys (copy_options table options target)
copy_options-DistinctKeys [] options target h = h
copy_options-DistinctKeys ((source, name) ∷ table) options target h =
    copy_options-DistinctKeys table options (copy_option source name options target)
      (copy_option-DistinctKeys source name options target h)
