-- ===== src/Prelude/Dict.antt =====
-- Python's `dict` with `str` keys: an association list in insertion order.
use mathlib.Core.List.{List, [], ◌∷◌}
use mathlib.Core.Bool.{false}
use mathlib.Core.Option.{Option, none, some}
use mathlib.Core.Logic.{◌≢◌, inl, inr}
use mathlib.Core.Path.{◌≡◌, refl}
use native.Mathlib.Omega.{arith}
use openrtc_python.Prelude.Tests.{if◌then◌else◌, Bool-cases}
use openrtc_python.Prelude.Text.{Text, text_eq}

abbrev pub Dict {ℓ} : Type ℓ → Type ℓ
Dict V = List (Text × V)

module _ {ℓ} {V : Type ℓ} where
  -- `d.get(k)`
  unfoldable pub get : Text → Dict V → Option V
  get k [] = none
  get k ((j, v) ∷ d) = if text_eq j k then some v else get k d

  -- `d.get(k, v)`
  unfoldable pub get_or : Text → V → Dict V → V
  unfolding get
  get_or k v d = elim (get k d) [ none ↦ v | some w ↦ w ]

  -- `d[k] = v`: in place, or a new last entry.
  unfoldable pub put : Text → V → Dict V → Dict V
  put k v [] = (k, v) ∷ []
  put k v ((j, w) ∷ d) = if text_eq j k then (j, v) ∷ d else (j, w) ∷ put k v d

  -- `d.pop(k, None)`, `del d[k]`
  unfoldable pub remove : Text → Dict V → Dict V
  remove k [] = []
  remove k ((j, v) ∷ d) = let rest = remove k d in if text_eq j k then rest else (j, v) ∷ rest

  -- `list(d)`
  abbrev pub keys : Dict V → List Text
  keys [] = []
  keys ((k, v) ∷ d) = k ∷ keys d

  pub get-put :
      (k j : Text) (v : V) (d : Dict V)
      → get j (put k v d) ≡ (if text_eq k j then some v else get j d)
  unfolding get put
  get-put k j v [] = refl
  get-put k j v ((i, w) ∷ d) = ground (arith, get-put k j v d)

  pub get-remove :
      (k j : Text) (d : Dict V) → get j (remove k d) ≡ (if text_eq k j then none else get j d)
  unfolding get remove
  get-remove k j [] = ground arith
  get-remove k j ((i, w) ∷ d) = ground (arith, get-remove k j d)

  -- `d.update(e)`
  unfoldable pub update : Dict V → Dict V → Dict V
  update d [] = d
  update d ((k, v) ∷ e) = update (put k v d) e

  pub get-put_self : (k : Text) (v : V) (d : Dict V) → get k (put k v d) ≡ some v
  get-put_self k v d = rw (get-put k k v d) (ground arith)

  pub get-put_ne : (k j : Text) (v : V) (d : Dict V) → k ≢ j → get j (put k v d) ≡ get j d
  get-put_ne k j v d h = rw (get-put k j v d) (ground arith)

  pub get-remove_self : (k : Text) (d : Dict V) → get k (remove k d) ≡ none
  get-remove_self k d = rw (get-remove k k d) (ground arith)

  pub get-remove_ne : (k j : Text) (d : Dict V) → k ≢ j → get j (remove k d) ≡ get j d
  get-remove_ne k j d h = rw (get-remove k j d) (ground arith)

  -- Each key once.
  abbrev pub DistinctKeys : Dict V → Type ℓ
  DistinctKeys [] = Unit
  DistinctKeys ((k, v) ∷ d) = (get k d ≡ none) × DistinctKeys d

  put-DistinctKeys_at :
      (k i : Text) (v w : V) (d : Dict V) (other : text_eq i k ≡ false)
      → get i d ≡ none
      → get i (put k v d) ≡ none
  put-DistinctKeys_at k i v w d other new = rw (get-put k i v d) (ground arith)

  pub put-DistinctKeys : (k : Text) (v : V) (d : Dict V) → DistinctKeys d → DistinctKeys (put k v d)
  unfolding get put
  put-DistinctKeys k v [] h = (refl, tt)
  put-DistinctKeys k v ((i, w) ∷ d) h = elim (Bool-cases (text_eq i k)) [
    | inl same ↦ rw same (h.0, h.1)
    | inr other ↦ rw other (put-DistinctKeys_at k i v w d other h.0, put-DistinctKeys k v d h.1)
  ]

  -- The one, or else the other.
  abbrev pub first : Option V → Option V → Option V
  first (some v) other = some v
  first none other = other

  pub get-update :
      (k : Text) (d e : Dict V) → DistinctKeys e → get k (update d e) ≡ first (get k e) (get k d)
  unfolding update get
  get-update k d [] h = refl
  get-update k d ((key, v) ∷ e) h =
      let later = get-update k (put key v d) e h.1 in
      let here = get-put key k v d in
      elim (Bool-cases (text_eq key k)) [
        | inl same ↦ ground (arith, later, here, h.0)
        | inr other ↦ ground (arith, later, here)
      ]
