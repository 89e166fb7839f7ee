-- ===== src/Top/Keys.antt =====
-- `apply_key`: the keys of the live view walk through the settings that the worker's rows know.
use openrtc_python.Prelude.{◌≡◌, Bool, true, false, List, [], ◌∷◌, Bool-cases, inl, inr, arith}
use openrtc_python.Prelude.Text.{Text, Text-discrete, contains}
use openrtc_python.Top.{
  sort_keys, status_filters, next_in_cycle, next_sort_key, next_status_filter, apply_key,
}

-- The two settings behind a run of key presses, up to the first that quits.
unfoldable pub press : List Text → Text → Text → Text × Text × Bool
press [] sort_key status_filter = (sort_key, status_filter, false)
press (key ∷ keys) sort_key status_filter =
    let (sort_key', status_filter', quits) = apply_key key sort_key status_filter in
    let rest = press keys sort_key' status_filter' in
    elim quits [ true ↦ (sort_key', status_filter', true) | false ↦ rest ]

next_sort_key-known : (current : Text) → contains (next_sort_key current) sort_keys ≡ true
unfolding next_sort_key next_in_cycle contains Text-discrete
next_sort_key-known current = ground arith

next_status_filter-known :
    (current : Text) → contains (next_status_filter current) status_filters ≡ true
unfolding next_status_filter next_in_cycle contains Text-discrete
next_status_filter-known current = ground arith

-- Settings that the rows know.
pub record IsKnown (sort_key status_filter : Text) : Type 0 where
  pub sorts : contains sort_key sort_keys ≡ true
  pub filters : contains status_filter status_filters ≡ true

apply_key-IsKnown :
    (key sort_key status_filter : Text)
    → IsKnown sort_key status_filter
    → let (s, f, quits) = apply_key key sort_key status_filter in IsKnown s f
unfolding apply_key
apply_key-IsKnown key sort_key status_filter known = record {
  sorts = ground (arith, known.sorts, next_sort_key-known sort_key);
  filters = ground (arith, known.filters, next_status_filter-known status_filter);
}

-- Whatever keys are pressed, the settings stay among those that the table can sort and filter by.
pub press-IsKnown :
    (keys : List Text) (sort_key status_filter : Text)
    → IsKnown sort_key status_filter
    → let (s, f, quits) = press keys sort_key status_filter in IsKnown s f
unfolding press
press-IsKnown [] sort_key status_filter known = known
press-IsKnown (key ∷ keys) sort_key status_filter known =
    let next = apply_key-IsKnown key sort_key status_filter known in
    let (s, f, quits) = apply_key key sort_key status_filter in
    let rest = press-IsKnown keys s f next in
    elim (Bool-cases quits) [ inl done ↦ rw (done, press) next | inr more ↦ rw (more, press) rest ]
