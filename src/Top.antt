-- ===== src/Top.antt =====
-- cli/top_cli.py: the filters, the order, the pages and the keys of `openrtc top`. A row is what the
-- worker's snapshot gives for a session; of its cells only the order matters, so a number stands for
-- its place among the numbers. The gauges and the terminal are left out.
pub mod Sorted
pub mod Pages
pub mod Keys
use openrtc_python.Prelude.{
  ℕ, zero, suc, ◌+◌, ◌-◌, ◌*◌, ◌/◌, Bool, true, false, ◌||◌, ◌&&◌, not, Option, none, some, List,
  [], ◌∷◌, ◌++◌, length, all, ltb, leb, ◌==◌, if◌then◌else◌, map, take,
}
use openrtc_python.Prelude.Text.{Text, codes, text_eq, contains, is_empty}
use openrtc_python.Prelude.Dict.{Dict, get, get_or}
use openrtc_python.Prelude.Outcome.{
  Outcome, ret, raise, type_error, value_error, os_error, timeout_error, ◌>>=◌,
}

pub data Cell : Type 0 where
  num : ℕ → Cell
  text : Text → Cell
  null : Cell

abbrev pub Row : Type 0
Row = Dict Cell

abbrev pub sort_keys : List Text
sort_keys =
    codes "mem_mb"
    ∷ codes "cpu_pct"
    ∷ codes "duration_s"
    ∷ codes "agent_name"
    ∷ codes "session_id"
    ∷ []

abbrev pub status_filters : List Text
status_filters =
    codes "all" ∷ codes "active" ∷ codes "slow" ∷ codes "draining" ∷ codes "errored" ∷ []

abbrev pub numeric : List Text
numeric = codes "mem_mb" ∷ codes "peak_mb" ∷ codes "cpu_pct" ∷ codes "duration_s" ∷ []

-- The value behind `current` in a list; `wrap` behind the last.
next_from : Text → Text → List Text → Option Text
next_from wrap current [] = none
next_from wrap current (x ∷ []) = if text_eq x current then some wrap else none
next_from wrap current (x ∷ y ∷ xs) =
    if text_eq x current then some y else next_from wrap current (y ∷ xs)

-- `_next_in_cycle`, for a cycle given by its first value and the others.
unfoldable pub next_in_cycle : Text → Text → List Text → Text
unfolding next_from
next_in_cycle current first others = elim (next_from first current (first ∷ others)) [
  | none ↦ first
  | some next ↦ next
]

abbrev cycle_from : List Text → Text → Text
cycle_from [] current = current
cycle_from (first ∷ others) current = next_in_cycle current first others

unfoldable pub next_sort_key : Text → Text
next_sort_key current = cycle_from sort_keys current

unfoldable pub next_status_filter : Text → Text
next_status_filter current = cycle_from status_filters current

-- `key.lower()` of the letters A to Z; no other character's lower case is one of `q`, `s` and `f`.
abbrev lower : Text → Text
lower key = map (λ c. if leb b'A' c && leb c b'Z' then c + 32 else c) key

-- What one key press leaves: the two settings, and whether to quit.
unfoldable pub apply_key : Text → Text → Text → Text × Text × Bool
apply_key key sort_key status_filter =
    let pressed = lower key in
    if text_eq pressed (codes "q")
    then (sort_key, status_filter, true)
    else if text_eq pressed (codes "s")
    then (next_sort_key sort_key, status_filter, false)
    else if text_eq pressed (codes "f")
    then (sort_key, next_status_filter status_filter, false)
    else (sort_key, status_filter, false)

-- `validate_refresh_hz`, in tenths of a hertz.
unfoldable pub validate_refresh_hz : ℕ → Outcome ℕ
validate_refresh_hz hz = if leb 5 hz && leb hz 100 then ret hz else raise value_error

-- `row.get(key) == value`
abbrev pub has_cell : Text → Text → Row → Bool
has_cell key value row = elim (get key row) [ some (text t) ↦ text_eq t value | _ ↦ false ]

-- `filter is None or row.get(key) == filter`
abbrev pub admits : Text → Option Text → Row → Bool
admits key none row = true
admits key (some value) row = has_cell key value row

pub record Filters : Type 0 where
  pub status : Text
  pub agent : Option Text
  pub tenant : Option Text

unfoldable pub is_shown : Filters → Row → Bool
is_shown f row =
    (text_eq f.status (codes "all")
      || text_eq f.status []
      || has_cell (codes "status") f.status row)
    && admits (codes "agent_name") f.agent row
    && admits (codes "tenant") f.tenant row

abbrev pub filter : (Row → Bool) → List Row → List Row
filter p [] = []
filter p (row ∷ rows) = if p row then row ∷ filter p rows else filter p rows

-- `s < t`
unfoldable pub text_lt : Text → Text → Bool
text_lt s [] = false
text_lt [] (_ ∷ _) = true
text_lt (c ∷ s) (d ∷ t) = ltb c d || (c == d && text_lt s t)

-- `x < y` of two cells of one type; cells of two types are never compared below.
unfoldable pub cell_lt : Cell → Cell → Bool
unfolding text_lt
cell_lt (num m) (num n) = ltb m n
cell_lt (text s) (text t) = text_lt s t
cell_lt (num _) _ = true
cell_lt (text _) null = true
cell_lt _ _ = false

abbrev is_num : Cell → Bool
is_num (num _) = true
is_num _ = false

abbrev is_text : Cell → Bool
is_text (text _) = true
is_text _ = false

-- Whether sorting by the cells compares only numbers with numbers or texts with texts; one cell is not
-- compared. Two cells next to each other in the result have been compared.
unfoldable pub comparable : List Cell → Bool
comparable [] = true
comparable (c ∷ []) = true
comparable cells = all is_num cells || all is_text cells

unfoldable pub is_descending : Text → Bool
is_descending sort_key = contains sort_key numeric

-- `row.get(sort_key, default)`
unfoldable pub sort_cell : Text → Row → Cell
sort_cell sort_key row = get_or sort_key (if is_descending sort_key then num 0 else text []) row

-- Whether the first cell comes strictly before the second, by the direction.
abbrev pub directed : Bool → Cell → Cell → Bool
directed true c d = cell_lt d c
directed false c d = cell_lt c d

-- Whether the first row comes strictly before the second.
abbrev pub precedes : Text → Row → Row → Bool
precedes sort_key x y =
    directed (is_descending sort_key) (sort_cell sort_key x) (sort_cell sort_key y)

unfoldable pub insert_row : (Row → Row → Bool) → Row → List Row → List Row
insert_row before x [] = x ∷ []
insert_row before x (y ∷ ys) = if before y x then y ∷ insert_row before x ys else x ∷ y ∷ ys

-- `sorted`, which is stable, also with `reverse=True`.
unfoldable pub sorted : (Row → Row → Bool) → List Row → List Row
unfolding insert_row
sorted before [] = []
sorted before (x ∷ xs) = insert_row before x (sorted before xs)

unfoldable pub filter_and_sort : Text → Filters → List Row → Outcome (List Row)
filter_and_sort sort_key f rows =
    let shown = filter (is_shown f) rows in
    if comparable (map (sort_cell sort_key) shown)
    then ret (sorted (precedes sort_key) shown)
    else raise type_error

abbrev pub drop : ℕ → List Row → List Row
drop zero rows = rows
drop (suc n) [] = []
drop (suc n) (row ∷ rows) = drop n rows

-- `max(1, (len(rows) + page_size - 1) // page_size)`
unfoldable pub total_pages : List Row → ℕ → ℕ
total_pages rows size = let n = (length rows + size - 1) / size in if leb 1 n then n else 1

-- `max(1, min(page, total))`; a page below 0 counts as 0.
unfoldable pub clamp_page : ℕ → ℕ → ℕ
clamp_page page total =
    let low = if leb page total then page else total in if leb 1 low then low else 1

-- The rows of the page, its number and the number of pages; a size that is not positive is 0 here.
unfoldable pub paginate : List Row → ℕ → Option ℕ → List Row × ℕ × ℕ
paginate rows page none = (rows, 1, 1)
paginate rows page (some size) =
    if leb size 0
    then (rows, 1, 1)
    else let total = total_pages rows size in
      let p = clamp_page page total in (take size (drop ((p - 1) * size) rows), p, total)

-- `enumerate(rows, start)`
unfoldable pub number_from : ℕ → List Row → List (ℕ × Row)
number_from n [] = []
number_from n (row ∷ rows) = (n, row) ∷ number_from (suc n) rows

-- The slots and rows that `build_top_table` adds for a page of the ordered rows.
unfoldable pub table_rows : List Row → ℕ → Option ℕ → List (ℕ × Row)
table_rows ordered page size =
    let (page_rows, p, total) = paginate ordered page size in
    let start_slot = (p - 1) * elim size [ none ↦ 0 | some n ↦ n ] in
    number_from (start_slot + 1) page_rows

unfoldable pub build_top_table : Text → Filters → ℕ → Option ℕ → List Row → Outcome (List (ℕ × Row))
build_top_table sort_key f page size rows = do
  ordered ← filter_and_sort sort_key f rows
  ret (table_rows ordered page size)
