-- ===== src/Tests/Top.antt =====
-- Three sessions in `openrtc top`, two of them with the same memory.
use openrtc_python.Prelude.{◌⊎◌, ℕ, ◌≡◌, ◌≤◌, ◌<◌, refl, none, some, List, [], ◌∷◌, length, arith}
use openrtc_python.Prelude.Text.{Text, Text-discrete, codes, contains}
use openrtc_python.Prelude.Dict.{get, get_or}
use openrtc_python.Prelude.Outcome.{ret, raise, type_error}
use openrtc_python.Top.{
  num, text, null, Row, Filters, is_shown, is_descending, sort_cell, comparable, cell_lt,
  insert_row, sorted, filter_and_sort, paginate, number_from,
}
use openrtc_python.Top.Pages.{pages_from, paginate-whole}

abbrev row : Text → ℕ → Row
row sid mem =
    (codes "session_id", text sid)
    ∷ (codes "agent_name", text (codes "sales"))
    ∷ (codes "mem_mb", num mem)
    ∷ (codes "status", text (codes "active"))
    ∷ []

abbrev rows : List Row
rows = row (codes "a") 3 ∷ row (codes "b") 5 ∷ row (codes "c") 3 ∷ []

abbrev filters : Filters
filters = record { status = codes "active"; agent = some (codes "sales"); tenant = none }

abbrev key : Text
key = codes "mem_mb"

by_memory :
    filter_and_sort key filters rows
    ≡ ret (row (codes "b") 5 ∷ row (codes "a") 3 ∷ row (codes "c") 3 ∷ [])
unfolding filter_and_sort comparable sort_cell is_descending is_shown sorted insert_row cell_lt get
    get_or contains Text-discrete
by_memory = refl

-- A cell that is missing under a text's key is the empty text; a null one is not compared with it.
mixed :
    filter_and_sort
      (codes "tenant")
      (record filters { agent = none })
      (((codes "tenant", null) ∷ row (codes "a") 3) ∷ rows)
    ≡ raise type_error
unfolding filter_and_sort comparable sort_cell is_descending is_shown get get_or contains
    Text-discrete
mixed = refl

paginate-whole_example :
    let (shown, p, total) = paginate rows 7 (some 2) in
    (pages_from rows 2 0 total ≡ number_from 1 rows)
    × (0 < p)
    × (p ≤ total)
    × (paginate rows p (some 2) ≡ (shown, p, total))
    × ((length rows ≡ 0) ⊎ (0 < length shown))
paginate-whole_example = paginate-whole rows 2 7 (omega arith)
