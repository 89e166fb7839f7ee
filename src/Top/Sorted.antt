-- ===== src/Top/Sorted.antt =====
-- `filter_and_sort`: the shown rows, ordered by the sort key, rows of one key value in their order.
use openrtc_python.Prelude.{◌≡◌, Bool, true, false, List, [], ◌∷◌, All, ◌==◌}
use openrtc_python.Prelude.Text.{Text, text_eq}
use openrtc_python.Top.{Cell, num, text, null, Row, sort_cell}

-- No row strictly precedes one that stands before it.
abbrev pub IsOrdered : (Row → Row → Bool) → List Row → Type 0
IsOrdered before [] = Unit
IsOrdered before (x ∷ xs) = All (λ y. before y x ≡ false) xs × IsOrdered before xs

abbrev same_cell : Cell → Cell → Bool
same_cell (num m) (num n) = m == n
same_cell (text s) (text t) = text_eq s t
same_cell null null = true
same_cell _ _ = false

-- The rows with the cell `c` under the sort key.
abbrev pub with_cell : Text → Cell → Row → Bool
with_cell key c row = same_cell c (sort_cell key row)
