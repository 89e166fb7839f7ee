-- ===== src/Top/Pages.antt =====
-- `paginate` and the slots of `build_top_table`: the pages are the whole table.
use openrtc_python.Prelude.{
  zero_or_pos, ◌⊎◌, inl, inr, ℕ, zero, suc, ◌+◌, ◌-◌, ◌*◌, ◌/◌, ◌≤◌, ◌<◌, ◌≡◌, refl, ap, ◌∙◌, sym,
  false, some, List, [], ◌∷◌, ◌++◌, length, take, leb, leb→le, Bool-cases, inl, inr, arith,
}
use native.Mathlib.Nat.{lt-div-mul-add, suc-mul, mul-le-mul_right, div-mul-le_self}
use openrtc_python.Top.{Row, drop, total_pages, clamp_page, paginate, number_from, table_rows}

total_pages-fits :
    (rows : List Row) (size : ℕ) → 0 < size → length rows ≤ total_pages rows size * size
unfolding total_pages
total_pages-fits rows size h =
    let whole = lt-div-mul-add {a = length rows + size - 1} {b = size} h in
    elim (Bool-cases (leb 1 ((length rows + size - 1) / size))) [
      | inl more ↦ rw more (omega (arith, whole))
      | inr one ↦
          let none_left : (length rows + size - 1) / size ≡ 0 = ground (arith, one) in
          rw one (omega (arith, whole, ap (λ (q : ℕ). q * size) none_left))
    ]

total_pages-pos : (rows : List Row) (size : ℕ) → 0 < total_pages rows size
unfolding total_pages
total_pages-pos rows size = ground arith

drop-nil : (n : ℕ) → drop n [] ≡ []
drop-nil zero = refl
drop-nil (suc n) = refl

drop-all : (n : ℕ) (rows : List Row) → length rows ≤ n → drop n rows ≡ []
drop-all zero [] h = refl
drop-all zero (row ∷ rows) h = absurd (omega arith)
drop-all (suc n) [] h = refl
drop-all (suc n) (row ∷ rows) h = drop-all n rows (omega arith)

drop-add : (m n : ℕ) (rows : List Row) → drop n (drop m rows) ≡ drop (m + n) rows
drop-add zero n rows = ap (λ k. drop k rows) (omega arith)
drop-add (suc m) n [] = drop-nil n ∙ sym (drop-nil (suc m + n))
drop-add (suc m) n (row ∷ rows) =
    drop-add m n rows
    ∙ ap (λ k. drop k (row ∷ rows)) (let e : suc (m + n) ≡ suc m + n = omega arith in e)

number_from-take-drop :
    (s n : ℕ) (rows : List Row)
    → number_from s rows ≡ number_from s (take n rows) ++ number_from (s + n) (drop n rows)
unfolding number_from
number_from-take-drop s zero rows = ap (λ k. number_from k rows) (omega arith)
number_from-take-drop s (suc n) [] = refl
number_from-take-drop s (suc n) (row ∷ rows) =
    let e : suc s + n ≡ s + suc n = omega arith in
    ap (◌∷◌ (s, row)) (
      number_from-take-drop (suc s) n rows
      ∙ ap (λ k. number_from (suc s) (take n rows) ++ number_from k (drop n rows)) e)

clamp_page-suc : (p total : ℕ) → p < total → clamp_page (suc p) total ≡ suc p
unfolding clamp_page
clamp_page-suc p total h = ground arith

paginate-clamped :
    (rows : List Row) (page size : ℕ)
    → 0 < size
    → let p = clamp_page page (total_pages rows size) in
      paginate rows page (some size)
      ≡ (take size (drop ((p - 1) * size) rows), p, total_pages rows size)
unfolding paginate
paginate-clamped rows page size h = let e : leb size 0 ≡ false = ground arith in rw e

-- A page that exists, counted from 0.
table_rows-page :
    (rows : List Row) (size p : ℕ)
    → 0 < size
    → p < total_pages rows size
    → table_rows rows (suc p) (some size)
      ≡ number_from (p * size + 1) (take size (drop (p * size) rows))
unfolding table_rows
table_rows-page rows size p h below =
    let e : suc p - 1 ≡ p = omega arith in
    rw (paginate-clamped rows (suc p) size h)
      (rw (clamp_page-suc p (total_pages rows size) below) (rw e))

-- The pages `p + 1`, `p + 2` and so on, as many as `k`, one after the other.
unfoldable pub pages_from : List Row → ℕ → ℕ → ℕ → List (ℕ × Row)
pages_from rows size p zero = []
pages_from rows size p (suc k) =
    table_rows rows (suc p) (some size) ++ pages_from rows size (suc p) k

next_page : (p size : ℕ) → p * size + size ≡ suc p * size
next_page p size = sym (suc-mul p size)

pages_from-rest :
    (rows : List Row) (size p k : ℕ)
    → 0 < size
    → p + k ≡ total_pages rows size
    → pages_from rows size p k ≡ number_from (p * size + 1) (drop (p * size) rows)
unfolding pages_from number_from
pages_from-rest rows size p zero h e =
    let over : length rows ≤ p * size =
      omega (arith, total_pages-fits rows size h, ap (λ (t : ℕ). t * size) e) in
    sym (ap (number_from (p * size + 1)) (drop-all (p * size) rows over))
pages_from-rest rows size p (suc k) h e =
    let here = p * size in
    let below : p < total_pages rows size = omega (arith, e) in
    let more = pages_from-rest rows size (suc p) k h (omega (arith, e)) in
    let start : suc p * size + 1 ≡ here + 1 + size = omega (arith, next_page p size) in
    let left = ap (λ n. drop n rows) (sym (next_page p size)) ∙ sym (drop-add here size rows) in
    let page = number_from (here + 1) (take size (drop here rows)) in
    ap (◌++◌ (table_rows rows (suc p) (some size))) (
      more
      ∙ ap (λ n. number_from n (drop (suc p * size) rows)) start
      ∙ ap (number_from (here + 1 + size)) left)
    ∙ ap (λ t. t ++ number_from (here + 1 + size) (drop size (drop here rows)))
        (table_rows-page rows size p h below)
    ∙ sym (number_from-take-drop (here + 1) size (drop here rows))

drop-pos : (n : ℕ) (rows : List Row) → n < length rows → 0 < length (drop n rows)
drop-pos n [] h = absurd (omega arith)
drop-pos zero (row ∷ rows) h = omega arith
drop-pos (suc n) (row ∷ rows) h = drop-pos n rows (omega arith)

take-pos : (n : ℕ) (rows : List Row) → 0 < n → 0 < length rows → 0 < length (take n rows)
take-pos zero rows h k = absurd (omega arith)
take-pos (suc n) [] h k = absurd (omega arith)
take-pos (suc n) (row ∷ rows) h k = omega arith

last_page-lt :
    (rows : List Row) (size p : ℕ)
    → 0 < size
    → 0 < length rows
    → p ≤ total_pages rows size
    → (p - 1) * size < length rows
unfolding total_pages
last_page-lt rows size p h k below = elim (Bool-cases (leb 1 ((length rows + size - 1) / size))) [
  | inl more ↦
      let q = (length rows + size - 1) / size in
      let last : suc (q - 1) ≡ q = omega (arith, leb→le 1 q more) in
      let p_low : p - 1 ≤ q - 1 = omega (arith, rw more at below) in
      omega (
        arith,
        mul-le-mul_right size p_low,
        next_page (q - 1) size,
        ap (λ n. n * size) last,
        div-mul-le_self (length rows + size - 1) size,
      )
  | inr one ↦
      let first : p - 1 ≡ 0 = omega (arith, rw one at below) in
      omega (arith, ap (λ n. n * size) first)
]

clamp_page_bounds :
    (page total : ℕ) → 0 < total → (0 < clamp_page page total) × (clamp_page page total ≤ total)
unfolding clamp_page
clamp_page_bounds page total h = ground arith

clamp_page_again :
    (page total : ℕ) → 0 < total → clamp_page (clamp_page page total) total ≡ clamp_page page total
unfolding clamp_page
clamp_page_again page total h = ground arith

-- For a page size above 0: the pages one after the other are the whole table, each row once, in its
-- order and with its place as its slot; and whatever page is asked for, the one shown is the page of
-- the number that is shown with it, which is one of those, and is empty only if there is no row at all.
pub paginate-whole :
    (rows : List Row) (size page : ℕ)
    → 0 < size
    → let (shown, p, total) = paginate rows page (some size) in
      (pages_from rows size 0 total ≡ number_from 1 rows)
      × (0 < p)
      × (p ≤ total)
      × (paginate rows p (some size) ≡ (shown, p, total))
      × ((length rows ≡ 0) ⊎ (0 < length shown))
paginate-whole rows size page h =
    let total = total_pages rows size in
    let positive = total_pages-pos rows size in
    let (low, high) = clamp_page_bounds page total positive in
    let p = clamp_page page total in
    let from_start : 0 * size ≡ 0 = omega arith in
    rw (paginate-clamped rows page size h) (
      pages_from-rest rows size 0 total h (omega arith)
          ∙ ap (λ n. number_from (n + 1) (drop n rows)) from_start,
      low,
      high,
      paginate-clamped rows p size h
          ∙ ap (λ n. (take size (drop ((n - 1) * size) rows), n, total))
              (clamp_page_again page total positive),
      elim (zero_or_pos (length rows)) [
        | inl none_there ↦ inl none_there
        | inr some_row ↦ inr (
            take-pos size (drop ((p - 1) * size) rows) h
              (drop-pos ((p - 1) * size) rows (last_page-lt rows size p h some_row high)))
      ],
    )
