-- ===== src/Breaker/Window.antt =====
-- `TenantCircuitBreaker.record_outcome`: when a breaker opens, by the outcomes of the window.
use openrtc_python.Prelude.{
  ◌∙◌, ◌&&◌, ℕ, ◌+◌, ◌*◌, ◌≤◌, ◌≡◌, refl, Bool, none, some, List, [], ◌∷◌, ◌++◌, arith, ltb, leb,
  if◌then◌else◌, All, length,
}
use openrtc_python.Prelude.Text.{text_eq}
use openrtc_python.Breaker.{
  record_outcome, Breaker, Text, Config, SessionEnd, prune, trips, failures,
}
use openrtc_python.Breaker.Tenant.{One, one_of, one_record, one_of-record_outcome}

-- `at` lies in the window that ends `now`.
abbrev pub is_recent : ℕ → ℕ → SessionEnd → Bool
is_recent window now e = leb now (e.0 + window)

-- All outcomes of a history that lie in the window, wherever they stand in it.
unfoldable pub recent : ℕ → ℕ → List SessionEnd → List SessionEnd
recent window now [] = []
recent window now (e ∷ es) =
    let rest = recent window now es in if is_recent window now e then e ∷ rest else rest

-- Recorded in the order of time.
abbrev pub Chronological : List SessionEnd → Type 0
Chronological [] = Unit
Chronological (e ∷ es) = All (λ f. e.0 ≤ f.0) es × Chronological es

recent-of_le :
    (window now at : ℕ) (es : List SessionEnd)
    → All (λ f. at ≤ f.0) es
    → now ≤ at + window
    → recent window now es ≡ es
unfolding recent
recent-of_le window now at [] h k = refl
recent-of_le window now at (e ∷ es) h k = ground (arith, recent-of_le window now at es h.1 k)

-- Dropping from the front while the front is old leaves exactly the outcomes of the window.
pub prune-recent :
    (window now : ℕ) (es : List SessionEnd)
    → Chronological es
    → prune window now es ≡ recent window now es
unfolding prune recent
prune-recent window now [] h = refl
prune-recent window now ((at, ok) ∷ es) h =
    ground (arith, prune-recent window now es h.1, recent-of_le window now at es h.0)

one_record_closed :
    (c : Config) (now : ℕ) (ok : Bool) (o : One)
    → o.open_until ≡ none
    → Chronological (o.outcomes ++ (now, ok) ∷ [])
    → let seen = recent c.window now (o.outcomes ++ (now, ok) ∷ []) in
      one_record c now ok o ≡ (
        if leb c.min_samples (length seen)
          && ltb (c.ratio_num * length seen) (failures seen * c.ratio_den)
        then record { outcomes = []; open_until = some (now + c.cooldown) }
        else record { outcomes = seen; open_until = none })
unfolding one_record trips
one_record_closed c now ok o e h =
    rw (prune-recent c.window now (o.outcomes ++ (now, ok) ∷ []) h) (ground arith)

-- A closed breaker opens on an outcome exactly when the outcomes of the window are then at least
-- `min_samples` and the failures among them beyond the ratio; it stays open for the cooldown, and
-- its window starts over empty. Else it stays closed, and keeps the outcomes of the window.
pub record_outcome_closed :
    (now : ℕ) (tenant : Text) (ok : Bool) (b : Breaker)
    → (one_of b tenant).open_until ≡ none
    → Chronological ((one_of b tenant).outcomes ++ (now, ok) ∷ [])
    → let c = b.config in
      let seen = recent c.window now ((one_of b tenant).outcomes ++ (now, ok) ∷ []) in
      one_of (record_outcome now tenant ok b) tenant ≡ (
        if leb c.min_samples (length seen)
          && ltb (c.ratio_num * length seen) (failures seen * c.ratio_den)
        then record { outcomes = []; open_until = some (now + c.cooldown) }
        else record { outcomes = seen; open_until = none })
record_outcome_closed now tenant ok b e h =
    one_of-record_outcome now tenant tenant ok b
    ∙ if-self tenant _ _
    ∙ one_record_closed b.config now ok (one_of b tenant) e h
  where
    if-self : (t : Text) (x y : One) → (if text_eq t t then x else y) ≡ x
    if-self t x y = ground arith
