-- ===== src/Reload/Pins.antt =====
-- Pins and the scopes of `pin_reload`.
use openrtc_python.Prelude.{
  ◌≡◌, refl, ◌∙◌, ℕ, false, ◌||◌, List, [], ◌∷◌, ◌==◌, if◌then◌else◌, arith, Bool-cases, inl, inr,
}
use openrtc_python.Prelude.Outcome.{Outcome}
use openrtc_python.Reload.{is_pinned, pin, unpin, pin_reload}

is_pinned-pin :
    (s x : ℕ) (pins : List ℕ) → is_pinned x (pin s pins) ≡ ((s == x) || is_pinned x pins)
unfolding pin is_pinned
is_pinned-pin s x pins = elim (Bool-cases (is_pinned s pins)) [
  | inl there ↦ elim (Bool-cases (s == x)) [
    | inl same ↦ ground (arith, there, same)
    | inr different ↦ ground (arith, there, different)
  ]
  | inr new ↦ elim (Bool-cases (s == x)) [
    | inl same ↦ ground (arith, new, same)
    | inr different ↦ ground (arith, new, different)
  ]
]

is_pinned-unpin :
    (s x : ℕ) (pins : List ℕ)
    → is_pinned x (unpin s pins) ≡ (if s == x then false else is_pinned x pins)
unfolding unpin is_pinned
is_pinned-unpin s x [] = ground arith
is_pinned-unpin s x (p ∷ pins) = ground (arith, is_pinned-unpin s x pins)

-- In a scope of `pin_reload` the session is pinned, with those that were pinned before. After the
-- scope, whether its body raised or not, other sessions are as the body left them, and the session is
-- not pinned, not even if it was pinned before: a scope inside another one, or inside an explicit pin,
-- ends that pin early.
pub pin_reload-is_pinned :
    {A : Type 0} (s x : ℕ) (body : List ℕ → Outcome A × List ℕ) (pins : List ℕ)
    → (is_pinned x (pin s pins) ≡ ((s == x) || is_pinned x pins))
      × (is_pinned s (pin_reload s body pins).1 ≡ false)
      × (is_pinned x (pin_reload s body pins).1
          ≡ (if s == x then false else is_pinned x (body (pin s pins)).1))
      × ((pin_reload s body pins).0 ≡ (body (pin s pins)).0)
unfolding pin_reload
pin_reload-is_pinned s x body pins =
    let after = (body (pin s pins)).1 in
    (
      is_pinned-pin s x pins,
      is_pinned-unpin s s after ∙ ground arith,
      is_pinned-unpin s x after,
      refl,
    )
