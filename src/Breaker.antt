-- ===== src/Breaker.antt =====
-- core/circuit_breaker.py: the per-tenant circuit breaker. Clock readings and durations are whole
-- numbers of ticks, and the failure ratio is a fraction, compared by cross multiplication. The
-- callback `on_state_change` is a log of its calls.
pub mod Tenant
pub mod Window
pub mod Interference
pub mod Cooldown
use openrtc_python.Prelude.{
  ℕ, ◌+◌, ◌*◌, Bool, true, false, not, Option, none, some, List, [], ◌∷◌, ◌++◌, length, count_if,
  ltb, leb, if◌then◌else◌,
}
use openrtc_python.Prelude.Text.{Text}
use openrtc_python.Prelude.Dict.{Dict, get, get_or, put, remove}

pub data Change : Type 0 where
  opened closed : Change

-- A session's end: when, and whether it succeeded.
abbrev pub SessionEnd : Type 0
SessionEnd = ℕ × Bool

pub record Config : Type 0 where
  pub ratio_num : ℕ
  pub ratio_den : ℕ
  pub min_samples : ℕ
  pub window : ℕ
  pub cooldown : ℕ

pub record Breaker : Type 0 where
  pub config : Config
  pub outcomes : Dict (List SessionEnd)
  pub open_until : Dict ℕ
  pub notified : List (Text × Change)

-- `while outcomes and outcomes[0][0] < now - window: outcomes.popleft()`
unfoldable pub prune : ℕ → ℕ → List SessionEnd → List SessionEnd
prune window now [] = []
prune window now ((at, ok) ∷ more) =
    if ltb (at + window) now then prune window now more else (at, ok) ∷ more

abbrev pub failures : List SessionEnd → ℕ
failures = count_if (λ e. not e.1)

-- `failures / total > failure_ratio`, once there are enough samples.
unfoldable pub trips : Config → List SessionEnd → Bool
trips c outcomes =
    if ltb (length outcomes) c.min_samples
    then false
    else ltb (c.ratio_num * length outcomes) (failures outcomes * c.ratio_den)

abbrev notify : Text → Change → Breaker → Breaker
notify tenant change b = record b { notified = b.notified ++ (tenant, change) ∷ [] }

-- The end of `record_outcome`, once the outcome is appended and the old ones are pruned.
open_if_tripped : ℕ → Text → List SessionEnd → Option ℕ → Breaker → Breaker
open_if_tripped now tenant recent (some until) b = b
open_if_tripped now tenant recent none b =
    if trips b.config recent
    then notify tenant opened (record b {
      open_until = put tenant (now + b.config.cooldown) b.open_until;
      outcomes = put tenant [] b.outcomes;
    })
    else b

unfoldable pub record_outcome : ℕ → Text → Bool → Breaker → Breaker
unfolding open_if_tripped
record_outcome now tenant success b =
    let recent = prune b.config.window now (get_or tenant [] b.outcomes ++ (now, success) ∷ []) in
    open_if_tripped now tenant recent (get tenant b.open_until)
      (record b { outcomes = put tenant recent b.outcomes })

recover : ℕ → Text → Option ℕ → Breaker → Bool × Breaker
recover now tenant none b = (false, b)
recover now tenant (some until) b =
    if leb until now
    then (false, notify tenant closed (record b { open_until = remove tenant b.open_until }))
    else (true, b)

unfoldable pub should_reject : ℕ → Text → Breaker → Bool × Breaker
unfolding recover
should_reject now tenant b = recover now tenant (get tenant b.open_until) b
