-- ===== src/CoroutinePool/Memory.antt =====
-- The worker's memory watermarks: `_memory_watermark_action`, `_check_memory_once` and the loop of
-- `_monitor_memory`. Readings and watermarks are in bytes, where the source divides by 2^20 first.
use mathlib.Core.List.{append-nil}
use openrtc_python.Prelude.{
  ℕ, ◌≡◌, refl, Bool, true, false, ◌&&◌, Option, none, some, List, [], ◌∷◌, ◌++◌, arith, ltb, leb,
  if◌then◌else◌, length, sym,
}

pub data Watermark : Type 0 where
  ok warn limit : Watermark

unfoldable pub memory_watermark_action : ℕ → ℕ → ℕ → Watermark
memory_watermark_action rss warn_at limit_at =
    if ltb 0 limit_at && leb limit_at rss
    then limit
    else if ltb 0 warn_at && leb warn_at rss
    then warn
    else ok

pub record Monitor : Type 0 where
  pub warn_at : ℕ
  pub limit_at : ℕ
  pub warned : Bool
  -- the readings that were logged as a warning, and those given to `on_memory_limit_exceeded`
  pub warnings : List ℕ
  pub exceeded : List ℕ

abbrev on_action : ℕ → Watermark → Monitor → Bool × Monitor
on_action rss limit m = (true, record m { exceeded = m.exceeded ++ rss ∷ [] })
on_action rss warn m =
    (false, if m.warned then m else record m { warned = true; warnings = m.warnings ++ rss ∷ [] })
on_action rss ok m = (false, record m { warned = false })

-- `none` where the platform gives no reading.
unfoldable pub check_memory_once : Option ℕ → Monitor → Bool × Monitor
check_memory_once none m = (false, m)
check_memory_once (some rss) m = on_action rss (memory_watermark_action rss m.warn_at m.limit_at) m

-- One sample after another, until a limit trips. `true` where it did.
unfoldable pub monitor_memory : List (Option ℕ) → Monitor → Bool × Monitor
monitor_memory [] m = (false, m)
monitor_memory (sample ∷ samples) m =
    let rest = monitor_memory samples (check_memory_once sample m).1 in
    if (check_memory_once sample m).0 then (true, (check_memory_once sample m).1) else rest

-- A reading in the limit band, where one is armed.
abbrev pub over_limit : ℕ → Option ℕ → Bool
over_limit limit_at none = false
over_limit limit_at (some rss) = ltb 0 limit_at && leb limit_at rss

abbrev pub first_over : ℕ → List (Option ℕ) → List ℕ
first_over limit_at [] = []
first_over limit_at (none ∷ samples) = first_over limit_at samples
first_over limit_at (some rss ∷ samples) =
    let rest = first_over limit_at samples in
    if over_limit limit_at (some rss) then rss ∷ [] else rest

check_memory_once-parts :
    (sample : Option ℕ) (m : Monitor)
    → let (tripped, after) = check_memory_once sample m in
      (tripped ≡ over_limit m.limit_at sample)
      × (after.limit_at ≡ m.limit_at)
      × (after.exceeded ≡ (
          if over_limit m.limit_at sample
          then m.exceeded ++ first_over m.limit_at (sample ∷ [])
          else m.exceeded))
unfolding check_memory_once memory_watermark_action
check_memory_once-parts none m = ground arith
check_memory_once-parts (some rss) m = ground arith

-- The monitor stops exactly when a reading reaches an armed limit, and calls the supervisor for the
-- first such reading alone; without one it never calls it, and watches all samples.
pub monitor_memory-first_over :
    (samples : List (Option ℕ)) (m : Monitor)
    → let (tripped, after) = monitor_memory samples m in
      (tripped ≡ ltb 0 (length (first_over m.limit_at samples)))
      × (after.exceeded ≡ m.exceeded ++ first_over m.limit_at samples)
unfolding monitor_memory
monitor_memory-first_over [] m = (refl, sym (append-nil m.exceeded))
monitor_memory-first_over (none ∷ samples) m = ground (
  arith,
  check_memory_once-parts none m,
  monitor_memory-first_over samples (check_memory_once none m).1,
)
monitor_memory-first_over (some rss ∷ samples) m = ground (
  arith,
  check_memory_once-parts (some rss) m,
  monitor_memory-first_over samples (check_memory_once (some rss) m).1,
)
