-- ===== src/Reload/Rebind.antt =====
-- `rebind_agent`: which live sessions get the new class.
use openrtc_python.Prelude.{
  ℕ, ◌+◌, ◌≤◌, ◌≡◌, refl, Bool, true, false, not, ◌&&◌, List, [], ◌∷◌, arith, ◌==◌, if◌then◌else◌,
  length, Bool-cases, inl, inr,
}
use openrtc_python.Prelude.Outcome.{Outcome, Exc, ret, raise, is_exception}
use openrtc_python.Reload.{
  Livekit, tried, rebind_one, add_count, rebind_rest, rebind_sessions, rebind_agent,
}

unfoldable pub member : ℕ → List ℕ → Bool
member x [] = false
member x (s ∷ ss) = if s == x then true else member x ss

-- What livekit promises of `update_agent`: it raises for some sessions, an `Exception`; for the
-- others the session then has an agent of that class. Other sessions keep theirs.
pub record IsUpdate (l : Livekit) (fails : ℕ → Bool) : Type 0 where
  pub sets :
      (s c : ℕ) (live : l.Live)
      → fails s ≡ false
      → ((l.update_agent s c live).0 ≡ ret tt) × (l.current_agent s (l.update_agent s c live).1 ≡ c)
  pub error : (s c : ℕ) (live : l.Live) → Exc
  pub raises :
      (s c : ℕ) (live : l.Live)
      → fails s ≡ true
      → ((l.update_agent s c live).0 ≡ raise (error s c live))
        × (is_exception (error s c live) ≡ true)
  pub keeps :
      (s c x : ℕ) (live : l.Live)
      → (s == x) ≡ false
      → l.current_agent x (l.update_agent s c live).1 ≡ l.current_agent x live

module _ (l : Livekit) (fails : ℕ → Bool) (u : IsUpdate l fails) where
  open l use {Live, current_agent, update_agent}

  -- What a re-bind of these sessions leaves: it returns, and says of each session `x` without a
  -- failing update which class it has.
  abbrev pub Rebound : ℕ → (ℕ → Bool) → List ℕ → Live → ℕ → Outcome ℕ × Live → Type 0
  Rebound new_cls pinned sessions live x r =
      (n : ℕ) × (r.0 ≡ ret n)
      × (n ≤ length sessions)
      × (current_agent x r.1
          ≡ (if member x sessions && not (pinned x) then new_cls else current_agent x live))

  rebind_one-result :
      (new_cls : ℕ) (pinned : ℕ → Bool) (s : ℕ) (live : Live) (x : ℕ)
      → fails x ≡ false
      → let (result, after) = rebind_one l new_cls pinned s live in
        (n : ℕ) × (result ≡ ret n)
        × (n ≤ 1)
        × (current_agent x after
            ≡ (if (s == x) && not (pinned x) then new_cls else current_agent x live))
  unfolding rebind_one tried
  rebind_one-result new_cls pinned s live x ok = elim (Bool-cases (pinned s)) [
    | inl out ↦ (0, ground arith, omega arith, ground arith)
    | inr in_scope ↦ elim (Bool-cases (current_agent s live == new_cls)) [
      | inl already ↦ (0, ground arith, omega arith, ground arith)
      | inr older ↦ elim (Bool-cases (fails s)) [
        | inl failing ↦
            let r = u.raises s new_cls live failing in
            (0, ground (arith, r), omega arith, ground (arith, r, u.keeps s new_cls x live))
        | inr fine ↦
            let r = u.sets s new_cls live fine in
            (1, ground (arith, r), omega arith, ground (arith, r, u.keeps s new_cls x live))
      ]
    ]
  ]

  rebind_sessions-Rebound :
      (new_cls : ℕ) (pinned : ℕ → Bool) (sessions : List ℕ) (live : Live) (x : ℕ)
      → fails x ≡ false
      → Rebound new_cls pinned sessions live x (rebind_sessions l new_cls pinned sessions live)
  unfolding rebind_sessions rebind_rest add_count member
  rebind_sessions-Rebound new_cls pinned [] live x ok = (0, refl, omega arith, refl)
  rebind_sessions-Rebound new_cls pinned (s ∷ ss) live x ok =
      let (n, first, small, one) = rebind_one-result new_cls pinned s live x ok in
      let (m, rest, bound, more) =
        rebind_sessions-Rebound new_cls pinned ss (rebind_one l new_cls pinned s live).1 x ok in
      (
        n + m,
        ground (arith, first, rest),
        omega (arith, small, bound),
        ground (arith, first, rest, one, more),
      )

  -- Whatever sessions fail to update, a re-bind to another class returns, with a count no greater
  -- than the number of sessions; and each session that does not fail itself has the new class
  -- exactly if it is one of the agent's and not pinned, and else the class that it had.
  pub rebind_agent-Rebound :
      (old_cls new_cls : ℕ) (pinned : ℕ → Bool) (sessions : List ℕ) (live : Live) (x : ℕ)
      → (new_cls == old_cls) ≡ false
      → fails x ≡ false
      → Rebound new_cls pinned sessions live x (rebind_agent l old_cls new_cls pinned sessions live)
  unfolding rebind_agent
  rebind_agent-Rebound old_cls new_cls pinned sessions live x other ok =
      rw other (rebind_sessions-Rebound new_cls pinned sessions live x ok)

  rebind_one-ret :
      (new_cls : ℕ) (pinned : ℕ → Bool) (s : ℕ) (live : Live)
      → (n : ℕ) × ((rebind_one l new_cls pinned s live).0 ≡ ret n)
  unfolding rebind_one tried
  rebind_one-ret new_cls pinned s live = elim (Bool-cases (pinned s)) [
    | inl out ↦ (0, ground arith)
    | inr in_scope ↦ elim (Bool-cases (current_agent s live == new_cls)) [
      | inl already ↦ (0, ground arith)
      | inr older ↦ elim (Bool-cases (fails s)) [
        | inl failing ↦ (0, ground (arith, u.raises s new_cls live failing))
        | inr fine ↦ (1, ground (arith, u.sets s new_cls live fine))
      ]
    ]
  ]

  rebind_sessions-ret :
      (new_cls : ℕ) (pinned : ℕ → Bool) (sessions : List ℕ) (live : Live)
      → (n : ℕ) × ((rebind_sessions l new_cls pinned sessions live).0 ≡ ret n)
  unfolding rebind_sessions rebind_rest add_count
  rebind_sessions-ret new_cls pinned [] live = (0, refl)
  rebind_sessions-ret new_cls pinned (s ∷ ss) live =
      let (n, first) = rebind_one-ret new_cls pinned s live in
      let (m, rest) =
        rebind_sessions-ret new_cls pinned ss (rebind_one l new_cls pinned s live).1 in
      (n + m, ground (arith, first, rest))

  pub rebind_agent-ret :
      (old_cls new_cls : ℕ) (pinned : ℕ → Bool) (sessions : List ℕ) (live : Live)
      → (n : ℕ) × ((rebind_agent l old_cls new_cls pinned sessions live).0 ≡ ret n)
  unfolding rebind_agent
  rebind_agent-ret old_cls new_cls pinned sessions live = elim (Bool-cases (new_cls == old_cls)) [
    | inl same ↦ (0, ground arith)
    | inr other ↦ rw other (rebind_sessions-ret new_cls pinned sessions live)
  ]
