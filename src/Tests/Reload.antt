-- ===== src/Tests/Reload.antt =====
-- A worker with two agents in one file, whose session fails to update.
use openrtc_python.Prelude.{
  ◌+◌, List, ℕ, ◌≡◌, refl, Bool, true, false, some, [], ◌∷◌, ◌++◌, ◌==◌, if◌then◌else◌, arith,
}
use openrtc_python.Prelude.Text.{Text, codes}
use openrtc_python.Prelude.Outcome.{Outcome, ret, raise, runtime_error, other_error}
use openrtc_python.Prelude.Dict.{put}
use openrtc_python.Watcher.{FileChange, modified}
use openrtc_python.Reload.{Livekit, World, Attempt, reload_agent_module, rebind_agent, on_change}
use openrtc_python.Reload.Rebind.{IsUpdate, Rebound, rebind_agent-Rebound}
use openrtc_python.Reload.Module.{Leaves, reload_agent_module-Leaves}
use openrtc_python.Reload.Caught.{IsCaught, Executes}
use openrtc_python.Reload.Coordinator.{reported, expected, names_at, on_change-reported}

-- The class of each session's agent; the update of session 2 raises.
abbrev fails : ℕ → Bool
fails s = s == 2

abbrev set_class : ℕ → ℕ → (ℕ → ℕ) → ℕ → ℕ
set_class s c live x = if s == x then c else live x

abbrev update : ℕ → ℕ → (ℕ → ℕ) → Outcome (Unit {0}) × (ℕ → ℕ)
update s c live = if fails s then (raise runtime_error, live) else (ret tt, set_class s c live)

abbrev livekit : Livekit
livekit = record { Live = ℕ → ℕ; current_agent = λ s live. live s; update_agent = update }

livekit-IsUpdate : IsUpdate livekit fails
livekit-IsUpdate = record {
  sets = λ s c live h. (rw h refl, rw h (ground arith));
  error = λ s c live. runtime_error;
  raises = λ s c live h. (rw h refl, refl);
  keeps = λ s c x live h. keeps s c x live h;
}
  where
    keeps : (s c x : ℕ) (live : ℕ → ℕ) → (s == x) ≡ false → (update s c live).1 x ≡ live x
    keeps s c x live h = ground arith

-- The code imports a module, and the first run of it alone ends.
abbrev attempts : ℕ → Text → Attempt
attempts n path = record {
  read_text = ret tt;
  compile = ret tt;
  has_spec = true;
  new_module = 50 + n;
  execute =
      λ modules. (if n == 0 then ret 9 else raise other_error, put (codes "helpers") 60 modules);
}

attempts-IsCaught : (n : ℕ) (path : Text) → IsCaught (attempts n path)
attempts-IsCaught n path = record {
  reads = tt;
  compiles = tt;
  executes = λ modules. executes (n == 0);
}
  where
    executes : (b : Bool) → Executes (if b then ret 9 else raise other_error)
    executes true = tt
    executes false = refl

abbrev world : World livekit
world = record {
  agents =
      (codes "sales", record { agent_cls = 4; source_path = some (codes "/app/sales.py") })
      ∷ (codes "support", record { agent_cls = 5; source_path = some (codes "/app/sales.py") })
      ∷ [];
  live = λ s. 4;
  modules = (codes "sales", 40) ∷ [];
  reports = [];
  kept = [];
}

abbrev edits : List FileChange
edits = record { path = codes "/app/sales.py"; change_type = modified } ∷ []

reload_agent_module-Leaves_example :
    Leaves
      (codes "sales")
      (attempts 1 (codes "/app/sales.py"))
      world.modules
      (codes "sales")
      (reload_agent_module (codes "sales") (attempts 1 (codes "/app/sales.py")) world.modules)
reload_agent_module-Leaves_example =
    reload_agent_module-Leaves (codes "sales") (attempts 1 (codes "/app/sales.py")) world.modules
      (codes "sales")

-- Session 1 has the old class, session 2 fails, session 3 is pinned.
rebind_agent-Rebound_example :
    Rebound livekit fails livekit-IsUpdate 9
      (λ s. s == 3)
      (1 ∷ 2 ∷ 3 ∷ [])
      (λ s. 4)
      1
      (rebind_agent livekit 4 9 (λ s. s == 3) (1 ∷ 2 ∷ 3 ∷ []) (λ s. 4))
rebind_agent-Rebound_example =
    rebind_agent-Rebound livekit fails livekit-IsUpdate 4 9 (λ s. s == 3) (1 ∷ 2 ∷ 3 ∷ []) (λ s. 4)
      1 refl refl

-- The first reload of the file succeeds for one agent, the second fails for the other.
on_change-reported_example :
    let (result, after) =
      on_change livekit (λ path. codes "sales") attempts (λ s. false) [] edits world in
    (result ≡ ret tt)
    × (reported livekit fails livekit-IsUpdate
          (λ path. codes "sales")
          attempts
          attempts-IsCaught
          (λ s. false)
          []
          after
        ≡ [] ++ expected (λ path. names_at path world.agents) edits)
on_change-reported_example =
    on_change-reported livekit fails livekit-IsUpdate (λ path. codes "sales") attempts
      attempts-IsCaught (λ s. false) [] edits world
