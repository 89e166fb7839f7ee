-- ===== src/Reload/Module.antt =====
-- `reload_agent_module`: what a reload leaves of the loaded modules.
use openrtc_python.Prelude.{
  sym, ℕ, Bool, true, false, ◌&&◌, ◌⊎◌, ◌≡◌, refl, Option, none, some, if◌then◌else◌, inl, inr,
  Bool-cases,
}
use openrtc_python.Prelude.Text.{Text, text_eq}
use openrtc_python.Prelude.Dict.{Dict, get, put, get-put, get-remove}
use openrtc_python.Prelude.Outcome.{
  Exc, Outcome, ret, raise, is_ret, os_error, syntax_error, is_exception,
}
use openrtc_python.Reload.{
  Attempt, ReloadResult, reload_agent_module, restore, executed, install, compiled, was_read,
}

get-restore :
    (name m : Text) (modules : Dict ℕ) (old : Option ℕ)
    → get m (restore name old modules) ≡ (if text_eq name m then old else get m modules)
unfolding restore
get-restore name m modules none = get-remove name m modules
get-restore name m modules (some o) = get-put name m o modules

-- Whether the module's code is run at all.
unfoldable pub runs : Attempt → Bool
runs a = is_ret a.read_text && (is_ret a.compile && a.has_spec)

-- What the module's code does when it is run, with the new module in place.
abbrev pub ran : Text → Attempt → Dict ℕ → Outcome ℕ × Dict ℕ
ran name a modules = a.execute (put name a.new_module modules)

-- What a reload gives and leaves, at the module `m`.
unfoldable pub Leaves : Text → Attempt → Dict ℕ → Text → Outcome ReloadResult × Dict ℕ → Type 0
Leaves name a modules m (ret none, after) =
    ((runs a ≡ false) × (after ≡ modules))
    ⊎ ((runs a ≡ true)
        × ((e : Exc) × ((ran name a modules).0 ≡ raise e)
            × (is_exception e ≡ true)
            × (get m after
                ≡ (if text_eq name m then get name modules else get m (ran name a modules).1))))
Leaves name a modules m (ret (some new_cls), after) =
    (runs a ≡ true) × ((ran name a modules).0 ≡ ret new_cls) × (after ≡ (ran name a modules).1)
Leaves name a modules m (raise e, after) =
    ((runs a ≡ false) × (after ≡ modules))
    ⊎ ((runs a ≡ true)
        × ((ran name a modules).0 ≡ raise e)
        × (is_exception e ≡ false)
        × (after ≡ (ran name a modules).1))

executed-Leaves :
    (name : Text) (a : Attempt) (modules : Dict ℕ) (m : Text) (o : Outcome ℕ) (left : Dict ℕ)
    → runs a ≡ true
    → (ran name a modules).0 ≡ o
    → (ran name a modules).1 ≡ left
    → Leaves name a modules m (executed name (get name modules) (o, left))
unfolding executed Leaves
executed-Leaves name a modules m (ret new_cls) left r e l = (r, e, sym l)
executed-Leaves name a modules m (raise x) left r e l = elim (Bool-cases (is_exception x)) [
  | inl caught ↦
      rw caught (inr (r, (x, e, caught, rw l (get-restore name m left (get name modules)))))
  | inr through ↦ rw through (inr (r, e, through, sym l))
]

-- The code runs if the file is read and compiles, and its import spec is found. A reload that fails
-- before leaves the loaded modules as they were. Where the code raises an `Exception`, the reload
-- fails, the reloaded module is the one from before, or absent if there was none, and every other
-- module is as the code left it: what else it imported or replaced is not rolled back. Where it ends,
-- the reload gives the class that it found and leaves the modules as the code did. Any other
-- exception goes through, with no roll-back.
pub reload_agent_module-Leaves :
    (name : Text) (a : Attempt) (modules : Dict ℕ) (m : Text)
    → Leaves name a modules m (reload_agent_module name a modules)
unfolding reload_agent_module was_read compiled install Leaves runs
reload_agent_module-Leaves name a modules m = read a.read_text refl
  where
    found :
        (b : Bool)
        → a.has_spec ≡ b
        → a.read_text ≡ ret tt
        → a.compile ≡ ret tt
        → Leaves name a modules m (
            if b
            then executed name (get name modules) (ran name a modules)
            else (ret none, modules))
    found true e r c = executed-Leaves name a modules m _ _ (rw (r, c) e) refl refl
    found false e r c = inl (rw (r, c) e, refl)

    compile' :
        (o : Outcome (Unit {0}))
        → a.compile ≡ o
        → a.read_text ≡ ret tt
        → Leaves name a modules m (compiled name a modules o)
    compile' (ret _) e r = found a.has_spec refl r e
    compile' (raise syntax_error) e r = inl (rw (r, e) refl, refl)
    compile' (raise x) e r = inl (rw (r, e) refl, refl)

    read :
        (o : Outcome (Unit {0}))
        → a.read_text ≡ o
        → Leaves name a modules m (was_read name a modules o)
    read (ret _) e = compile' a.compile refl e
    read (raise os_error) e = inl (rw e refl, refl)
    read (raise x) e = inl (rw e refl, refl)
