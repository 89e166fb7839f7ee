-- ===== src/Serialization/Loader.antt =====
-- `_load_module_from_path`: which modules are loaded after it.
use openrtc_python.Prelude.{
  ap, sym, if◌then◌else◌, ◌≡◌, refl, ℕ, Option, none, some, ◌⊎◌, Bool-cases, inl, inr,
}
use openrtc_python.Prelude.Text.{Text}
use openrtc_python.Prelude.Dict.{Dict, get, put, remove}
use openrtc_python.Prelude.Outcome.{Outcome, ret, raise, is_exception}
use openrtc_python.Serialization.{
  Python, load_module_from_path, load_new, ran, from_existing, is_loaded_from,
}

-- What the code of a new module does when it is run, with the module in place.
abbrev pub code_of : Python → Text → ℕ → Dict ℕ → Outcome (Unit {0}) × Dict ℕ
code_of py name m modules = py.exec_module m (put name m modules)

-- What a load gives and leaves.
unfoldable pub Loaded : Python → Text → Text → Dict ℕ → Outcome ℕ × Dict ℕ → Type 0
Loaded py name path modules (ret m, after) =
    ((after ≡ modules) × (get name modules ≡ some m))
    ⊎ ((py.spec name path ≡ some m) × (code_of py name m modules ≡ (ret tt, after)))
Loaded py name path modules (raise e, after) =
    ((py.spec name path ≡ none) × (after ≡ modules))
    ⊎ ((m : ℕ) × (py.spec name path ≡ some m)
        × ((code_of py name m modules).0 ≡ raise e)
        × (after ≡ (
            if is_exception e
            then remove name (code_of py name m modules).1
            else (code_of py name m modules).1)))

ran-Loaded :
    (py : Python) (name path : Text) (m : ℕ) (modules : Dict ℕ) (o : Outcome (Unit {0}))
    (left : Dict ℕ)
    → py.spec name path ≡ some m
    → code_of py name m modules ≡ (o, left)
    → Loaded py name path modules (ran py name m (o, left))
unfolding ran Loaded
ran-Loaded py name path m modules (ret _) left s e = inr (s, e)
ran-Loaded py name path m modules (raise x) left s e =
    let at : (code_of py name m modules).1 ≡ left = ap (λ o. o.1) e in
    elim (Bool-cases (is_exception x)) [
      | inl caught ↦ rw caught (inr (m, s, ap (λ o. o.0) e, rw caught (ap (remove name) (sym at))))
      | inr through ↦ rw through (inr (m, s, ap (λ o. o.0) e, rw through (sym at)))
    ]

load_new-Loaded :
    (py : Python) (name path : Text) (modules : Dict ℕ) (s : Option ℕ)
    → py.spec name path ≡ s
    → Loaded py name path modules (load_new py name modules s)
unfolding load_new Loaded
load_new-Loaded py name path modules none e = inl (e, refl)
load_new-Loaded py name path modules (some m) e = ran-Loaded py name path m modules _ _ e refl

-- A load that succeeds gives the module that was there, and changes nothing, or a new one whose code
-- ran to its end, and leaves what the code left. One that fails had no spec, and changes nothing, or
-- its code raised: then the modules are as the code left them, and where it raised an `Exception` the
-- half-loaded module itself is gone.
pub load_module_from_path-Loaded :
    (py : Python) (name path : Text) (modules : Dict ℕ)
    → Loaded py name path modules (load_module_from_path py name path modules)
unfolding load_module_from_path from_existing Loaded
load_module_from_path-Loaded py name path modules = go (get name modules) refl
  where
    load : Loaded py name path modules (load_new py name modules (py.spec name path))
    load = load_new-Loaded py name path modules (py.spec name path) refl

    go :
        (old : Option ℕ)
        → get name modules ≡ old
        → Loaded py name path modules (from_existing py name path modules old)
    go none e = load
    go (some existing) e = elim (Bool-cases (is_loaded_from (py.file_of existing) path)) [
      | inl same ↦ rw same (inl (refl, e))
      | inr another ↦ rw another load
    ]
