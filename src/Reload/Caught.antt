-- ===== src/Reload/Caught.antt =====
-- `reload_agent_module` returns, whatever it reads, if what raises is of the classes it catches.

use openrtc_python.Prelude.{Option, ℕ, ◌≡◌, refl, true, none, some, Bool-cases, inl, inr}
use openrtc_python.Prelude.Text.{Text}
use openrtc_python.Prelude.Dict.{get, put, Dict}
use openrtc_python.Prelude.Outcome.{Outcome, ret, raise, os_error, syntax_error, is_exception}
use openrtc_python.Reload.{
  Attempt, ReloadResult, reload_agent_module, was_read, compiled, install, executed,
}

-- A reading that raises what the reloader catches.
abbrev pub Reads : Outcome (Unit {0}) → Type 0
Reads (ret _) = Unit
Reads (raise os_error) = Unit
Reads (raise e) = ⊥

abbrev pub Compiles : Outcome (Unit {0}) → Type 0
Compiles (ret _) = Unit
Compiles (raise syntax_error) = Unit
Compiles (raise e) = ⊥

abbrev pub Executes : Outcome ℕ → Type 0
Executes (ret c) = Unit
Executes (raise e) = is_exception e ≡ true

-- Reading raises `OSError` alone, compiling `SyntaxError` alone, and the module's code an
-- `Exception`.
pub record IsCaught (a : Attempt) : Type 0 where
  pub reads : Reads a.read_text
  pub compiles : Compiles a.compile
  pub executes : (modules : Dict ℕ) → Executes (a.execute modules).0

executed-ret :
    (m : Text) (old : Option ℕ) (o : Outcome ℕ × Dict ℕ)
    → Executes o.0
    → (r : ReloadResult) × ((executed m old o).0 ≡ ret r)
unfolding executed
executed-ret m old (ret c, after) x = (some c, refl)
executed-ret m old (raise e, after) x = rw x (none, refl)

install-ret :
    (m : Text) (a : Attempt) (modules : Dict ℕ)
    → ((loaded : Dict ℕ) → Executes (a.execute loaded).0)
    → (r : ReloadResult) × ((install m a modules).0 ≡ ret r)
unfolding install
install-ret m a modules x = elim (Bool-cases a.has_spec) [
  | inl found ↦
      let loaded = put m a.new_module modules in
      rw found (executed-ret m (get m modules) (a.execute loaded) (x loaded))
  | inr missing ↦ rw missing (none, refl)
]

pub reload_agent_module-ret :
    (m : Text) (a : Attempt) (modules : Dict ℕ)
    → IsCaught a
    → (r : ReloadResult) × ((reload_agent_module m a modules).0 ≡ ret r)
unfolding reload_agent_module was_read compiled
reload_agent_module-ret m a modules k = read a.read_text k.reads
  where
    compile' :
        (o : Outcome (Unit {0}))
        → Compiles o
        → (r : ReloadResult) × ((compiled m a modules o).0 ≡ ret r)
    compile' (ret _) c = install-ret m a modules k.executes
    compile' (raise syntax_error) c = (none, refl)
    compile' (raise e) c = elim c [ ]

    read :
        (o : Outcome (Unit {0}))
        → Reads o
        → (r : ReloadResult) × ((was_read m a modules o).0 ≡ ret r)
    read (ret _) c = compile' a.compile k.compiles
    read (raise os_error) c = (none, refl)
    read (raise e) c = elim c [ ]
