-- ===== src/Prelude/Outcome.antt =====
-- What a Python call gives back: a value, or an exception.
use mathlib.Core.Path.{◌≡◌, refl}
use mathlib.Core.Bool.{Bool, true, false}
use mathlib.Core.Logic.{◌⊎◌, inl, inr}

-- The classes of exception that the code raises or tells apart.
pub data Exc : Type 0 where
  value_error type_error runtime_error key_error stop_iteration : Exc
  membership_error json_decode_error timeout_error other_error : Exc
  os_error module_not_found import_error attribute_error syntax_error : Exc
  cancelled_error base_exception : Exc

-- `isinstance(e, Exception)`: what `except Exception` catches.
abbrev pub is_exception : Exc → Bool
is_exception cancelled_error = false
is_exception base_exception = false
is_exception _ = true

pub data Outcome {ℓ} (A : Type ℓ) : Type ℓ where
  ret : A → Outcome A
  raise : Exc → Outcome A

infixl 5 ◌>>=◌ ◌>>◌
abbrev pub ◌>>=◌ {ℓ κ} : {A : Type ℓ} {B : Type κ} → Outcome A → (A → Outcome B) → Outcome B
ret a >>= f = f a
raise e >>= f = raise e

abbrev pub ◌>>◌ {ℓ} : {B : Type ℓ} → Outcome (Unit {0}) → Outcome B → Outcome B
m >> k = m >>= λ _. k

-- `o` returned a value.
abbrev pub Returns {ℓ} : {A : Type ℓ} → Outcome A → Type 0
Returns (ret a) = Unit
Returns (raise e) = ⊥

abbrev pub is_ret {ℓ} : {A : Type ℓ} → Outcome A → Bool
is_ret (ret a) = true
is_ret (raise e) = false

-- A sequence that returns went through a value of its first part.
pub >>=-ret {ℓ κ} :
    {A : Type ℓ} {B : Type κ} (m : Outcome A) (f : A → Outcome B) {b : B}
    → (m >>= f) ≡ ret b
    → (a : A) × (m ≡ ret a) × (f a ≡ ret b)
>>=-ret (ret a) f h = (a, refl, h)
>>=-ret (raise e) f h = cc

-- One that raises did so in its first part, or behind a value of it.
pub >>=-raise {ℓ κ} :
    {A : Type ℓ} {B : Type κ} (m : Outcome A) (f : A → Outcome B) {e : Exc}
    → (m >>= f) ≡ raise e
    → (m ≡ raise e) ⊎ ((a : A) × (m ≡ ret a) × (f a ≡ raise e))
>>=-raise (ret a) f h = inr (a, refl, h)
>>=-raise (raise e) f h = inl (cc)

pub Outcome-cases {ℓ} :
    {A : Type ℓ} (m : Outcome A) → ((a : A) × (m ≡ ret a)) ⊎ ((e : Exc) × (m ≡ raise e))
Outcome-cases (ret a) = inl (a, refl)
Outcome-cases (raise e) = inr (e, refl)

pub Returns-of {ℓ} : {A : Type ℓ} (m : Outcome A) (a : A) → m ≡ ret a → Returns m
Returns-of m a e = rw e tt

pub ret-injective {ℓ} : {A : Type ℓ} {a b : A} → ret a ≡ ret b → a ≡ b
ret-injective h = cc

pub raise-injective {ℓ} : {A : Type ℓ} {e x : Exc} → Path (Outcome A) (raise e) (raise x) → e ≡ x
raise-injective h = cc
