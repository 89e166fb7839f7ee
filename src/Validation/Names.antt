-- ===== src/Validation/Names.antt =====
-- `require_agent_name` and `require_tenant_id`: the text that an accepted name is.
use mathlib.Core.List.{reverse, reverse-append, reverse-reverse}
use openrtc_python.Prelude.{
  ℕ, ◌≤◌, ◌≡◌, refl, Bool, true, false, ◌&&◌, List, [], ◌∷◌, ◌++◌, ◌∙◌, arith, length, all, ◌⊎◌,
}
use openrtc_python.Prelude.Text.{Text, strip, lstrip, is_space, is_empty}
use openrtc_python.Prelude.Outcome.{ret, raise, value_error}
use openrtc_python.Validation.{
  is_name_char, full_match, agent_name_max, tenant_id_max, require_token, require_agent_name,
  require_tenant_id,
}

-- One to `max_length` characters, all of them letters, digits, dashes or underscores.
pub record IsToken (max_length : ℕ) (name : Text) : Type 0 where
  pub some_char : is_empty name ≡ false
  pub short : length name ≤ max_length
  pub charset : all is_name_char name ≡ true

name_char-not-space : (c : ℕ) → is_name_char c ≡ true → is_space c ≡ false
unfolding is_name_char is_space
name_char-not-space c h = ground arith

all-append {ℓ} :
    {A : Type ℓ} (p : A → Bool) (xs ys : List A) → all p (xs ++ ys) ≡ (all p xs && all p ys)
all-append p [] ys = refl
all-append p (x ∷ xs) ys = ground (arith, all-append p xs ys)

all-reverse {ℓ} : {A : Type ℓ} (p : A → Bool) (xs : List A) → all p (reverse xs) ≡ all p xs
all-reverse p [] = refl
all-reverse p (x ∷ xs) =
    rw (reverse-append (x ∷ []) xs)
      (rw (all-append p (reverse xs) (x ∷ [])) (ground (arith, all-reverse p xs)))

lstrip-of_all : (s : Text) → all is_name_char s ≡ true → lstrip s ≡ s
unfolding lstrip
lstrip-of_all [] h = refl
lstrip-of_all (c ∷ s) h = ground (arith, name_char-not-space c)

pub strip-of_all : (s : Text) → all is_name_char s ≡ true → strip s ≡ s
unfolding strip
strip-of_all s h =
    rw (lstrip-of_all s h)
      (rw (lstrip-of_all (reverse s) (all-reverse is_name_char s ∙ h)) (reverse-reverse s))

require_token-ret :
    (m : ℕ) (value name : Text)
    → require_token m value ≡ ret name
    → (name ≡ strip value) × IsToken m name
unfolding require_token full_match
require_token-ret m value name h = ground arith

-- The check accepts a token as it stands.
require_token_of : (m : ℕ) (name : Text) → IsToken m name → require_token m name ≡ ret name
unfolding require_token full_match
require_token_of m name t = rw (strip-of_all name t.charset) (ground arith)

-- An accepted agent name is the argument without its outer white space: 1 to 64 letters, digits,
-- dashes or underscores. Both checks accept that name unchanged, so a registered name is also a
-- tenant id, and a second check changes nothing.
pub require_agent_name-IsToken :
    (value name : Text)
    → require_agent_name value ≡ ret name
    → (name ≡ strip value)
      × IsToken agent_name_max name
      × (require_agent_name name ≡ ret name)
      × (require_tenant_id name ≡ ret name)
unfolding require_agent_name require_tenant_id
require_agent_name-IsToken value name h =
    let (e, t) = require_token-ret agent_name_max value name h in
    let wide : IsToken tenant_id_max name = record {
      some_char = t.some_char;
      short = omega (arith, t.short);
      charset = t.charset;
    } in
    (e, t, require_token_of agent_name_max name t, require_token_of tenant_id_max name wide)

pub require_tenant_id-IsToken :
    (value name : Text)
    → require_tenant_id value ≡ ret name
    → (name ≡ strip value) × IsToken tenant_id_max name
unfolding require_tenant_id
require_tenant_id-IsToken value name h = require_token-ret tenant_id_max value name h

-- A tenant id is accepted exactly when it is, without its outer white space, a token of at most 128
-- characters, and then that token is the result; every other text raises `ValueError`.
pub require_tenant_id_complete :
    (value : Text)
    → (IsToken tenant_id_max (strip value) × (require_tenant_id value ≡ ret (strip value)))
      ⊎ ((¬ IsToken tenant_id_max (strip value)) × (require_tenant_id value ≡ raise value_error))
unfolding require_tenant_id require_token full_match
require_tenant_id_complete value = ground arith
