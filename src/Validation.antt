-- ===== src/Validation.antt =====
-- utils/validation.py: the checks on option values, agent names and tenant ids.
pub mod Names
use openrtc_python.Prelude.{
  ℕ, ◌≡◌, Bool, true, false, not, ◌&&◌, ◌||◌, List, [], ◌∷◌, length, all, ltb, leb, ◌==◌,
  if◌then◌else◌,
}
use openrtc_python.Prelude.Text.{Text, codes, strip, is_empty, text_eq}
use openrtc_python.Prelude.Outcome.{Outcome, ret, raise, Exc, value_error, type_error, ◌>>=◌}

-- A Python number that is no bool: an `int`, as a natural number or as `-(n + 1)`, or a `float`.
pub data Number (F : Type 0) : Type 0 where
  natural : ℕ → Number F
  negative : ℕ → Number F
  floating : F → Number F

-- An argument whose type the code checks.
pub data Argument (F : Type 0) : Type 0 where
  boolean : Bool → Argument F
  number : Number F → Argument F
  other : Argument F

unfoldable pub require_positive_int : {F : Type 0} → Argument F → Outcome ℕ
require_positive_int (boolean b) = raise type_error
require_positive_int (number (natural n)) = if ltb n 1 then raise value_error else ret n
require_positive_int (number (negative n)) = raise value_error
require_positive_int (number (floating x)) = raise type_error
require_positive_int other = raise type_error

-- `x < 0` of a `float`, and the conversion `float(n)`, are Python's.
unfoldable pub require_non_negative_number :
    {F : Type 0} → (F → Bool) → (ℕ → F) → Argument F → Outcome F
require_non_negative_number below_zero to_float (boolean b) = raise type_error
require_non_negative_number below_zero to_float (number (natural n)) = ret (to_float n)
require_non_negative_number below_zero to_float (number (negative n)) = raise value_error
require_non_negative_number below_zero to_float (number (floating x)) =
    if below_zero x then raise value_error else ret x
require_non_negative_number below_zero to_float other = raise type_error

pub data IsolationMode : Type 0 where
  coroutine process : IsolationMode

unfoldable pub validate_isolation : Text → Outcome Text
validate_isolation value =
    if text_eq value (codes "coroutine") || text_eq value (codes "process")
    then ret value
    else raise value_error

-- `[A-Za-z0-9_-]`
unfoldable pub is_name_char : ℕ → Bool
is_name_char c =
    (leb b'A' c && leb c b'Z')
    || (leb b'a' c && leb c b'z')
    || (leb b'0' c && leb c b'9')
    || c == b'_'
    || c == b'-'

-- `re.fullmatch("[A-Za-z0-9_-]+", s)`
unfoldable pub full_match : Text → Bool
unfolding is_name_char
full_match s = not (is_empty s) && all is_name_char s

abbrev pub agent_name_max : ℕ
agent_name_max = 64

abbrev pub tenant_id_max : ℕ
tenant_id_max = 128

abbrev pub default_tenant : Text
default_tenant = codes "default"

-- The two checks read alike, but for the longest length.
require_token : ℕ → Text → Outcome Text
require_token max_length value =
    let normalized = strip value in
    if is_empty normalized
    then raise value_error
    else if ltb max_length (length normalized) || not (full_match normalized)
    then raise value_error
    else ret normalized

unfoldable pub require_agent_name : Text → Outcome Text
unfolding require_token
require_agent_name value = require_token agent_name_max value

unfoldable pub require_tenant_id : Text → Outcome Text
unfolding require_token
require_tenant_id value = require_token tenant_id_max value
