-- ===== src/Membership.antt =====
-- core/membership.py: signed pool membership. HMAC-SHA256 over the canonical message is a parameter,
-- as is the JSON text of a tuple; times are whole numbers of ticks.
pub mod Verify
use openrtc_python.Prelude.{
  ℕ, ◌+◌, Bool, true, false, not, ◌||◌, Option, none, some, List, [], ◌∷◌, all, ltb, if◌then◌else◌,
}
use openrtc_python.Prelude.Text.{Text, text_eq}
use openrtc_python.Prelude.Outcome.{
  Outcome, ret, raise, Exc, value_error, type_error, membership_error, ◌>>=◌, ◌>>◌,
}

-- `hmac.new(secret, message, sha256).hexdigest()`, and `json.dumps` of the three fields.
pub record Crypto : Type 0 where
  pub digest : Text → Text → Text
  pub dumps : Text → Text → ℕ → Text

pub record Claim : Type 0 where
  pub version : Text
  pub worker_id : Text
  pub timestamp : ℕ

pub record Verifier : Type 0 where
  pub secrets : List Text
  pub expected_version : Option Text
  pub max_age : ℕ

abbrev pub is_ascii : Text → Bool
is_ascii = all (λ c. ltb c 128)

-- `hmac.compare_digest` of two texts: a `TypeError` unless both are ASCII.
unfoldable pub compare_digest : Text → Text → Outcome Bool
compare_digest a b =
    if not (is_ascii a) || not (is_ascii b) then raise type_error else ret (text_eq a b)

unfoldable pub new_verifier : List Text → Option Text → ℕ → Outcome Verifier
new_verifier [] expected_version max_age = raise value_error
new_verifier (s ∷ secrets) expected_version max_age =
    ret (record { secrets = s ∷ secrets; expected_version = expected_version; max_age = max_age })

-- `self._expected_version is not None and version != self._expected_version`
abbrev pub wrong_version : Option Text → Text → Bool
wrong_version none version = false
wrong_version (some expected) version = not (text_eq version expected)

-- What `except MembershipError` makes of a verification.
caught : Outcome (Unit {0}) → Outcome Bool
caught (ret _) = ret true
caught (raise membership_error) = ret false
caught (raise e) = raise e

module _ (c : Crypto) where
  unfoldable pub sign_membership : Claim → Text → Text
  sign_membership m secret = c.digest secret (c.dumps m.version m.worker_id m.timestamp)

  -- `any(compare_digest(token, candidate) for ...)`
  unfoldable pub any_matches : Text → Claim → List Text → Outcome Bool
  any_matches token m [] = ret false
  any_matches token m (s ∷ secrets) =
      let rest = any_matches token m secrets in
      do same ← compare_digest token (sign_membership m s); if same then ret true else rest

  unfoldable pub check_signature : Text → Claim → List Text → Outcome (Unit {0})
  check_signature token m secrets = do
    found ← any_matches token m secrets
    if found then ret tt else raise membership_error

  -- `age > max_age` and `age < -max_age` without a negative age.
  unfoldable pub verify : Verifier → ℕ → Text → Claim → Outcome (Unit {0})
  verify v now token m =
      if wrong_version v.expected_version m.version
      then raise membership_error
      else if ltb (m.timestamp + v.max_age) now
      then raise membership_error
      else if ltb (now + v.max_age) m.timestamp
      then raise membership_error
      else check_signature token m v.secrets

  unfoldable pub is_valid : Verifier → ℕ → Text → Claim → Outcome Bool
  unfolding caught
  is_valid v now token m = caught (verify v now token m)
