-- ===== src/Membership/Verify.antt =====
-- What `MembershipVerifier` accepts.
use openrtc_python.Prelude.{
  ℕ, ◌+◌, ◌≤◌, ◌≡◌, refl, Bool, true, false, not, ◌&&◌, ◌||◌, List, [], ◌∷◌, leb, arith,
}
use openrtc_python.Prelude.Text.{Text, text_eq, contains}
use openrtc_python.Prelude.Outcome.{ret, raise, type_error}
use openrtc_python.Membership.{
  Crypto, Claim, Verifier, is_ascii, compare_digest, wrong_version, sign_membership, any_matches,
  check_signature, verify, is_valid,
}

-- A hexadecimal digest is ASCII text.
abbrev pub HexDigests : Crypto → Type 0
HexDigests c = (secret message : Text) → is_ascii (c.digest secret message) ≡ true

module _ (c : Crypto) (hex : HexDigests c) where
  -- A signature of the claim under one of the secrets.
  abbrev pub signed_by_any : Text → Claim → List Text → Bool
  signed_by_any token m [] = false
  signed_by_any token m (s ∷ secrets) =
      text_eq token (sign_membership c m s) || signed_by_any token m secrets

  any_matches-ascii :
      (token : Text) (m : Claim) (secrets : List Text)
      → is_ascii token ≡ true
      → any_matches c token m secrets ≡ ret (signed_by_any token m secrets)
  unfolding any_matches compare_digest sign_membership
  any_matches-ascii token m [] a = refl
  any_matches-ascii token m (s ∷ secrets) a = ground (
    arith,
    any_matches-ascii token m secrets a,
    hex s (c.dumps m.version m.worker_id m.timestamp),
  )

  -- For an ASCII token the verdict is exact: the version matches the manifest, the timestamp lies
  -- within `max_age` of the clock on either side, and the token is the signature of this very claim
  -- under some current secret, the old or the new one of a rotation alike.
  pub is_valid-ascii :
      (v : Verifier) (now : ℕ) (token : Text) (m : Claim)
      → is_ascii token ≡ true
      → is_valid c v now token m
        ≡ ret (
            not (wrong_version v.expected_version m.version)
            && (leb now (m.timestamp + v.max_age) && leb m.timestamp (now + v.max_age))
            && signed_by_any token m v.secrets)
  unfolding is_valid verify check_signature
  is_valid-ascii v now token m a = ground (arith, any_matches-ascii token m v.secrets a)

  contains-signed :
      (m : Claim) (secret : Text) (secrets : List Text)
      → contains secret secrets ≡ true
      → signed_by_any (sign_membership c m secret) m secrets ≡ true
  unfolding contains
  contains-signed m secret [] h = cc
  contains-signed m secret (s ∷ secrets) h = ground (arith, contains-signed m secret secrets)

  -- A membership signed with a current secret verifies while its version is the active one and its
  -- timestamp is fresh.
  pub verify-sign_membership :
      (v : Verifier) (now : ℕ) (m : Claim) (secret : Text)
      → contains secret v.secrets ≡ true
      → wrong_version v.expected_version m.version ≡ false
      → now ≤ m.timestamp + v.max_age
      → m.timestamp ≤ now + v.max_age
      → verify c v now (sign_membership c m secret) m ≡ ret tt
  unfolding verify check_signature
  verify-sign_membership v now m secret known version old future = ground (
    arith,
    any_matches-ascii (sign_membership c m secret) m v.secrets (unfold sign_membership in hex _ _),
    contains-signed m secret v.secrets known,
  )

-- A token that is not ASCII makes the verdict raise `TypeError`, though it should only answer, once
-- version and timestamp pass and there is a secret to compare with.
pub is_valid_raises :
    (c : Crypto) (v : Verifier) (now : ℕ) (token : Text) (m : Claim) (s : Text) (more : List Text)
    → is_ascii token ≡ false
    → v.secrets ≡ s ∷ more
    → wrong_version v.expected_version m.version ≡ false
    → now ≤ m.timestamp + v.max_age
    → m.timestamp ≤ now + v.max_age
    → is_valid c v now token m ≡ raise type_error
unfolding is_valid verify check_signature
is_valid_raises c v now token m s more a e version old future =
    let first : any_matches c token m (s ∷ more) ≡ raise type_error =
      unfold any_matches compare_digest in ground arith in
    ground (arith, first)
