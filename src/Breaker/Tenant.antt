-- ===== src/Breaker/Tenant.antt =====
-- `TenantCircuitBreaker` as a family of independent single-tenant breakers.
use openrtc_python.Prelude.{
  ℕ, ◌+◌, ◌≡◌, Bool, true, false, Option, none, some, List, [], ◌∷◌, ◌++◌, arith, leb,
  if◌then◌else◌,
}
use openrtc_python.Prelude.Text.{Text, text_eq}
use openrtc_python.Prelude.Dict.{get, get_or, put, get-put, get-remove}
use openrtc_python.Breaker.{
  Config, SessionEnd, Breaker, prune, trips, record_outcome, should_reject,
}

-- What the breaker keeps about one tenant.
pub record One : Type 0 where
  pub outcomes : List SessionEnd
  pub open_until : Option ℕ

unfoldable pub one_of : Breaker → Text → One
one_of b tenant = record {
  outcomes = get_or tenant [] b.outcomes;
  open_until = get tenant b.open_until;
}

-- A breaker for one tenant alone, as a reference.
one_open : Config → ℕ → List SessionEnd → Option ℕ → One
one_open c now recent (some until) = record { outcomes = recent; open_until = some until }
one_open c now recent none =
    if trips c recent
    then record { outcomes = []; open_until = some (now + c.cooldown) }
    else record { outcomes = recent; open_until = none }

unfoldable pub one_record : Config → ℕ → Bool → One → One
unfolding one_open
one_record c now success o =
    one_open c now (prune c.window now (o.outcomes ++ (now, success) ∷ [])) o.open_until

unfoldable pub one_rejects : ℕ → One → Bool
one_rejects now o = elim o.open_until [
  | none ↦ false
  | some until ↦ if leb until now then false else true
]

unfoldable pub one_query : ℕ → One → One
one_query now o = record o {
  open_until = elim o.open_until [
    | none ↦ none
    | some until ↦ if leb until now then none else some until
  ];
}

pub config-record_outcome :
    (now : ℕ) (tenant : Text) (ok : Bool) (b : Breaker)
    → (record_outcome now tenant ok b).config ≡ b.config
unfolding record_outcome
config-record_outcome now tenant ok b = ground arith

pub config-should_reject :
    (now : ℕ) (tenant : Text) (b : Breaker) → (should_reject now tenant b).1.config ≡ b.config
unfolding should_reject
config-should_reject now tenant b = ground arith

-- To record an outcome of one tenant steps that tenant's own breaker, and touches no other.
pub one_of-record_outcome :
    (now : ℕ) (tenant u : Text) (ok : Bool) (b : Breaker)
    → one_of (record_outcome now tenant ok b) u
      ≡ (if text_eq tenant u then one_record b.config now ok (one_of b tenant) else one_of b u)
unfolding one_of record_outcome one_record get_or
one_of-record_outcome now tenant u ok b =
    let recent = prune b.config.window now (get_or tenant [] b.outcomes ++ (now, ok) ∷ []) in
    ground (
      arith,
      get-put tenant u recent b.outcomes,
      get-put tenant u (now + b.config.cooldown) b.open_until,
      get-put tenant u [] (put tenant recent b.outcomes),
    )

pub one_of-should_reject :
    (now : ℕ) (tenant u : Text) (b : Breaker)
    → one_of (should_reject now tenant b).1 u
      ≡ (if text_eq tenant u then one_query now (one_of b tenant) else one_of b u)
unfolding one_of should_reject one_query get_or
one_of-should_reject now tenant u b = ground (arith, get-remove tenant u b.open_until)

-- The answer for a tenant reads that tenant's own state.
pub should_reject-one_rejects :
    (now : ℕ) (tenant : Text) (b : Breaker)
    → (should_reject now tenant b).0 ≡ one_rejects now (one_of b tenant)
unfolding should_reject one_rejects one_of
should_reject-one_rejects now tenant b = ground arith
