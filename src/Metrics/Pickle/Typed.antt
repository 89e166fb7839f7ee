-- ===== src/Metrics/Pickle/Typed.antt =====
-- `__setstate__`: the states that it accepts.
use openrtc_python.Prelude.{
  inl, inr, Option-cases, ◌≡◌, refl, ◌∙◌, ℕ, Bool, true, false, ◌&&◌, Option, none, some, [],
}
use openrtc_python.Prelude.Text.{Text, codes}
use openrtc_python.Prelude.Dict.{Dict, get, get_or}
use openrtc_python.Prelude.Outcome.{Outcome, ret, raise, is_ret, ◌>>=◌}
use openrtc_python.Metrics.Pickle.{
  sym, Option-cases, key_error, Value, int, float, text, null, mapping, events, other, Pairs, nil,
  pair, item, as_int, as_events, as_float, counts, as_counts, set_state,
}

-- What stands under a key.
abbrev pub is_there : Option Value → Bool
is_there none = false
is_there (some v) = true

abbrev pub is_int : Option Value → Bool
is_int (some (int n)) = true
is_int _ = false

-- A float, or an int that `float` takes.
abbrev pub is_number : (ℕ → Outcome ℕ) → Option Value → Bool
is_number to_float (some (int n)) = is_ret (to_float n)
is_number to_float (some (float t)) = true
is_number to_float _ = false

abbrev pub is_events : Option Value → Bool
is_events (some (events es)) = true
is_events _ = false

-- A check of a field that an older version did not have.
abbrev pub or_absent : (Option Value → Bool) → Option Value → Bool
or_absent check none = true
or_absent check (some v) = check (some v)

module _ (to_int : Value → Outcome ℕ) where
  -- `int` takes every value of the mapping.
  unfoldable pub all_taken : Pairs → Bool
  all_taken nil = true
  all_taken (pair key value more) = is_ret (to_int value) && all_taken more

  abbrev pub is_counts : Option Value → Bool
  is_counts (some (mapping pairs)) = all_taken pairs
  is_counts _ = false

  -- The types that a pickled store has.
  unfoldable pub is_well_typed : (ℕ → Outcome ℕ) → Dict Value → Bool
  is_well_typed to_float state =
      is_number to_float (get (codes "started_at") state)
      && (is_int (get (codes "total_sessions_started") state)
          && (is_int (get (codes "total_session_failures") state)
              && (is_there (get (codes "last_routed_agent") state)
                  && (is_there (get (codes "last_error") state)
                      && (is_counts (get (codes "sessions_by_agent") state)
                          && (or_absent is_counts (get (codes "sessions_by_tenant") state)
                              && (or_absent is_events (get (codes "_stream_events") state)
                                  && or_absent is_int (
                                      get (codes "_metrics_stream_overflow_since_drain")
                                        state))))))))

-- A sequence returns if its first part passes a check and the rest, whatever it is given, another.
is_ret->>= {ℓ κ} :
    {A : Type ℓ} {B : Type κ} (m : Outcome A) (f : A → Outcome B) (a b : Bool)
    → is_ret m ≡ a
    → ((x : A) → is_ret (f x) ≡ b)
    → is_ret (m >>= f) ≡ (a && b)
is_ret->>= (ret x) f a b h k = rw (← h) (k x)
is_ret->>= (raise e) f a b h k = rw (← h) refl

and_true : (b : Bool) → (b && true) ≡ b
and_true true = refl
and_true false = refl

-- A field that must be there, with the check that its reader makes.
is_ret-item {ℓ} :
    {A : Type ℓ} (check : Option Value → Bool) (read : Value → Outcome A) (key : Text)
    (state : Dict Value)
    → check none ≡ false
    → ((v : Value) → is_ret (read v) ≡ check (some v))
    → is_ret (item key state >>= read) ≡ check (get key state)
is_ret-item check read key state h k =
    elim (get key state)
      as (λ o. is_ret (elim o [ none ↦ raise key_error | some v ↦ ret v ] >>= read) ≡ check o) [
        | none ↦ sym h
        | some v ↦ k v
      ]

is_ret-there :
    (key : Text) (state : Dict Value) → is_ret (item key state) ≡ is_there (get key state)
is_ret-there key state =
    elim (get key state)
      as (λ o. is_ret (elim o [ none ↦ raise key_error | some v ↦ ret v ]) ≡ is_there o) [
        | none ↦ refl
        | some v ↦ refl
      ]

-- A field that may be absent, with its default.
is_ret-get_or {ℓ} :
    {A : Type ℓ} (check : Option Value → Bool) (read : Value → Outcome A) (key : Text)
    (default : Value) (state : Dict Value)
    → is_ret (read default) ≡ true
    → ((v : Value) → is_ret (read v) ≡ check (some v))
    → is_ret (read (get_or key default state)) ≡ or_absent check (get key state)
unfolding get_or
is_ret-get_or check read key default state h k = elim (Option-cases (get key state)) [
  | inl missing ↦ rw (missing, get_or) h
  | inr (v, found) ↦ rw (found, get_or) (k v)
]

is_ret-as_int : (v : Value) → is_ret (as_int v) ≡ is_int (some v)
is_ret-as_int (int m) = refl
is_ret-as_int (float m) = refl
is_ret-as_int (text m) = refl
is_ret-as_int null = refl
is_ret-as_int (mapping m) = refl
is_ret-as_int (events m) = refl
is_ret-as_int other = refl

is_ret-as_events : (v : Value) → is_ret (as_events v) ≡ is_events (some v)
is_ret-as_events (int m) = refl
is_ret-as_events (float m) = refl
is_ret-as_events (text m) = refl
is_ret-as_events null = refl
is_ret-as_events (mapping m) = refl
is_ret-as_events (events m) = refl
is_ret-as_events other = refl

module _ (to_int : Value → Outcome ℕ) (to_float : ℕ → Outcome ℕ) where
  is_ret-as_float : (v : Value) → is_ret (as_float to_int to_float v) ≡ is_number to_float (some v)
  is_ret-as_float (int m) = refl
  is_ret-as_float (float m) = refl
  is_ret-as_float (text m) = refl
  is_ret-as_float null = refl
  is_ret-as_float (mapping m) = refl
  is_ret-as_float (events m) = refl
  is_ret-as_float other = refl

  is_ret-counts : (pairs : Pairs) → is_ret (counts to_int to_float pairs) ≡ all_taken to_int pairs
  unfolding counts all_taken
  is_ret-counts nil = refl
  is_ret-counts (pair key value more) =
      is_ret->>= (to_int value) _ (is_ret (to_int value)) (all_taken to_int more) refl (λ n.
        is_ret->>= (counts to_int to_float more) _ (all_taken to_int more) true (is_ret-counts more)
          (λ later. refl)
        ∙ and_true (all_taken to_int more))

  is_ret-as_counts : (v : Value) → is_ret (as_counts to_int to_float v) ≡ is_counts to_int (some v)
  is_ret-as_counts (mapping pairs) = is_ret-counts pairs
  is_ret-as_counts (int m) = refl
  is_ret-as_counts (float m) = refl
  is_ret-as_counts (text m) = refl
  is_ret-as_counts null = refl
  is_ret-as_counts (events m) = refl
  is_ret-as_counts other = refl

  -- `__setstate__` accepts exactly the well-typed states, and raises on every other: `started_at` is
  -- there and a float or an int that `float` takes, the two totals ints, the two names are there, with any value, the
  -- agents' counts are there and a mapping whose values `int` takes, and so are the tenants' counts,
  -- the events a list and the overflow an int, where they are there.
  pub set_state-typed :
      (state : Dict Value)
      → is_ret (set_state to_int to_float state) ≡ is_well_typed to_int to_float state
  unfolding set_state is_well_typed all_taken
  set_state-typed state =
      field _ _ (is_number to_float) (as_float to_int to_float) (codes "started_at") refl
        is_ret-as_float
        (λ _. field _ _ is_int as_int (codes "total_sessions_started") refl is_ret-as_int (λ _.
          field _ _ is_int as_int (codes "total_session_failures") refl is_ret-as_int (λ _.
            here _ _ (codes "last_routed_agent") (λ _. here _ _ (codes "last_error") (λ _.
              field _ _ (is_counts to_int) (as_counts to_int to_float) (codes "sessions_by_agent")
                refl is_ret-as_counts
                (λ _.
                  later _ _ (is_counts to_int) (as_counts to_int to_float)
                    (codes "sessions_by_tenant") (mapping nil) (is_ret-counts nil) is_ret-as_counts
                    (λ _.
                      later _ _ is_events as_events (codes "_stream_events") (events []) refl
                        is_ret-as_events
                        (λ _.
                          later _ _ is_int as_int (codes "_metrics_stream_overflow_since_drain")
                            (int 0) refl is_ret-as_int (λ _. refl)
                          ∙ and_true _))))))))
    where
      field :
          {A B : Type 0} (f : A → Outcome B) (rest : Bool) (check : Option Value → Bool)
          (read : Value → Outcome A) (key : Text)
          → check none ≡ false
          → ((v : Value) → is_ret (read v) ≡ check (some v))
          → ((x : A) → is_ret (f x) ≡ rest)
          → is_ret (item key state >>= read >>= f) ≡ (check (get key state) && rest)
      field f rest check read key h k more =
          is_ret->>= (item key state >>= read) _ _ _ (is_ret-item check read key state h k) more

      here :
          {B : Type 0} (f : Value → Outcome B) (rest : Bool) (key : Text)
          → ((x : Value) → is_ret (f x) ≡ rest)
          → is_ret (item key state >>= f) ≡ (is_there (get key state) && rest)
      here f rest key more = is_ret->>= (item key state) _ _ _ (is_ret-there key state) more

      later :
          {A B : Type 0} (f : A → Outcome B) (rest : Bool) (check : Option Value → Bool)
          (read : Value → Outcome A) (key : Text) (default : Value)
          → is_ret (read default) ≡ true
          → ((v : Value) → is_ret (read v) ≡ check (some v))
          → ((x : A) → is_ret (f x) ≡ rest)
          → is_ret (read (get_or key default state) >>= f)
            ≡ (or_absent check (get key state) && rest)
      later f rest check read key default h k more =
          is_ret->>= (read (get_or key default state)) _ _ _
            (is_ret-get_or check read key default state h k) more
