-- ===== src/Breaker/Cooldown.antt =====
-- `TenantCircuitBreaker`: the time from opening to recovery, and what the window holds after it.
use openrtc_python.Prelude.{
  ◌∙◌, ap, suc, ℕ, ◌+◌, ◌*◌, ◌≤◌, ◌<◌, ◌≡◌, refl, zero, suc, replicate, replicate-append, ap, ◌∙◌,
  not, length, length-append, length-replicate, count_if-append, count_if-replicate, le→leb, Bool,
  true, false, some, List, [], ◌∷◌, ◌++◌, arith, ltb,
}
use openrtc_python.Prelude.Text.{Text}
use openrtc_python.Breaker.{failures, should_reject, Breaker, Config, SessionEnd, prune, trips}
use openrtc_python.Breaker.Tenant.{
  One, one_of, should_reject-one_rejects, one_record, one_rejects, one_query,
}
use openrtc_python.Breaker.Interference.{
  tenant_of, config-run, one_of-run, run, calls_of, Call, outcome, query, one_step, one_run,
}

abbrev at : Call → ℕ
at (outcome now tenant ok) = now
at (query now tenant) = now

-- Every call is made before a time.
abbrev pub Before : ℕ → List Call → Type 0
Before until [] = Unit
Before until (c ∷ calls) = (at c < until) × Before until calls

one_step-open :
    (c : Config) (o : One) (until : ℕ) (call : Call)
    → o.open_until ≡ some until
    → at call < until
    → (one_step c o call).open_until ≡ some until
unfolding one_record one_query
one_step-open c o until (outcome t u ok) e h = ground arith
one_step-open c o until (query t u) e h = ground arith

one_run-open :
    (c : Config) (until : ℕ) (calls : List Call) (o : One)
    → o.open_until ≡ some until
    → Before until calls
    → (one_run c o calls).open_until ≡ some until
unfolding one_run
one_run-open c until [] o e h = e
one_run-open c until (call ∷ calls) o e h =
    one_run-open c until calls (one_step c o call) (one_step-open c o until call e h.0) h.1

-- While a breaker is open, no call for any tenant made before its recovery moves the time of it: at
-- every moment before that time the tenant's sessions are rejected, and from then on they are not.
pub should_reject_while_open :
    (b : Breaker) (u : Text) (until : ℕ) (calls : List Call) (now : ℕ)
    → (one_of b u).open_until ≡ some until
    → Before until (calls_of u calls)
    → (should_reject now u (run b calls)).0 ≡ ltb now until
unfolding one_rejects
should_reject_while_open b u until calls now e h =
    should_reject-one_rejects now u (run b calls)
    ∙ ap (one_rejects now) (one_of-run b calls u)
    ∙ ground (arith, one_run-open b.config until (calls_of u calls) (one_of b u) e h)

prune-replicate :
    (window now t n : ℕ) (last : SessionEnd)
    → now ≤ t + window
    → now ≤ last.0 + window
    → prune window now (replicate n (t, false) ++ last ∷ []) ≡ replicate n (t, false) ++ last ∷ []
unfolding prune
prune-replicate window now t zero last h k = ground arith
prune-replicate window now t (suc n) last h k = ground arith

one_record_kept :
    (c : Config) (until t k : ℕ)
    → one_record c t false (record { outcomes = replicate k (t, false); open_until = some until })
      ≡ record { outcomes = replicate (suc k) (t, false); open_until = some until }
unfolding one_record
one_record_kept c until t k =
    rw (prune-replicate c.window t t k (t, false) (omega arith) (omega arith))
      (rw (replicate-append {A = SessionEnd} k (t, false)))

-- Failures that end while the breaker is open are all kept.
one_run_failures :
    (c : Config) (until t : ℕ) (u : Text) (n k : ℕ) (o : One)
    → o ≡ record { outcomes = replicate k (t, false); open_until = some until }
    → one_run c o (replicate n (outcome t u false))
      ≡ record { outcomes = replicate (n + k) (t, false); open_until = some until }
unfolding one_run
one_run_failures c until t u zero k o e =
    e
    ∙ ap (λ m. record { outcomes = replicate m (t, false); open_until = some until }) (omega arith)
one_run_failures c until t u (suc n) k o e =
    one_run_failures c until t u n (suc k) (one_record c t false o)
      (rw e (one_record_kept c until t k))
    ∙ ap (λ m. record { outcomes = replicate m (t, false); open_until = some until }) (omega arith)

trips_failures :
    (c : Config) (t now n : ℕ)
    → c.min_samples ≤ n + 1
    → c.ratio_num * (n + 1) < n * c.ratio_den
    → trips c (replicate n (t, false) ++ (now, true) ∷ []) ≡ true
unfolding trips
trips_failures c t now n enough bad =
    let bad_of : SessionEnd → Bool = λ e. not e.1 in
    let before : List SessionEnd = replicate n (t, false) in
    let l : length (before ++ (now, true) ∷ []) ≡ n + 1 = omega (
      arith,
      length-append before ((now, true) ∷ []),
      length-replicate {A = SessionEnd} n (t, false),
    ) in
    let f : failures (before ++ (now, true) ∷ []) ≡ n = omega (
      arith,
      count_if-append bad_of before ((now, true) ∷ []),
      count_if-replicate {A = SessionEnd} bad_of n (t, false) refl,
    ) in
    rw (l, f) (ground arith)

one_reopens :
    (c : Config) (until t now n : ℕ)
    → until ≤ now
    → now ≤ t + c.window
    → c.min_samples ≤ n + 1
    → c.ratio_num * (n + 1) < n * c.ratio_den
    → one_record c now true
        (one_query now (record { outcomes = replicate n (t, false); open_until = some until }))
      ≡ record { outcomes = []; open_until = some (now + c.cooldown) }
unfolding one_record one_query
one_reopens c until t now n over recent enough bad = rw (le→leb until now over) (
    rw (prune-replicate c.window now t n (now, true) recent (omega arith))
      (rw (trips_failures c t now n enough bad)))

calls_of-replicate :
    (u : Text) (n : ℕ) (call : Call)
    → tenant_of call ≡ u
    → calls_of u (replicate n call) ≡ replicate n call
unfolding calls_of
calls_of-replicate u zero call h = refl
calls_of-replicate u (suc n) call h = ground (arith, calls_of-replicate u n call h)

calls_of_two :
    (u : Text) (c d : Call)
    → tenant_of c ≡ u
    → tenant_of d ≡ u
    → calls_of u (c ∷ d ∷ []) ≡ c ∷ d ∷ []
unfolding calls_of
calls_of_two u c d h k = ground arith

one_run_two :
    (c c' : Config) (o o' : One) (now : ℕ) (u : Text)
    → c' ≡ c
    → o' ≡ o
    → one_run c' o' (query now u ∷ outcome now u true ∷ [])
      ≡ one_record c now true (one_query now o)
unfolding one_run
one_run_two c c' o o' now u p q = rw (p, q)

-- The window after recovery is not a fresh one. Let a breaker be open with no outcome kept, and let
-- `n` sessions that were in flight fail at a time `t` of the cooldown. The tenant is still rejected
-- at `t`, a query after the cooldown lets the tenant in, and then its next session opens the
-- breaker again although it succeeds, if `t` still lies in the window and `n` failures of `n + 1`
-- outcomes are enough to trip.
pub run_reopens :
    (b : Breaker) (u : Text) (until t now n : ℕ)
    → one_of b u ≡ record { outcomes = []; open_until = some until }
    → t < until
    → until ≤ now
    → now ≤ t + b.config.window
    → b.config.min_samples ≤ n + 1
    → b.config.ratio_num * (n + 1) < n * b.config.ratio_den
    → let failed = run b (replicate n (outcome t u false)) in
      ((should_reject t u failed).0 ≡ true)
      × ((should_reject now u failed).0 ≡ false)
      × ((one_of (run failed (query now u ∷ outcome now u true ∷ [])) u).open_until
          ≡ some (now + b.config.cooldown))
unfolding one_rejects
run_reopens b u until t now n e early over recent enough bad =
    let calls = replicate n (outcome t u false) in
    let failed = run b calls in
    let kept : one_of failed u
        ≡ record { outcomes = replicate n (t, false); open_until = some until } =
      one_of-run b calls u
      ∙ ap (one_run b.config (one_of b u)) (calls_of-replicate u n (outcome t u false) refl)
      ∙ one_run_failures b.config until t u n 0 (one_of b u) e
      ∙ ap (λ m. record { outcomes = replicate m (t, false); open_until = some until })
          (omega arith) in
    (
      should_reject-one_rejects t u failed ∙ rw kept (ground arith),
      should_reject-one_rejects now u failed ∙ rw kept (ground arith),
      ap (λ o. o.open_until)
          (one_of-run failed (query now u ∷ outcome now u true ∷ []) u
            ∙ ap (one_run failed.config (one_of failed u))
                (calls_of_two u (query now u) (outcome now u true) refl refl)
            ∙ one_run_two b.config failed.config _ (one_of failed u) now u (config-run b calls) kept
            ∙ one_reopens b.config until t now n over recent enough bad),
    )
