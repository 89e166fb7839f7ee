-- ===== src/Breaker/Interference.antt =====
-- Runs of `TenantCircuitBreaker`: what one tenant sees depends on its own calls alone.
use openrtc_python.Prelude.{sym, ℕ, ◌≡◌, refl, Bool, List, [], ◌∷◌, arith, if◌then◌else◌, ap, ◌∙◌}
use openrtc_python.Prelude.Text.{Text, text_eq}
use openrtc_python.Breaker.{Config, Breaker, record_outcome, should_reject}
use openrtc_python.Breaker.Tenant.{
  One, one_of, one_record, one_query, one_rejects, config-record_outcome, config-should_reject,
  one_of-record_outcome, one_of-should_reject, should_reject-one_rejects,
}

-- A call of the breaker, at a time.
pub data Call : Type 0 where
  outcome : ℕ → Text → Bool → Call
  query : ℕ → Text → Call

abbrev pub step : Breaker → Call → Breaker
step b (outcome now tenant ok) = record_outcome now tenant ok b
step b (query now tenant) = (should_reject now tenant b).1

unfoldable pub run : Breaker → List Call → Breaker
run b [] = b
run b (c ∷ calls) = run (step b c) calls

abbrev pub tenant_of : Call → Text
tenant_of (outcome now tenant ok) = tenant
tenant_of (query now tenant) = tenant

-- The calls for one tenant.
unfoldable pub calls_of : Text → List Call → List Call
calls_of u [] = []
calls_of u (c ∷ calls) =
    let rest = calls_of u calls in if text_eq (tenant_of c) u then c ∷ rest else rest

abbrev pub one_step : Config → One → Call → One
one_step c o (outcome now tenant ok) = one_record c now ok o
one_step c o (query now tenant) = one_query now o

unfoldable pub one_run : Config → One → List Call → One
one_run c o [] = o
one_run c o (call ∷ calls) = one_run c (one_step c o call) calls

config-step : (b : Breaker) (c : Call) → (step b c).config ≡ b.config
config-step b (outcome now tenant ok) = config-record_outcome now tenant ok b
config-step b (query now tenant) = config-should_reject now tenant b

one_of-step :
    (b : Breaker) (c : Call) (u : Text)
    → one_of (step b c) u ≡ (
        if text_eq (tenant_of c) u
        then one_step b.config (one_of b (tenant_of c)) c
        else one_of b u)
one_of-step b (outcome now tenant ok) u = one_of-record_outcome now tenant u ok b
one_of-step b (query now tenant) u = one_of-should_reject now tenant u b

-- In any interleaving of calls the breaker holds, for each tenant, what a breaker of that tenant's
-- own would hold after that tenant's calls alone.
pub one_of-run :
    (b : Breaker) (calls : List Call) (u : Text)
    → one_of (run b calls) u ≡ one_run b.config (one_of b u) (calls_of u calls)
unfolding run calls_of one_run
one_of-run b [] u = refl
one_of-run b (c ∷ calls) u =
    ground (arith, one_of-run (step b c) calls u, one_of-step b c u, config-step b c)

-- A tenant's new session is rejected or not by that tenant's history alone: two runs with the same
-- calls for `u`, whatever else they hold, give `u` the same answer at any time.
pub should_reject-run :
    (b : Breaker) (calls others : List Call) (u : Text) (now : ℕ)
    → calls_of u calls ≡ calls_of u others
    → (should_reject now u (run b calls)).0 ≡ (should_reject now u (run b others)).0
should_reject-run b calls others u now same =
    should_reject-one_rejects now u (run b calls)
    ∙ ap (one_rejects now) (
        one_of-run b calls u
        ∙ ap (one_run b.config (one_of b u)) same
        ∙ sym (one_of-run b others u))
    ∙ sym (should_reject-one_rejects now u (run b others))

pub config-run : (b : Breaker) (calls : List Call) → (run b calls).config ≡ b.config
unfolding run
config-run b [] = refl
config-run b (c ∷ calls) = config-run (step b c) calls ∙ config-step b c
