-- ===== src/Tests/Breaker.antt =====
-- The circuit breaker's theorems at a breaker that opens at more than half of two outcomes.
use openrtc_python.Prelude.{
  ◌*◌, ◌≡◌, refl, true, false, ◌&&◌, none, some, List, [], ◌∷◌, arith, length, replicate, ltb, leb,
  if◌then◌else◌,
}
use openrtc_python.Prelude.Text.{Text, Text-discrete, codes}
use openrtc_python.Prelude.Dict.{get, get_or, put}
use openrtc_python.Breaker
use openrtc_python.Breaker.{Breaker, SessionEnd, failures, record_outcome, should_reject}
use openrtc_python.Breaker.Tenant.{one_of}
use openrtc_python.Breaker.Interference.{Call, outcome, query, run, calls_of, should_reject-run}
use openrtc_python.Breaker.Window.{recent, record_outcome_closed}
use openrtc_python.Breaker.Cooldown.{should_reject_while_open, run_reopens}

abbrev acme : Text
acme = codes "acme"

abbrev other : Text
other = codes "other"

abbrev breaker : Breaker
breaker = record {
  config = record { ratio_num = 1; ratio_den = 2; min_samples = 2; window = 60; cooldown = 30 };
  outcomes = [];
  open_until = [];
  notified = [];
}

abbrev mixed : List Call
mixed =
    outcome 1 acme false ∷ outcome 2 other false ∷ outcome 3 acme true ∷ outcome 4 other false ∷ []

abbrev alone : List Call
alone = outcome 1 acme false ∷ outcome 3 acme true ∷ []

should_reject-run_example :
    (should_reject 5 acme (run breaker mixed)).0 ≡ (should_reject 5 acme (run breaker alone)).0
unfolding calls_of Text-discrete
should_reject-run_example = should_reject-run breaker mixed alone acme 5 refl

record_outcome_closed_example :
    let seen = recent 60 5 ((5, false) ∷ []) in
    one_of (record_outcome 5 acme false breaker) acme ≡ (
      if leb 2 (length seen) && ltb (1 * length seen) (failures seen * 2)
      then record { outcomes = []; open_until = some 35 }
      else record { outcomes = seen; open_until = none })
unfolding one_of get get_or
record_outcome_closed_example = record_outcome_closed 5 acme false breaker refl (tt, tt)

abbrev opened : Breaker
opened = record breaker { open_until = (acme, 34) ∷ [] }

should_reject_while_open_example : (should_reject 40 acme (run opened mixed)).0 ≡ ltb 40 34
unfolding one_of get get_or calls_of Text-discrete
should_reject_while_open_example =
    should_reject_while_open opened acme 34 mixed 40 refl (omega arith)

run_reopens_example :
    let failed = run opened (replicate 2 (outcome 20 acme false)) in
    ((should_reject 20 acme failed).0 ≡ true)
    × ((should_reject 40 acme failed).0 ≡ false)
    × ((one_of (run failed (query 40 acme ∷ outcome 40 acme true ∷ [])) acme).open_until ≡ some 70)
unfolding one_of get get_or Text-discrete
run_reopens_example =
    run_reopens opened acme 34 20 40 2 refl (omega arith) (omega arith) (omega arith) (omega arith)
      (omega arith)

-- Two failures of two outcomes open the breaker for 30 ticks.
opens :
    let b = record_outcome 4 other false (record_outcome 2 other false breaker) in
    (b.open_until ≡ (other, 34) ∷ [])
    × ((should_reject 33 other b).0 ≡ true)
    × ((should_reject 34 other b).0 ≡ false)
unfolding record_outcome should_reject Breaker.prune Breaker.trips get get_or put Text-discrete
opens = (refl, refl, refl)
