-- ===== src/Tests/Introspection.antt =====
-- Two sessions in `openrtc top`, one of them over, and two starts of the stack whose socket fails.
use openrtc_python.Prelude.{
  ◌<◌, ◌⊎◌, ◌*◌, ◌+◌, ◌≡◌, ℕ, false, none, some, List, [], ◌∷◌, leb, ◌==◌, if◌then◌else◌,
}
use openrtc_python.Prelude.Text.{Text, codes}
use openrtc_python.Prelude.Dict.{Dict, get, DistinctKeys}
use openrtc_python.Prelude.Outcome.{ret, raise, os_error}
use openrtc_python.Introspection.{Floats, LiveSession, SessionMemory, build_session_rows}
use openrtc_python.Introspection.Rows.{
  Event, starts, ends, observe_all, live_now, RowsFor, build_session_rows-RowsFor,
}
use openrtc_python.Introspection.Lifetime
use openrtc_python.Introspection.Lifetime.{
  Use, original, idle, is_running, failed_starts, run-leaves,
}

abbrev floats : Floats
floats = record {
  Float = ℕ;
  zero = 0;
  max = λ x y. if leb x y then y else x;
  round_1 = λ x. x;
  share_mb = λ rss n. rss;
  percent = λ count total. count;
  seconds = λ count. count;
  span = λ ms. ms;
}

abbrev live : Text → LiveSession
live sid = record { session_id = sid; agent_name = codes "sales"; tenant = none; started_at = 5 }

abbrev events : List Event
events = starts (live (codes "j1")) 1 ∷ starts (live (codes "j2")) 2 ∷ ends (codes "j1") ∷ []

abbrev memory : Dict (SessionMemory floats)
memory = (codes "j2", record { agent_name = codes "sales"; current_mb = 30; peak_mb = 40 }) ∷ []

build_session_rows-RowsFor_example :
    let registry = observe_all events [] in
    ((sid : Text) → get sid registry ≡ live_now sid events none)
    × DistinctKeys registry
    × RowsFor floats memory []
        (λ sid. false)
        (λ s. s == 2)
        9
        registry
        (build_session_rows floats registry memory [] (λ sid. false) (λ s. s == 2) 9)
build_session_rows-RowsFor_example =
    build_session_rows-RowsFor floats events memory [] (λ sid. false) (λ s. s == 2) 9

-- A start whose socket cannot be bound, a start that works twice, and a close.
abbrev uses : List Use
uses =
    Lifetime.starts (raise os_error)
    ∷ Lifetime.starts (ret tt)
    ∷ Lifetime.starts (ret tt)
    ∷ Lifetime.closes
    ∷ []

run-leaves_example :
    let r = Lifetime.run uses (idle (some 8)) in
    let failed = failed_starts uses (idle (some 8)) in
    (r.resources.threads ≡ is_running r.running + failed)
    × (r.resources.tasks ≡ 2 * (is_running r.running + failed))
    × ((0 < failed) ⊎ (original r.running r.resources.task_factory ≡ some 8))
run-leaves_example = run-leaves (some 8) uses
