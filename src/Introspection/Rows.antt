-- ===== src/Introspection/Rows.antt =====
-- The rows of `openrtc top`: one for each live session.

use openrtc_python.Prelude.{
  ◌-◌, subst, ◌≡◌, refl, sym, ap, ◌∙◌, ℕ, Bool, Option, none, some, List, [], ◌∷◌, if◌then◌else◌,
  map, All, All-map, arith, Bool-cases, inl, inr,
}
use openrtc_python.Prelude.Text.{Text, text_eq, text_eq→eq}
use openrtc_python.Prelude.Dict.{
  Dict, get, put, remove, get-put, get-remove, DistinctKeys, put-DistinctKeys,
}
use openrtc_python.Introspection.{
  Floats, LiveSession, Registry, on_session_start, on_session_end, live_sessions, session_for,
  SessionMemory, SessionCpu, SessionRow, session_row, build_session_rows,
}

pub data Event : Type 0 where
  starts : LiveSession → ℕ → Event
  ends : Text → Event

abbrev pub observe_all : List Event → Registry → Registry
observe_all [] registry = registry
observe_all (starts live session ∷ events) registry =
    observe_all events (on_session_start live session registry)
observe_all (ends job_id ∷ events) registry = observe_all events (on_session_end job_id registry)

-- The last start of a session, if it did not end since.
abbrev pub live_now : Text → List Event → Option (LiveSession × ℕ) → Option (LiveSession × ℕ)
live_now sid [] now = now
live_now sid (starts live session ∷ events) now =
    live_now sid events (if text_eq live.session_id sid then some (live, session) else now)
live_now sid (ends job_id ∷ events) now =
    live_now sid events (if text_eq job_id sid then none else now)

get-observe_all :
    (sid : Text) (events : List Event) (registry : Registry)
    → get sid (observe_all events registry) ≡ live_now sid events (get sid registry)
unfolding on_session_start on_session_end
get-observe_all sid [] registry = refl
get-observe_all sid (starts live session ∷ events) registry =
    get-observe_all sid events (on_session_start live session registry)
    ∙ ap (live_now sid events) (get-put live.session_id sid (live, session) registry)
get-observe_all sid (ends job_id ∷ events) registry =
    get-observe_all sid events (on_session_end job_id registry)
    ∙ ap (live_now sid events) (get-remove job_id sid registry)

-- Each session stands under its own id, and each id once.
Named : Text × (LiveSession × ℕ) → Type 0
Named (sid, (live, session)) = live.session_id ≡ sid

abbrev IsRegistry : Registry → Type 0
IsRegistry registry = DistinctKeys registry × All Named registry

put-Named :
    (live : LiveSession) (session : ℕ) (registry : Registry)
    → All Named registry
    → All Named (put live.session_id (live, session) registry)
unfolding put Named
put-Named live session [] h = (refl, tt)
put-Named live session ((k, e) ∷ registry) h = elim (Bool-cases (text_eq k live.session_id)) [
  | inl same ↦ rw same (sym (text_eq→eq k live.session_id same), h.1)
  | inr different ↦ rw different (h.0, put-Named live session registry h.1)
]

remove-IsRegistry :
    (k : Text) (registry : Registry) → IsRegistry registry → IsRegistry (remove k registry)
unfolding remove get
remove-IsRegistry k [] h = h
remove-IsRegistry k ((j, e) ∷ registry) ((new, distinct), (named, all)) =
    let later = remove-IsRegistry k registry (distinct, all) in
    elim (Bool-cases (text_eq j k)) [
      | inl same ↦ rw same later
      | inr different ↦
          rw different ((get-remove k j registry ∙ ground (arith, new), later.0), (named, later.1))
    ]

observe_all-IsRegistry :
    (events : List Event) (registry : Registry)
    → IsRegistry registry
    → IsRegistry (observe_all events registry)
unfolding on_session_start on_session_end
observe_all-IsRegistry [] registry h = h
observe_all-IsRegistry (starts live session ∷ events) registry h =
    observe_all-IsRegistry events (on_session_start live session registry) (
      put-DistinctKeys live.session_id (live, session) registry h.0,
      put-Named live session registry h.1,
    )
observe_all-IsRegistry (ends job_id ∷ events) registry h =
    observe_all-IsRegistry events (on_session_end job_id registry)
      (remove-IsRegistry job_id registry h)

-- An entry is found under its own id.
Found : Registry → Text × (LiveSession × ℕ) → Type 0
Found registry (sid, e) = get sid registry ≡ some e

All-Found : (registry : Registry) → DistinctKeys registry → All (Found registry) registry
unfolding Found get
All-Found [] h = tt
All-Found ((k, e) ∷ registry) (new, h) = (
  ground arith,
  All-map (Found registry) (Found ((k, e) ∷ registry)) later registry (All-Found registry h),
)
  where
    later :
        (entry : Text × (LiveSession × ℕ)) → Found registry entry → Found ((k, e) ∷ registry) entry
    later (sid, x) f = elim (Bool-cases (text_eq k sid)) [
      | inl same ↦ absurd (ground (arith, f, new, text_eq→eq k sid same))
      | inr different ↦ rw different f
    ]

module _ (floats : Floats) where
  open floats use {Float, zero, round_1, span}

  abbrev pub current_or_zero : Option (SessionMemory floats) → Float
  current_or_zero none = zero
  current_or_zero (some m) = m.current_mb

  abbrev pub peak_or_zero : Option (SessionMemory floats) → Float
  peak_or_zero none = zero
  peak_or_zero (some m) = m.peak_mb

  abbrev pub share_or_zero : Option (SessionCpu floats) → Float
  share_or_zero none = zero
  share_or_zero (some c) = c.cpu_pct

  -- The row of a session at a time: its own name, tenant, age, status and pin, and its own figures, or
  -- zero.
  abbrev pub RowFor :
      Dict (SessionMemory floats)
      → Dict (SessionCpu floats)
      → (Text → Bool)
      → (ℕ → Bool)
      → ℕ
      → Text × (LiveSession × ℕ)
      → SessionRow floats
      → Type 0
  RowFor memory cpu slow is_pinned now (sid, (live, session)) row =
      (row.session_id ≡ sid)
      × (row.agent_name ≡ live.agent_name)
      × (row.tenant ≡ live.tenant)
      × (row.duration ≡ round_1 (span (now - live.started_at)))
      × (row.slow ≡ slow sid)
      × (row.pinned ≡ is_pinned session)
      × (row.mem_mb ≡ current_or_zero (get sid memory))
      × (row.peak_mb ≡ peak_or_zero (get sid memory))
      × (row.cpu_pct ≡ share_or_zero (get sid cpu))

  unfoldable pub RowsFor :
      Dict (SessionMemory floats)
      → Dict (SessionCpu floats)
      → (Text → Bool)
      → (ℕ → Bool)
      → ℕ
      → Registry
      → List (SessionRow floats)
      → Type 0
  RowsFor memory cpu slow is_pinned now [] [] = Unit
  RowsFor memory cpu slow is_pinned now (e ∷ registry) (row ∷ rows) =
      RowFor memory cpu slow is_pinned now e row
      × RowsFor memory cpu slow is_pinned now registry rows
  RowsFor memory cpu slow is_pinned now _ _ = ⊥

  session_row-RowFor :
      (memory : Dict (SessionMemory floats)) (cpu : Dict (SessionCpu floats)) (slow : Text → Bool)
      (is_pinned : ℕ → Bool) (now : ℕ) (registry : Registry) (live : LiveSession) (session : ℕ)
      → get live.session_id registry ≡ some (live, session)
      → RowFor memory cpu slow is_pinned now
          (live.session_id, (live, session))
          (session_row floats registry memory cpu slow is_pinned now live)
  unfolding session_row session_for
  session_row-RowFor memory cpu slow is_pinned now registry live session e = (
    refl,
    refl,
    refl,
    refl,
    refl,
    rw (e, session_row) refl,
    current (get live.session_id memory) refl,
    peak (get live.session_id memory) refl,
    share (get live.session_id cpu) refl,
  )
    where
      current :
          (m : Option (SessionMemory floats))
          → get live.session_id memory ≡ m
          → (session_row floats registry memory cpu slow is_pinned now live).mem_mb
            ≡ current_or_zero m
      current none h = rw (h, session_row) refl
      current (some m) h = rw (h, session_row) refl

      peak :
          (m : Option (SessionMemory floats))
          → get live.session_id memory ≡ m
          → (session_row floats registry memory cpu slow is_pinned now live).peak_mb
            ≡ peak_or_zero m
      peak none h = rw (h, session_row) refl
      peak (some m) h = rw (h, session_row) refl

      share :
          (c : Option (SessionCpu floats))
          → get live.session_id cpu ≡ c
          → (session_row floats registry memory cpu slow is_pinned now live).cpu_pct
            ≡ share_or_zero c
      share none h = rw (h, session_row) refl
      share (some c) h = rw (h, session_row) refl

  rows-RowsFor :
      (memory : Dict (SessionMemory floats)) (cpu : Dict (SessionCpu floats)) (slow : Text → Bool)
      (is_pinned : ℕ → Bool) (now : ℕ) (registry rest : Registry)
      → All Named rest
      → All (Found registry) rest
      → RowsFor memory cpu slow is_pinned now rest
          (map (session_row floats registry memory cpu slow is_pinned now) (live_sessions rest))
  unfolding live_sessions Named Found RowsFor
  rows-RowsFor memory cpu slow is_pinned now registry [] h f = tt
  rows-RowsFor memory cpu slow is_pinned now registry ((sid, (live, session)) ∷ rest) (named, h)
        (found, f) =
      (
        subst
            (λ i.
              RowFor memory cpu slow is_pinned now (i, (live, session))
                (session_row floats registry memory cpu slow is_pinned now live))
            named
            (session_row-RowFor memory cpu slow is_pinned now registry live session
              (ap (λ i. get i registry) named ∙ found)),
        rows-RowsFor memory cpu slow is_pinned now registry rest h f,
      )

  -- After any starts and ends of sessions, a session is tracked exactly if it started and did not end
  -- since, with what its last start said, and `openrtc top` shows one row for each tracked session, in
  -- the order of the registry: its own name, tenant and age, its own livekit session's pin, its status,
  -- and its own current memory, peak memory and CPU share, or zero.
  pub build_session_rows-RowsFor :
      (events : List Event) (memory : Dict (SessionMemory floats)) (cpu : Dict (SessionCpu floats))
      (slow : Text → Bool) (is_pinned : ℕ → Bool) (now : ℕ)
      → let registry = observe_all events [] in
        ((sid : Text) → get sid registry ≡ live_now sid events none)
        × DistinctKeys registry
        × RowsFor memory cpu slow is_pinned now registry
            (build_session_rows floats registry memory cpu slow is_pinned now)
  unfolding build_session_rows get
  build_session_rows-RowsFor events memory cpu slow is_pinned now =
      let registry = observe_all events [] in
      let good = observe_all-IsRegistry events [] (tt, tt) in
      (
        (λ sid. get-observe_all sid events []),
        good.0,
        rows-RowsFor memory cpu slow is_pinned now registry registry good.1
            (All-Found registry good.0),
      )
