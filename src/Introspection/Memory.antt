-- ===== src/Introspection/Memory.antt =====
-- `SessionMemorySampler`: each session's share and its peak.
use openrtc_python.Prelude.{
  subst, ◌≡◌, refl, ap, ◌∙◌, ℕ, Bool, true, false, Option, none, some, List, [], ◌∷◌, if◌then◌else◌,
  arith, length, Bool-cases, Option-cases, inl, inr,
}
use openrtc_python.Prelude.Text.{Text, text_eq, text_eq→eq}
use openrtc_python.Prelude.Dict.{Dict, get, get_or, put, get-put, DistinctKeys}
use openrtc_python.Introspection.{
  is_in, Floats, SessionMemory, MemorySampler, restrict, share_out, sampled, sample_memory,
}
use openrtc_python.Introspection.Cpu.{get-restrict}

module _ (floats : Floats) where
  open floats use {Float, zero, max, round_1, share_mb}

  -- The row of an active session, by the peak that it had.
  abbrev pub memory_row : Float → Float → Text → SessionMemory floats
  memory_row share peak agent_name = record {
    agent_name = agent_name;
    current_mb = round_1 share;
    peak_mb = round_1 peak;
  }

  abbrev pub or_zero : Option Float → Float
  or_zero none = zero
  or_zero (some x) = x

  abbrev row_at :
      Float
      → Option Float
      → Option Text
      → Option (SessionMemory floats)
      → Option (SessionMemory floats)
  row_at share peak none old = old
  row_at share peak (some name) old = some (memory_row share (max (or_zero peak) share) name)

  get_or-or_zero :
      (sid : Text) (peaks : Dict Float) → get_or sid zero peaks ≡ or_zero (get sid peaks)
  unfolding get_or
  get_or-or_zero sid peaks = elim (Option-cases (get sid peaks)) [
    | inl missing ↦ rw (missing, get_or) refl
    | inr (x, e) ↦ rw (e, get_or) refl
  ]

  get-share_out :
      (sid : Text) (share : Float) (active : Dict Text) (peaks : Dict Float)
      (result : Dict (SessionMemory floats))
      → DistinctKeys active
      → let (more, rows) = share_out floats share active peaks result in
        (get sid more ≡ (
          if is_in (get sid active)
          then some (max (or_zero (get sid peaks)) share)
          else get sid peaks))
        × (get sid rows ≡ row_at share (get sid peaks) (get sid active) (get sid result))
  unfolding share_out get
  get-share_out sid share [] peaks result h = (refl, refl)
  get-share_out sid share ((k, name) ∷ active) peaks result h =
      let peak = max (get_or k zero peaks) share in
      let peaks' = put k peak peaks in
      let result' = put k (memory_row share peak name) result in
      let (more, rows) = get-share_out sid share active peaks' result' h.1 in
      let here = get-put k sid peak peaks in
      let row = get-put k sid (memory_row share peak name) result in
      elim (Bool-cases (text_eq k sid)) [
        | inl same ↦
            let equal = text_eq→eq k sid same in
            let alone : get sid active ≡ none = subst (λ i. get i active ≡ none) equal h.0 in
            let old : peak ≡ max (or_zero (get sid peaks)) share =
              ap (λ x. max x share)
                (get_or-or_zero k peaks ∙ ap (λ i. or_zero (get i peaks)) equal) in
            (
              rw same (more ∙ rw alone (here ∙ rw same (ap some old))),
              rw same
                  (rows ∙ rw alone (row ∙ rw same (ap (λ p. some (memory_row share p name)) old))),
            )
        | inr different ↦ (
          rw different (more ∙ rw here (rw different refl)),
          rw different (rows ∙ rw (here, row) (rw different refl)),
        )
      ]

  -- A reading of the resident set size, if it could be read, with the sessions that are active.
  abbrev pub Sample : Type 0
  Sample = Option ℕ × Dict Text

  abbrev pub run : List Sample → MemorySampler floats → MemorySampler floats
  run [] s = s
  run ((rss, active) ∷ samples) s = run samples (sample_memory floats rss active s)

  -- The greatest share of a session since it was last inactive, none without a reading.
  abbrev next_peak : Text → Option ℕ → Dict Text → Option Float → Option Float
  next_peak sid rss active peak =
      if is_in (get sid active)
      then elim rss [
        | none ↦ peak
        | some r ↦ some (max (or_zero peak) (share_mb r (length active)))
      ]
      else none

  abbrev pub peak_of : Text → List Sample → Option Float → Option Float
  peak_of sid [] peak = peak
  peak_of sid ((rss, active) ∷ samples) peak = peak_of sid samples (next_peak sid rss active peak)

  abbrev pub DistinctSamples : List Sample → Type 0
  DistinctSamples [] = Unit
  DistinctSamples ((rss, active) ∷ samples) = DistinctKeys active × DistinctSamples samples

  get-sampled :
      (sid : Text) (rss : Option ℕ) (active : Dict Text) (s : MemorySampler floats)
      → DistinctKeys active
      → get sid (sample_memory floats rss active s).peaks
        ≡ next_peak sid rss active (get sid s.peaks)
  unfolding sample_memory sampled get
  get-sampled sid none active s h = get-restrict sid active s.peaks
  get-sampled sid (some rss) [] s h = get-restrict sid [] s.peaks
  get-sampled sid (some rss) (a ∷ active) s h =
      let share = share_mb rss (length (a ∷ active)) in
      let old = get-restrict sid (a ∷ active) s.peaks in
      (get-share_out sid share (a ∷ active) (restrict (a ∷ active) s.peaks) [] h).0
      ∙ go share (get sid (restrict (a ∷ active) s.peaks)) (is_in (get sid (a ∷ active))) old
    where
      go :
          (share : Float) (kept : Option Float) (there : Bool)
          → kept ≡ (if there then get sid s.peaks else none)
          → (if there then some (max (or_zero kept) share) else kept)
            ≡ (if there then some (max (or_zero (get sid s.peaks)) share) else none)
      go share kept true e = ap (λ p. some (max (or_zero p) share)) e
      go share kept false e = e

  run-peaks :
      (sid : Text) (samples : List Sample) (s : MemorySampler floats)
      → DistinctSamples samples
      → get sid (run samples s).peaks ≡ peak_of sid samples (get sid s.peaks)
  run-peaks sid [] s h = refl
  run-peaks sid ((rss, active) ∷ samples) s (d, h) =
      run-peaks sid samples (sample_memory floats rss active s) h
      ∙ ap (peak_of sid samples) (get-sampled sid rss active s d)

  get-latest :
      (sid name : Text) (rss : ℕ) (active : Dict Text) (s : MemorySampler floats)
      → DistinctKeys active
      → get sid active ≡ some name
      → let share = share_mb rss (length active) in
        get sid (sample_memory floats (some rss) active s).latest
        ≡ some (memory_row share (max (or_zero (get sid s.peaks)) share) name)
  unfolding sample_memory sampled get
  get-latest sid name rss [] s h e = absurd (ground (arith, e))
  get-latest sid name rss (a ∷ active) s h e =
      let share = share_mb rss (length (a ∷ active)) in
      let old : get sid (restrict (a ∷ active) s.peaks) ≡ get sid s.peaks =
        get-restrict sid (a ∷ active) s.peaks ∙ rw e refl in
      (get-share_out sid share (a ∷ active) (restrict (a ∷ active) s.peaks) [] h).1
      ∙ rw e (ap (λ p. some (memory_row share (max (or_zero p) share) name)) old)

  -- After any samples of a new sampler, the peak of a session is the greatest share that it had since
  -- it was last inactive, readings that failed left out. Another sample, of a resident set size that
  -- could be read, shows each active session with the equal share of it and that peak, raised to the
  -- share.
  pub run-memory :
      (sid : Text) (samples : List Sample) (rss : ℕ) (active : Dict Text)
      → DistinctSamples samples
      → DistinctKeys active
      → let before = run samples (record { peaks = []; latest = [] }) in
        let share = share_mb rss (length active) in
        (get sid before.peaks ≡ peak_of sid samples none)
        × ((name : Text)
            → get sid active ≡ some name
            → get sid (sample_memory floats (some rss) active before).latest
              ≡ some (memory_row share (max (or_zero (peak_of sid samples none)) share) name))
  unfolding get
  run-memory sid samples rss active h d =
      let start : MemorySampler floats = record { peaks = []; latest = [] } in
      let peak = run-peaks sid samples start h in
      (
        peak,
        λ name e.
            get-latest sid name rss active (run samples start) d e
            ∙ ap
                (λ p. some (
                  memory_row (share_mb rss (length active))
                    (max (or_zero p) (share_mb rss (length active))) name))
                peak,
      )
