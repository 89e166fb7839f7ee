-- ===== src/Introspection/Cpu.antt =====
-- `SessionCpuAccumulator`: the counts behind the CPU shares.
use openrtc_python.Prelude.{
  ◌≡◌, refl, sym, ap, ◌∙◌, ℕ, ◌+◌, ◌≤◌, true, false, Option, none, some, List, [], ◌∷◌,
  if◌then◌else◌, arith, ◌⊎◌, Bool-cases, inl, inr,
}
use openrtc_python.Prelude.Text.{Text, text_eq, text_eq→eq}
use openrtc_python.Prelude.Dict.{Dict, get, get_or, put, get-put}
use openrtc_python.Introspection.{is_in, restrict, Accumulator, new_accumulator, record_sample}

abbrev pub sum : Dict ℕ → ℕ
sum [] = 0
sum ((k, n) ∷ d) = n + sum d

get_or-cons :
    (k j : Text) (n : ℕ) (d : Dict ℕ)
    → get_or k 0 ((j, n) ∷ d) ≡ (if text_eq j k then n else get_or k 0 d)
unfolding get_or get
get_or-cons k j n d = elim (Bool-cases (text_eq j k)) [
  | inl same ↦ rw (same, get_or) refl
  | inr different ↦ rw (different, get_or) refl
]

get_or-put :
    (k j : Text) (n : ℕ) (d : Dict ℕ)
    → get_or j 0 (put k n d) ≡ (if text_eq k j then n else get_or j 0 d)
unfolding get_or
get_or-put k j n d = elim (Bool-cases (text_eq k j)) [
  | inl same ↦ rw (get-put k j n d, get_or) (rw same refl)
  | inr different ↦ rw (get-put k j n d, get_or) (rw different refl)
]

sum-put : (k : Text) (v : ℕ) (d : Dict ℕ) → sum (put k v d) + get_or k 0 d ≡ sum d + v
unfolding put
sum-put k v [] = unfold get_or get in omega arith
sum-put k v ((j, n) ∷ d) = elim (Bool-cases (text_eq j k)) [
  | inl same ↦ rw (same, sum) (rw (get_or-cons k j n d) (rw same (omega arith)))
  | inr different ↦
      rw (different, sum) (rw (get_or-cons k j n d) (rw different (omega (arith, sum-put k v d))))
]

sum-restrict : {W : Type 0} (keep : Dict W) (d : Dict ℕ) → sum (restrict keep d) ≤ sum d
unfolding restrict
sum-restrict keep [] = omega arith
sum-restrict keep ((k, n) ∷ d) = elim (Bool-cases (is_in (get k keep))) [
  | inl there ↦ rw (there, sum) (omega (arith, sum-restrict keep d))
  | inr gone ↦ rw (gone, sum) (omega (arith, sum-restrict keep d))
]

pub get-restrict :
    {V W : Type 0} (k : Text) (keep : Dict W) (d : Dict V)
    → get k (restrict keep d) ≡ (if is_in (get k keep) then get k d else none)
unfolding restrict get
get-restrict k keep [] = elim (Bool-cases (is_in (get k keep))) [
  | inl there ↦ rw there refl
  | inr gone ↦ rw gone refl
]
get-restrict k keep ((j, v) ∷ d) =
    let later = get-restrict k keep d in
    elim (Bool-cases (text_eq j k)) [
      | inl same ↦
          let equal = text_eq→eq j k same in
          elim (Bool-cases (is_in (get j keep))) [
            | inl there ↦ ground (arith, same, there, later, equal)
            | inr gone ↦ ground (arith, same, gone, later, equal)
          ]
      | inr different ↦ elim (Bool-cases (is_in (get j keep))) [
        | inl there ↦ ground (arith, different, there, later)
        | inr gone ↦ ground (arith, different, gone, later)
      ]
    ]

-- A sample of the session that runs, or a report for the active sessions.
pub data Moment : Type 0 where
  samples : Option Text → Moment
  reports : Dict Text → Moment

abbrev pub after : Moment → Accumulator → Accumulator
after (samples running) acc = record_sample running acc
after (reports sessions) acc = record acc { samples = restrict sessions acc.samples }

abbrev pub run : List Moment → Accumulator → Accumulator
run [] acc = acc
run (m ∷ moments) acc = run moments (after m acc)

-- The samples of a session since the last report in which it was not active.
abbrev pub counted : Text → List Moment → ℕ → ℕ
counted sid [] n = n
counted sid (samples none ∷ moments) n = counted sid moments n
counted sid (samples (some running) ∷ moments) n =
    counted sid moments (if text_eq running sid then n + 1 else n)
counted sid (reports sessions ∷ moments) n =
    counted sid moments (if is_in (get sid sessions) then n else 0)

abbrev pub sample_count : List Moment → ℕ
sample_count [] = 0
sample_count (samples _ ∷ moments) = 1 + sample_count moments
sample_count (reports _ ∷ moments) = sample_count moments

get_or-after :
    (sid : Text) (m : Moment) (acc : Accumulator)
    → get_or sid 0 (after m acc).samples ≡ counted sid (m ∷ []) (get_or sid 0 acc.samples)
unfolding record_sample
get_or-after sid (samples none) acc = refl
get_or-after sid (samples (some running)) acc =
    get_or-put running sid (get_or running 0 acc.samples + 1) acc.samples
    ∙ one_more (Bool-cases (text_eq running sid))
  where
    one_more :
        (text_eq running sid ≡ true) ⊎ (text_eq running sid ≡ false)
        → (if text_eq running sid
            then get_or running 0 acc.samples + 1
            else get_or sid 0 acc.samples)
          ≡ (if text_eq running sid then get_or sid 0 acc.samples + 1 else get_or sid 0 acc.samples)
    one_more (inl same) =
        rw same (ap (λ k. get_or k 0 acc.samples + 1) (text_eq→eq running sid same))
    one_more (inr different) = rw different refl
get_or-after sid (reports sessions) acc = or_zero (get-restrict sid sessions acc.samples)
  where
    or_zero :
        get sid (restrict sessions acc.samples)
          ≡ (if is_in (get sid sessions) then get sid acc.samples else none)
        → get_or sid 0 (restrict sessions acc.samples)
          ≡ (if is_in (get sid sessions) then get_or sid 0 acc.samples else 0)
    or_zero e = elim (Bool-cases (is_in (get sid sessions))) [
      | inl there ↦ unfold get_or in rw (e, get_or) (rw there refl)
      | inr gone ↦ unfold get_or in rw (e, get_or) (rw gone refl)
    ]

after-bound :
    (m : Moment) (acc : Accumulator)
    → sum acc.samples ≤ acc.total
    → (sum (after m acc).samples ≤ (after m acc).total)
      × ((after m acc).total ≡ acc.total + sample_count (m ∷ []))
unfolding record_sample
after-bound (samples none) acc h = (omega (arith, h), omega arith)
after-bound (samples (some running)) acc h =
    let more = sum-put running (get_or running 0 acc.samples + 1) acc.samples in
    (omega (arith, h, more), omega arith)
after-bound (reports sessions) acc h =
    (omega (arith, h, sum-restrict sessions acc.samples), omega arith)

counted-cons :
    (sid : Text) (m : Moment) (moments : List Moment) (n : ℕ)
    → counted sid (m ∷ moments) n ≡ counted sid moments (counted sid (m ∷ []) n)
counted-cons sid (samples none) moments n = refl
counted-cons sid (samples (some running)) moments n = refl
counted-cons sid (reports sessions) moments n = refl

sample_count-cons :
    (m : Moment) (moments : List Moment)
    → sample_count (m ∷ moments) ≡ sample_count (m ∷ []) + sample_count moments
sample_count-cons (samples running) moments = omega arith
sample_count-cons (reports sessions) moments = omega arith

run-from :
    (sid : Text) (moments : List Moment) (acc : Accumulator)
    → sum acc.samples ≤ acc.total
    → (get_or sid 0 (run moments acc).samples ≡ counted sid moments (get_or sid 0 acc.samples))
      × (sum (run moments acc).samples ≤ (run moments acc).total)
      × ((run moments acc).total ≡ acc.total + sample_count moments)
run-from sid [] acc h = (refl, h, omega arith)
run-from sid (m ∷ moments) acc h =
    let (bound, total) = after-bound m acc h in
    let (count, bound', total') = run-from sid moments (after m acc) bound in
    (
      count
          ∙ ap (counted sid moments) (get_or-after sid m acc)
          ∙ sym (counted-cons sid m moments (get_or sid 0 acc.samples)),
      bound',
      total' ∙ omega (arith, total, sample_count-cons m moments),
    )

get_or-nil : (sid : Text) → get_or sid 0 new_accumulator.samples ≡ 0
unfolding get_or get
get_or-nil sid = refl

-- After any samples and reports, the count of a session is the number of samples that saw it running
-- since the last report in which it was not active; the total is the number of all samples, idle ones
-- included; and the counts of all sessions together are at most the total.
pub run-counts :
    (sid : Text) (moments : List Moment)
    → let acc = run moments new_accumulator in
      (get_or sid 0 acc.samples ≡ counted sid moments 0)
      × (acc.total ≡ sample_count moments)
      × (sum acc.samples ≤ acc.total)
run-counts sid moments =
    let (count, bound, total) = run-from sid moments new_accumulator (omega arith) in
    (count ∙ ap (counted sid moments) (get_or-nil sid), total ∙ omega arith, bound)
