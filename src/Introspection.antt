-- ===== src/Introspection.antt =====
-- observability/introspection.py, session_memory.py, session_cpu.py, slow_session.py and the state of
-- introspection_runtime.py: what `openrtc top` shows of the live sessions. Times are whole
-- milliseconds; what the code computes with floats goes through `Floats`.
pub mod Memory
pub mod Cpu
pub mod Slow
pub mod Lifetime
pub mod Rows
use openrtc_python.Prelude.{
  ℕ, suc, ◌+◌, ◌-◌, Bool, true, false, Option, none, some, List, [], ◌∷◌, ◌++◌, if◌then◌else◌, map,
  length, leb, ◌==◌,
}
use openrtc_python.Prelude.Text.{Text, text_eq}
use openrtc_python.Prelude.Dict.{Dict, get, get_or, put, remove}

-- Python's floats, as far as the figures need them.
pub record Floats : Type 1 where
  pub Float : Type 0
  pub zero : Float
  pub max : Float → Float → Float
  -- `round(x, 1)`
  pub round_1 : Float → Float
  -- `(rss / 1048576) / n`
  pub share_mb : ℕ → ℕ → Float
  -- `count / total * 100.0`, and `round(count * interval, 2)`
  pub percent : ℕ → ℕ → Float
  pub seconds : ℕ → Float
  -- a time span of so many milliseconds, in seconds
  pub span : ℕ → Float

pub record LiveSession : Type 0 where
  pub session_id : Text
  pub agent_name : Text
  pub tenant : Option Text
  pub started_at : ℕ

-- `SessionIntrospectionRegistry`: the sessions, with livekit's session objects.
abbrev pub Registry : Type 0
Registry = Dict (LiveSession × ℕ)

unfoldable pub on_session_start : LiveSession → ℕ → Registry → Registry
on_session_start info session registry = put info.session_id (info, session) registry

unfoldable pub on_session_end : Text → Registry → Registry
on_session_end job_id registry = remove job_id registry

unfoldable pub active_agents : Registry → Dict Text
active_agents [] = []
active_agents ((sid, (live, session)) ∷ registry) = (sid, live.agent_name) ∷ active_agents registry

unfoldable pub live_sessions : Registry → List LiveSession
live_sessions [] = []
live_sessions ((sid, (live, session)) ∷ registry) = live ∷ live_sessions registry

unfoldable pub session_for : Text → Registry → Option ℕ
session_for sid registry = elim (get sid registry) [ none ↦ none | some entry ↦ some entry.1 ]

abbrev pub active_count : Registry → ℕ
active_count registry = length registry

abbrev pub is_in : {W : Type 0} → Option W → Bool
is_in none = false
is_in (some _) = true

-- `{k: v for k, v in d.items() if k in keep}`
unfoldable pub restrict : {V W : Type 0} → Dict W → Dict V → Dict V
restrict keep [] = []
restrict keep ((k, v) ∷ d) =
    let rest = restrict keep d in if is_in (get k keep) then (k, v) ∷ rest else rest

-- The counts of `SessionCpuAccumulator`.
pub record Accumulator : Type 0 where
  pub samples : Dict ℕ
  pub total : ℕ

abbrev pub new_accumulator : Accumulator
new_accumulator = record { samples = []; total = 0 }

unfoldable pub record_sample : Option Text → Accumulator → Accumulator
record_sample none acc = record acc { total = acc.total + 1 }
record_sample (some sid) acc = record acc {
  samples = put sid (get_or sid 0 acc.samples + 1) acc.samples;
  total = acc.total + 1;
}

-- `SessionCpuSampler`: the accumulator and the last session that was seen to run.
pub record CpuSampler : Type 0 where
  pub acc : Accumulator
  pub last_running : Option Text

unfoldable pub sample_cpu : Option Text → CpuSampler → CpuSampler
sample_cpu none s = record s { acc = record_sample none s.acc }
sample_cpu (some sid) s = record s { acc = record_sample (some sid) s.acc; last_running = some sid }

-- `SlowSessionDetector.evaluate_lag`, in tenths of a millisecond: the session that is blamed.
pub record LoopBlockEvent : Type 0 where
  pub session_id : Option Text
  pub blocked : ℕ

unfoldable pub evaluate_lag : ℕ → Option Text → ℕ → Option LoopBlockEvent
evaluate_lag threshold last_running lag =
    if leb lag threshold then none else some (record { session_id = last_running; blocked = lag })

-- `_on_block`
unfoldable pub on_block : LoopBlockEvent → ℕ → Dict ℕ → Dict ℕ
on_block event now blocks = elim event.session_id [ none ↦ blocks | some sid ↦ put sid now blocks ]

-- The blocks within the window.
unfoldable pub recent : ℕ → ℕ → Dict ℕ → Dict ℕ
recent window now [] = []
recent window now ((sid, at) ∷ blocks) =
    let rest = recent window now blocks in if leb now (at + window) then (sid, at) ∷ rest else rest

-- `sid in _current_slow_ids(now)`
unfoldable pub is_slow : ℕ → ℕ → Dict ℕ → Text → Bool
unfolding recent
is_slow window now blocks sid = elim (get sid (recent window now blocks)) [
  | none ↦ false
  | some _ ↦ true
]

-- `deque.append` with a `maxlen`
unfoldable pub push : {A : Type 0} → ℕ → List A → A → List A
push max_length xs x =
    let longer = xs ++ x ∷ [] in
    if leb (length longer) max_length then longer else drop_first longer
  where
    drop_first : {A : Type 0} → List A → List A
    drop_first [] = []
    drop_first (y ∷ ys) = ys

-- The network rate of `WorkerStatsSampler.sample`: the bytes and the time between two samples.
unfoldable pub net_rate : Option (ℕ × ℕ) → ℕ → ℕ → Option (ℕ × ℕ × ℕ)
net_rate none total now = none
net_rate (some (before, at)) total now = if leb now at then none else some (before, total, now - at)

module _ (floats : Floats) where
  open floats use {Float, zero, max, round_1, share_mb, percent, seconds, span}

  pub record SessionMemory : Type 0 where
    pub agent_name : Text
    pub current_mb : Float
    pub peak_mb : Float

  pub record MemorySampler : Type 0 where
    pub peaks : Dict Float
    pub latest : Dict SessionMemory

  -- The loop of `sample_once`.
  unfoldable pub share_out :
      Float → Dict Text → Dict Float → Dict SessionMemory → Dict Float × Dict SessionMemory
  share_out share [] peaks result = (peaks, result)
  share_out share ((sid, agent_name) ∷ active) peaks result =
      let peak = max (get_or sid zero peaks) share in
      share_out share active (put sid peak peaks) (
        put sid
          (record { agent_name = agent_name; current_mb = round_1 share; peak_mb = round_1 peak })
          result)

  sampled : Option ℕ → Dict Text → Dict Float → MemorySampler
  sampled none active peaks = record { peaks = peaks; latest = [] }
  sampled (some rss) [] peaks = record { peaks = peaks; latest = [] }
  sampled (some rss) (a ∷ active) peaks =
      let (more, result) = share_out (share_mb rss (length (a ∷ active))) (a ∷ active) peaks [] in
      record { peaks = more; latest = result }

  -- `sample_once`, by the resident set size, if it can be read, and the active sessions.
  unfoldable pub sample_memory : Option ℕ → Dict Text → MemorySampler → MemorySampler
  unfolding sampled
  sample_memory rss active s = sampled rss active (restrict active s.peaks)

  pub record SessionCpu : Type 0 where
    pub agent_name : Text
    pub cpu_pct : Float
    pub cpu_seconds : Float
    pub samples : ℕ

  cpu_row : Accumulator → Text → Text → SessionCpu
  cpu_row acc sid agent_name =
      let count = get_or sid 0 acc.samples in
      record {
        agent_name = agent_name;
        cpu_pct = round_1 (if acc.total == 0 then zero else percent count acc.total);
        cpu_seconds = seconds count;
        samples = count;
      }

  -- The loop of the accumulator's `snapshot`.
  unfoldable pub cpu_rows : Accumulator → Dict Text → Dict SessionCpu → Dict SessionCpu
  unfolding cpu_row
  cpu_rows acc [] result = result
  cpu_rows acc ((sid, agent_name) ∷ sessions) result =
      cpu_rows acc sessions (put sid (cpu_row acc sid agent_name) result)

  unfoldable pub snapshot_cpu : Dict Text → Accumulator → Dict SessionCpu × Accumulator
  snapshot_cpu sessions acc =
      let pruned = record acc { samples = restrict sessions acc.samples } in
      (cpu_rows pruned sessions [], pruned)

  pub record SessionRow : Type 0 where
    pub session_id : Text
    pub agent_name : Text
    pub tenant : Option Text
    pub duration : Float
    pub mem_mb : Float
    pub peak_mb : Float
    pub cpu_pct : Float
    pub slow : Bool
    pub pinned : Bool

  session_row :
      Registry
      → Dict SessionMemory
      → Dict SessionCpu
      → (Text → Bool)
      → (ℕ → Bool)
      → ℕ
      → LiveSession
      → SessionRow
  session_row registry memory cpu slow is_pinned now live = record {
    session_id = live.session_id;
    agent_name = live.agent_name;
    tenant = live.tenant;
    duration = round_1 (span (now - live.started_at));
    mem_mb = elim (get live.session_id memory) [ none ↦ zero | some m ↦ m.current_mb ];
    peak_mb = elim (get live.session_id memory) [ none ↦ zero | some m ↦ m.peak_mb ];
    cpu_pct = elim (get live.session_id cpu) [ none ↦ zero | some c ↦ c.cpu_pct ];
    slow = slow live.session_id;
    pinned = elim (session_for live.session_id registry) [ none ↦ false | some s ↦ is_pinned s ];
  }

  unfoldable pub build_session_rows :
      Registry
      → Dict SessionMemory
      → Dict SessionCpu
      → (Text → Bool)
      → (ℕ → Bool)
      → ℕ
      → List SessionRow
  unfolding session_row
  build_session_rows registry memory cpu slow is_pinned now =
      map (session_row registry memory cpu slow is_pinned now) (live_sessions registry)
