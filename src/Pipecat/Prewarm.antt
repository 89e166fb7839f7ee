-- ===== src/Pipecat/Prewarm.antt =====
-- backends/pipecat/prewarm.py: `SharedPrewarm`, the analyzers that all calls share. A factory answers
-- by the number of its call.
use openrtc_python.Prelude.{◌≡◌, refl, ◌∙◌, ℕ, suc, Option, none, some, List, [], ◌∷◌, arith}
use openrtc_python.Prelude.Outcome.{Outcome, ret, raise}

-- One of the two analyzers: what was built, if anything, and how often the factory was called.
pub record Analyzer : Type 0 where
  pub built : Option ℕ
  pub calls : ℕ

pub record SharedPrewarm : Type 0 where
  pub vad : Analyzer
  pub turn : Analyzer

abbrev pub unset : Analyzer
unset = record { built = none; calls = 0 }

unfoldable pub new_prewarm : SharedPrewarm
new_prewarm = record { vad = unset; turn = unset }

from_factory : Outcome ℕ → Analyzer → Outcome ℕ × Analyzer
from_factory (ret x) a = (ret x, record { built = some x; calls = suc a.calls })
from_factory (raise e) a = (raise e, record { built = none; calls = suc a.calls })

-- `if self._vad is _UNSET: self._vad = self._vad_factory()`
unfoldable pub access : (ℕ → Outcome ℕ) → Analyzer → Outcome ℕ × Analyzer
unfolding from_factory
access factory a = elim a.built [ none ↦ from_factory (factory a.calls) a | some x ↦ (ret x, a) ]

unfoldable pub vad : (ℕ → Outcome ℕ) → SharedPrewarm → Outcome ℕ × SharedPrewarm
unfolding access
vad factory p = let (x, a) = access factory p.vad in (x, record p { vad = a })

unfoldable pub turn : (ℕ → Outcome ℕ) → SharedPrewarm → Outcome ℕ × SharedPrewarm
unfolding access
turn factory p = let (x, a) = access factory p.turn in (x, record p { turn = a })

-- Which analyzer a builder reads.
pub data Read : Type 0 where
  reads_vad reads_turn : Read

module _ (vad_factory turn_factory : ℕ → Outcome ℕ) where
  abbrev read : Read → SharedPrewarm → Outcome ℕ × SharedPrewarm
  read reads_vad p = vad vad_factory p
  read reads_turn p = turn turn_factory p

  unfoldable pub run : List Read → SharedPrewarm → SharedPrewarm
  run [] p = p
  run (r ∷ reads) p = run reads (read r p).1

  read_kept :
      (r : Read) (x : ℕ) (p : SharedPrewarm) → p.vad.built ≡ some x → (read r p).1.vad ≡ p.vad
  unfolding vad turn access
  read_kept reads_vad x p h = ground arith
  read_kept reads_turn x p h = refl

  run_kept :
      (reads : List Read) (x : ℕ) (p : SharedPrewarm)
      → p.vad.built ≡ some x
      → (run reads p).vad ≡ p.vad
  unfolding run
  run_kept [] x p h = refl
  run_kept (r ∷ reads) x p h =
      let kept = read_kept r x p h in run_kept reads x (read r p).1 (ground (arith, kept, h)) ∙ kept

  vad-built :
      (x : ℕ) (p : SharedPrewarm)
      → (vad vad_factory p).0 ≡ ret x
      → (vad vad_factory p).1.vad.built ≡ some x
  unfolding vad access from_factory
  vad-built x p h = ground arith

  vad_hit : (x : ℕ) (p : SharedPrewarm) → p.vad.built ≡ some x → vad vad_factory p ≡ (ret x, p)
  unfolding vad access
  vad_hit x p h = ground arith

  -- Once the VAD is built, every later read by any call gets the same analyzer, and the factory is not
  -- called again; whatever is read in between.
  pub vad_again :
      (reads : List Read) (x : ℕ) (p : SharedPrewarm)
      → (vad vad_factory p).0 ≡ ret x
      → let later = run reads (vad vad_factory p).1 in
        (vad vad_factory later ≡ (ret x, later))
        × (later.vad.calls ≡ (vad vad_factory p).1.vad.calls)
  vad_again reads x p h =
      let built = vad-built x p h in
      let kept = run_kept reads x (vad vad_factory p).1 built in
      (vad_hit x _ (ground (arith, kept, built)), ground (arith, kept))
