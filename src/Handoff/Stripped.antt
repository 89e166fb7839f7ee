-- ===== src/Handoff/Stripped.antt =====
-- `_strip_openrtc_only_flags_for_livekit`: the arguments that LiveKit is left with.
use openrtc_python.Prelude.{
  subst, all, ◌≡◌, refl, ap, ◌∙◌, Bool, true, false, ◌||◌, ◌&&◌, not, all, subst, sym, List, [],
  ◌∷◌, ◌++◌, arith, Bool-cases, inl, inr,
}
use openrtc_python.Prelude.Text.{text_eq→eq, Text-discrete, Text, text_eq, contains}
use openrtc_python.Handoff.{
  bool_flags, not, double_dash, before_equals, has_equals, takes_value, is_switch, flags_with_value,
  bool_flags, pass, drop, drop_with_value, treatment, strip_from, strip_openrtc_only_flags,
}

-- One piece of a command line: an argument of LiveKit's, or an option of OpenRTC's in one of its
-- three spellings, a switch, `name=value`, or a flag with a value of any form behind it.
pub data Piece : Type 0 where
  livekit : Text → Piece
  switch : Text → Piece
  assigned : Text → Piece
  option : Text → Text → Piece

abbrev pub IsPiece : Piece → Type 0
IsPiece (livekit arg) =
    (text_eq arg double_dash ≡ false)
    × (takes_value (before_equals arg) ≡ false)
    × (is_switch (before_equals arg) ≡ false)
IsPiece (switch flag) = is_switch flag ≡ true
IsPiece (assigned arg) =
    (has_equals arg ≡ true)
    × ((takes_value (before_equals arg) || is_switch (before_equals arg)) ≡ true)
IsPiece (option flag value) = takes_value flag ≡ true

abbrev pub ArePieces : List Piece → Type 0
ArePieces [] = Unit
ArePieces (p ∷ ps) = IsPiece p × ArePieces ps

abbrev pub written : Piece → List Text
written (livekit arg) = arg ∷ []
written (switch flag) = flag ∷ []
written (assigned arg) = arg ∷ []
written (option flag value) = flag ∷ value ∷ []

-- The command line that the pieces make.
abbrev pub command_line : List Piece → List Text → List Text
command_line [] tail = tail
command_line (p ∷ ps) tail = written p ++ command_line ps tail

-- LiveKit's own arguments.
abbrev pub livekit_args : List Piece → List Text → List Text
livekit_args [] tail = tail
livekit_args (livekit arg ∷ ps) tail = arg ∷ livekit_args ps tail
livekit_args (_ ∷ ps) tail = livekit_args ps tail

before_equals_none : (s : Text) → has_equals s ≡ false → before_equals s ≡ s
unfolding before_equals has_equals
before_equals_none [] h = refl
before_equals_none (c ∷ s) h = ground (arith, before_equals_none s)

-- What holds of every text of a list holds of one that it contains.
contains-all :
    (q : Text → Bool) (s : Text) (ts : List Text)
    → all q ts ≡ true
    → contains s ts ≡ true
    → q s ≡ true
unfolding contains
contains-all q s [] h m = cc
contains-all q s (t ∷ ts) h m = elim (Bool-cases (text_eq t s)) [
  | inl same ↦ subst (λ u. q u ≡ true) (text_eq→eq t s same) (ground arith)
  | inr other ↦ contains-all q s ts (ground arith) (ground arith)
]

abbrev plain : Text → Bool
plain s = not (has_equals s) && not (text_eq s double_dash)

switch-plain : (flag : Text) → is_switch flag ≡ true → plain flag ≡ true
unfolding has_equals Text-discrete
switch-plain flag h = contains-all plain flag bool_flags refl h

option-plain : (flag : Text) → takes_value flag ≡ true → (plain flag && not (is_switch flag)) ≡ true
unfolding has_equals contains Text-discrete
option-plain flag h = contains-all (λ s. plain s && not (is_switch s)) flag flags_with_value refl h

treatment-livekit : (arg : Text) → IsPiece (livekit arg) → treatment arg ≡ pass
unfolding treatment
treatment-livekit arg (dash, valued, switched) = elim (Bool-cases (has_equals arg)) [
  | inl has ↦ ground arith
  | inr none ↦ ground (arith, before_equals_none arg none)
]

treatment-switch : (flag : Text) → is_switch flag ≡ true → treatment flag ≡ drop
unfolding treatment
treatment-switch flag h = ground (arith, switch-plain flag h)

has_equals_dash : (arg : Text) → text_eq arg double_dash ≡ true → has_equals arg ≡ false
unfolding has_equals
has_equals_dash arg h = subst (λ s. has_equals s ≡ false) (sym (text_eq→eq arg double_dash h)) refl

treatment-assigned : (arg : Text) → IsPiece (assigned arg) → treatment arg ≡ drop
unfolding treatment
treatment-assigned arg (has, ours) = elim (Bool-cases (text_eq arg double_dash)) [
  | inl dash ↦ cc (has_equals_dash arg dash)
  | inr other ↦ ground arith
]

treatment-option : (flag : Text) → takes_value flag ≡ true → treatment flag ≡ drop_with_value
unfolding treatment
treatment-option flag h = ground (arith, option-plain flag h)

strip_pass :
    (arg : Text) (args : List Text)
    → treatment arg ≡ pass
    → strip_from false (arg ∷ args) ≡ arg ∷ strip_from false args
unfolding strip_from
strip_pass arg args h = ground arith

strip_drop :
    (arg : Text) (args : List Text)
    → treatment arg ≡ drop
    → strip_from false (arg ∷ args) ≡ strip_from false args
unfolding strip_from
strip_drop arg args h = ground arith

strip_option :
    (arg value : Text) (args : List Text)
    → treatment arg ≡ drop_with_value
    → strip_from false (arg ∷ value ∷ args) ≡ strip_from false args
unfolding strip_from
strip_option arg value args h = ground arith

strip_pieces :
    (ps : List Piece) (tail : List Text)
    → ArePieces ps
    → strip_from false (command_line ps tail) ≡ livekit_args ps (strip_from false tail)
strip_pieces [] tail h = refl
strip_pieces (livekit arg ∷ ps) tail h =
    strip_pass arg (command_line ps tail) (treatment-livekit arg h.0)
    ∙ ap (◌∷◌ arg) (strip_pieces ps tail h.1)
strip_pieces (switch flag ∷ ps) tail h =
    strip_drop flag (command_line ps tail) (treatment-switch flag h.0) ∙ strip_pieces ps tail h.1
strip_pieces (assigned arg ∷ ps) tail h =
    strip_drop arg (command_line ps tail) (treatment-assigned arg h.0) ∙ strip_pieces ps tail h.1
strip_pieces (option flag value ∷ ps) tail h =
    strip_option flag value (command_line ps tail) (treatment-option flag h.0)
    ∙ strip_pieces ps tail h.1

-- Of a command line that any of LiveKit's arguments and OpenRTC's options make up, in any order and
-- with any values, also ones that look like flags, LiveKit is left with its own arguments, in order,
-- and with what is left of the tail. LiveKit's arguments are those that do not name an option of the
-- two lists and are not `--`.
pub strip_openrtc_only_flags-command_line :
    (ps : List Piece) (tail : List Text)
    → ArePieces ps
    → strip_openrtc_only_flags (command_line ps tail)
      ≡ livekit_args ps (strip_openrtc_only_flags tail)
unfolding strip_openrtc_only_flags
strip_openrtc_only_flags-command_line ps tail h = strip_pieces ps tail h
