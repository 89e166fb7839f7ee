-- ===== src/Prelude/Text.antt =====
-- Python's `str`: the list of its code points.
use Prim.Native.Char.{code}
use Prim.Native.String.{String}
use Prim.Native.Nat.{ℕ}
use mathlib.Core.Bool.{Bool, true, false, ◌||◌, ◌&&◌}
use mathlib.Core.List.{List, [], ◌∷◌, reverse}
use mathlib.Core.Path.{◌≡◌}
use mathlib.Core.Logic.{◌≢◌}
use native.Mathlib.Omega.{arith}
use native.Mathlib.Decide.{ℕ_discrete}
use openrtc_python.Prelude.Tests.{leb, ◌==◌, if◌then◌else◌}

abbrev pub Text : Type 0
Text = List ℕ

-- A literal.
abbrev pub codes : String → Text
codes String.[] = []
codes (String.◌∷◌ c s) = code c ∷ codes s

unfoldable pub Text-discrete : Discrete Text
unfolding ℕ_discrete
Text-discrete = hlevel ℕ_discrete

-- `s == t`
abbrev pub text_eq : Text → Text → Bool
text_eq s t = elim (Text-discrete s t) [ yes _ ↦ true | no _ ↦ false ]

-- `not s`
abbrev pub is_empty : Text → Bool
is_empty [] = true
is_empty (_ ∷ _) = false

-- `name in names`
unfoldable pub contains : Text → List Text → Bool
contains s [] = false
contains s (t ∷ ts) = text_eq t s || contains s ts

-- `s.startswith(p)`
unfoldable pub starts_with : Text → Text → Bool
starts_with s [] = true
starts_with [] (_ ∷ _) = false
starts_with (c ∷ s) (d ∷ p) = c == d && starts_with s p

-- `c.isspace()`, the characters that `str.strip()` removes.
unfoldable pub is_space : ℕ → Bool
is_space c =
    (leb 9 c && leb c 13)
    || (leb 28 c && leb c 32)
    || c == 0x85
    || c == 0xa0
    || c == 0x1680
    || (leb 0x2000 c && leb c 0x200a)
    || c == 0x2028
    || c == 0x2029
    || c == 0x202f
    || c == 0x205f
    || c == 0x3000

-- `s.lstrip()`
unfoldable pub lstrip : Text → Text
lstrip [] = []
lstrip (c ∷ s) = let rest = lstrip s in if is_space c then rest else c ∷ s

-- `s.strip()`
unfoldable pub strip : Text → Text
unfolding lstrip is_space
strip s = reverse (lstrip (reverse (lstrip s)))

pub text_eq→eq : (s t : Text) → text_eq s t ≡ true → s ≡ t
text_eq→eq s t h = ground arith

pub text_eq→ne : (s t : Text) → text_eq s t ≡ false → s ≢ t
text_eq→ne s t h = ground arith
