-- ===== src/Construction/Checks.antt =====
-- The single checks of the constructor: what is true of a value that each returns.
use openrtc_python.Prelude.{
  subst, ◌≡◌, refl, sym, ◌∙◌, ℕ, ◌≤◌, Bool, true, false, Option, none, some, List, [], ◌∷◌, arith,
  ◌⊎◌, All, Bool-cases, inl, inr,
}
use openrtc_python.Prelude.Text.{Text, codes, text_eq, strip, is_empty, text_eq→eq}
use openrtc_python.Prelude.Dict.{Dict, put}
use openrtc_python.Prelude.Outcome.{Outcome, ret, >>=-ret, ret-injective}
use openrtc_python.Validation.{
  Argument, boolean, number, natural, negative, floating, other, require_positive_int,
  require_non_negative_number, validate_isolation,
}
use openrtc_python.Validation.Names.{IsToken}
use openrtc_python.Construction.{
  Import, check_caps, strip_optional, exclusive, check_hot_reload, resolve_backend_builder,
}

-- What a stripped option is.
abbrev pub Stripped : Option Text → Option Text → Type 0
Stripped given none = given ≡ none
Stripped given (some value) =
    (raw : Text) × (given ≡ some raw) × (value ≡ strip raw) × (is_empty value ≡ false)

-- Caps of at least one, under names that are tokens.
abbrev pub IsCaps : ℕ → Dict ℕ → Type 0
IsCaps max_length caps = All (λ (name, cap). IsToken max_length name × (1 ≤ cap)) caps

pub exclusive-ret : (b : Bool) {u : Unit {0}} → exclusive b ≡ ret u → b ≡ false
unfolding exclusive
exclusive-ret b e = ground (arith, e)

pub validate_isolation-ret :
    (value result : Text)
    → validate_isolation value ≡ ret result
    → (result ≡ value) × ((value ≡ codes "coroutine") ⊎ (value ≡ codes "process"))
unfolding validate_isolation
validate_isolation-ret value result e = elim (Bool-cases (text_eq value (codes "coroutine"))) [
  | inl first ↦ (
    sym (ret-injective (ground (arith, e, first))),
    inl (text_eq→eq value (codes "coroutine") first),
  )
  | inr not_first ↦ elim (Bool-cases (text_eq value (codes "process"))) [
    | inl second ↦ (
      sym (ret-injective (ground (arith, e, second, not_first))),
      inr (text_eq→eq value (codes "process") second),
    )
    | inr neither ↦ absurd (ground (arith, e, neither, not_first))
  ]
]

pub require_positive_int-ret :
    {F : Type 0} (a : Argument F) (n : ℕ) → require_positive_int a ≡ ret n → 1 ≤ n
unfolding require_positive_int
require_positive_int-ret (boolean b) n e = absurd (ground (arith, e))
require_positive_int-ret (number (natural m)) n e = ground (arith, e)
require_positive_int-ret (number (negative m)) n e = absurd (ground (arith, e))
require_positive_int-ret (number (floating x)) n e = absurd (ground (arith, e))
require_positive_int-ret other n e = absurd (ground (arith, e))

pub strip_optional-ret :
    (given result : Option Text) → strip_optional given ≡ ret result → Stripped given result
unfolding strip_optional
strip_optional-ret none result e = subst (Stripped none) (ret-injective e) refl
strip_optional-ret (some raw) result e = elim (Bool-cases (is_empty (strip raw))) [
  | inl blank ↦ absurd (ground (arith, e, blank))
  | inr set ↦
      let kept : strip_optional (some raw) ≡ ret (some (strip raw)) =
        rw (set, strip_optional) refl in
      subst (Stripped (some raw)) (ret-injective (sym kept ∙ e)) (raw, refl, refl, set)
]

pub resolve_backend_builder-ret :
    (import_backend : Text → Import) (name : Text) {u : Unit {0}}
    → resolve_backend_builder import_backend name ≡ ret u
    → (name ≡ codes "livekit") ⊎ (name ≡ codes "pipecat")
unfolding resolve_backend_builder
resolve_backend_builder-ret import_backend name e =
    elim (Bool-cases (text_eq name (codes "livekit"))) [
      | inl first ↦ inl (text_eq→eq name (codes "livekit") first)
      | inr not_first ↦ elim (Bool-cases (text_eq name (codes "pipecat"))) [
        | inl second ↦ inr (text_eq→eq name (codes "pipecat") second)
        | inr neither ↦ absurd (ground (arith, e, neither, not_first))
      ]
    ]

pub All-put :
    (m : ℕ) (k : Text) (c : ℕ) (d : Dict ℕ)
    → IsToken m k × (1 ≤ c)
    → IsCaps m d
    → IsCaps m (put k c d)
unfolding put
All-put m k c [] h hs = (h, tt)
All-put m k c ((j, w) ∷ d) h hs = elim (Bool-cases (text_eq j k)) [
  | inl same ↦ rw same ((hs.0.0, h.1), hs.1)
  | inr different ↦ rw different (hs.0, All-put m k c d h hs.1)
]

pub check_caps-IsCaps :
    {F : Type 0} (m : ℕ) (require_name : Text → Outcome Text)
    (token : (value name : Text) → require_name value ≡ ret name → IsToken m name)
    (caps : List (Text × Argument F)) (checked result : Dict ℕ)
    → IsCaps m checked
    → check_caps require_name caps checked ≡ ret result
    → IsCaps m result
unfolding check_caps
check_caps-IsCaps m require_name token [] checked result h e = subst (IsCaps m) (ret-injective e) h
check_caps-IsCaps m require_name token ((name, cap) ∷ caps) checked result h e =
    let (n, e1, f1) = >>=-ret (require_name name) _ e in
    let (c, e2, f2) = >>=-ret (require_positive_int cap) _ f1 in
    check_caps-IsCaps m require_name token caps (put n c checked) result
      (All-put m n c checked (token name n e1, require_positive_int-ret cap c e2) h) f2

pub check_hot_reload-ret :
    (enabled : Bool) (backend isolation : Text) {u : Unit {0}}
    → check_hot_reload enabled backend isolation ≡ ret u
    → (enabled ≡ false) ⊎ ((backend ≡ codes "livekit") × (isolation ≡ codes "coroutine"))
unfolding check_hot_reload
check_hot_reload-ret false backend isolation e = inl refl
check_hot_reload-ret true backend isolation e =
    elim (Bool-cases (text_eq backend (codes "livekit"))) [
      | inr foreign ↦ absurd (ground (arith, e, foreign))
      | inl livekit ↦ elim (Bool-cases (text_eq isolation (codes "coroutine"))) [
        | inr process ↦ absurd (ground (arith, e, livekit, process))
        | inl coroutine ↦ inr (
          text_eq→eq backend (codes "livekit") livekit,
          text_eq→eq isolation (codes "coroutine") coroutine,
        )
      ]
    ]

pub require_non_negative_number-ret :
    {F : Type 0} (below_zero : F → Bool) (to_float : ℕ → F) (a : Argument F) (x : F)
    → ((n : ℕ) → below_zero (to_float n) ≡ false)
    → require_non_negative_number below_zero to_float a ≡ ret x
    → below_zero x ≡ false
unfolding require_non_negative_number
require_non_negative_number-ret below_zero to_float (boolean b) x law e = absurd (ground (arith, e))
require_non_negative_number-ret below_zero to_float (number (natural n)) x law e =
    subst (λ y. below_zero y ≡ false) (ret-injective e) (law n)
require_non_negative_number-ret below_zero to_float (number (negative n)) x law e =
    absurd (ground (arith, e))
require_non_negative_number-ret below_zero to_float (number (floating y)) x law e =
    elim (Bool-cases (below_zero y)) [
      | inl below ↦ absurd (ground (arith, e, below))
      | inr above ↦
          subst (λ z. below_zero z ≡ false) (ret-injective (sym (rw above refl) ∙ e)) above
    ]
require_non_negative_number-ret below_zero to_float other x law e = absurd (ground (arith, e))
