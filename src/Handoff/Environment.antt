-- ===== src/Handoff/Environment.antt =====
-- `_livekit_env_overrides`: the environment behind the `with` block is the one before it.
use openrtc_python.Prelude.{
  ℕ, ◌≡◌, refl, ap, ◌∙◌, Option, none, some, List, [], ◌∷◌, arith, Bool-cases, inl, inr,
  if◌then◌else◌,
}
use openrtc_python.Prelude.Text.{Text, text_eq, text_eq→eq, contains}
use openrtc_python.Prelude.Dict.{get, get-put, get-remove}
use openrtc_python.Prelude.Outcome.{Outcome}
use openrtc_python.Handoff.{
  Environ, livekit_env_override_keys, snapshot_env, restore_key, restore_env, Overrides, overridden,
  with_env_overrides,
}

get-restore_key :
    (key k : Text) (previous : Option Text) (env : Environ)
    → get k (restore_key key previous env) ≡ (if text_eq key k then previous else get k env)
get-restore_key key k none env = get-remove key k env
get-restore_key key k (some previous) env = get-put key k previous env

restored_at :
    (key k : Text) (before env : Environ)
    → get k env ≡ get k before
    → (if text_eq key k then get key before else get k env) ≡ get k before
restored_at key k before env h = ground (arith, text_eq→eq key k)

-- A value that an environment has at `k` already survives the rest of the restoring.
restore_kept :
    (keys : List Text) (k : Text) (before env : Environ)
    → get k env ≡ get k before
    → get k (restore_env (snapshot_env keys before) env) ≡ get k before
unfolding restore_env snapshot_env
restore_kept [] k before env h = h
restore_kept (key ∷ keys) k before env h =
    restore_kept keys k before (restore_key key (get key before) env)
      (get-restore_key key k (get key before) env ∙ restored_at key k before env h)

get-restore_env :
    (keys : List Text) (k : Text) (before env : Environ)
    → get k (restore_env (snapshot_env keys before) env)
      ≡ (if contains k keys then get k before else get k env)
unfolding restore_env snapshot_env contains
get-restore_env [] k before env = refl
get-restore_env (key ∷ keys) k before env =
    let restored = restore_key key (get key before) env in
    let at = get-restore_key key k (get key before) env in
    elim (Bool-cases (text_eq key k)) [
      | inl same ↦ rw same (
          restore_kept keys k before restored
            (at ∙ rw same (ap (λ j. get j before) (text_eq→eq key k same))))
      | inr other ↦ rw other (
          get-restore_env keys k before restored
          ∙ ap (λ v. if contains k keys then get k before else v) (at ∙ rw other))
    ]

-- Whatever the options override and whatever the body does to the environment, and whether it returns
-- or raises: behind the block each of the four LiveKit variables is set as it was before, or unset if
-- it was unset; every other variable is as the body left it, and the body's result is passed on.
pub with_env_overrides-restores :
    (o : Overrides) (body : Environ → Outcome ℕ × Environ) (env : Environ) (k : Text)
    → let (result, after) = with_env_overrides o body env in
      let left = body (overridden o env) in
      (get k after ≡ (if contains k livekit_env_override_keys then get k env else get k left.1))
      × (result ≡ left.0)
unfolding with_env_overrides
with_env_overrides-restores o body env k =
    (get-restore_env livekit_env_override_keys k env (body (overridden o env)).1, refl)
