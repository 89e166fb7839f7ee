-- ===== src/TenantConfig/Cache.antt =====
-- The cache of `TenantConfigResolver`: one answer for each tenant, for good, and its own.
use openrtc_python.Prelude.{
  ℕ, ◌≤◌, ◌≡◌, refl, Option, none, some, List, [], ◌∷◌, ◌++◌, arith, count_if, count_if-append,
  if◌then◌else◌, Option-cases, inl, inr, ◌∙◌, length, ◌+◌,
}
use openrtc_python.Prelude.Text.{Text, text_eq}
use openrtc_python.Prelude.Dict.{Dict, get, get-put, get-put_self}
use openrtc_python.TenantConfig.{
  Source, Resolver, new_resolver, lookup, warn_if_missing, miss, resolve,
}

module _ {Provider : Type 0} where
  -- The resolver after a session of each of these tenants.
  unfoldable pub resolve_all : List Text → Resolver Provider → Resolver Provider
  resolve_all [] r = r
  resolve_all (t ∷ ts) r = resolve_all ts (resolve t r).1

  resolve_cached :
      (t u : Text) (r : Resolver Provider) (config : Option (Dict Provider))
      → get u r.cache ≡ some config
      → get u (resolve t r).1.cache ≡ some config
  unfolding resolve miss
  resolve_cached t u r config h =
      ground (arith, get-put t u (lookup r.source (length r.asked) t) r.cache)

  resolve_all_cached :
      (ts : List Text) (u : Text) (r : Resolver Provider) (config : Option (Dict Provider))
      → get u r.cache ≡ some config
      → get u (resolve_all ts r).cache ≡ some config
  unfolding resolve_all
  resolve_all_cached [] u r config h = h
  resolve_all_cached (t ∷ ts) u r config h =
      resolve_all_cached ts u (resolve t r).1 config (resolve_cached t u r config h)

  resolve_then_cached :
      (t : Text) (r : Resolver Provider) → get t (resolve t r).1.cache ≡ some (resolve t r).0
  unfolding resolve miss
  resolve_then_cached t r =
      ground (arith, get-put_self t (lookup r.source (length r.asked) t) r.cache)

  resolve_hit :
      (t : Text) (r : Resolver Provider) (config : Option (Dict Provider))
      → get t r.cache ≡ some config
      → resolve t r ≡ (config, r)
  unfolding resolve
  resolve_hit t r config h = ground arith

  -- What a tenant's first session resolves to is what all its later sessions get, whichever
  -- sessions of any tenants come between, and those later calls change nothing: the source is not
  -- asked again, and no second warning is logged.
  pub resolve_again :
      (t : Text) (between : List Text) (r : Resolver Provider)
      → let later = resolve_all between (resolve t r).1 in
        resolve t later ≡ ((resolve t r).0, later)
  resolve_again t between r =
      resolve_hit t _ (resolve t r).0
        (resolve_all_cached between t (resolve t r).1 (resolve t r).0 (resolve_then_cached t r))

abbrev pub times : Text → List Text → ℕ
times u = count_if (λ t. text_eq t u)

times-append :
    (u t : Text) (ts : List Text)
    → times u (ts ++ t ∷ []) ≡ times u ts + (if text_eq t u then 1 else 0)
times-append u t ts = count_if-append (λ t. text_eq t u) ts (t ∷ []) ∙ ground arith

module _ {Provider : Type 0} where
  -- One tenant's standing with the source.
  pub record Asked (u : Text) (r : Resolver Provider) : Type 0 where
    pub unasked : get u r.cache ≡ none → times u r.asked ≡ 0
    pub at_most_once : times u r.asked ≤ 1
    pub warned_le_asked : times u r.warned ≤ times u r.asked

  warn_if_missing-le :
      (config : Option (Dict Provider)) (t u : Text) (warned : List Text)
      → times u (warn_if_missing config t warned) ≤ times u warned + (if text_eq t u then 1 else 0)
  warn_if_missing-le none t u warned = omega (arith, times-append u t warned)
  warn_if_missing-le (some c) t u warned = omega arith

  miss-Asked :
      (t u : Text) (r : Resolver Provider) → get t r.cache ≡ none → Asked u r → Asked u (miss t r).1
  unfolding miss
  miss-Asked t u r new a =
      let config = lookup r.source (length r.asked) t in
      let p = get-put t u config r.cache in
      let n = times-append u t r.asked in
      let w = warn_if_missing-le config t u r.warned in
      record {
        unasked = λ h. n ∙ ground (arith, p, a.unasked, h);
        at_most_once = ground (arith, n, a.at_most_once, a.unasked);
        warned_le_asked = omega (arith, n, w, a.warned_le_asked);
      }

  resolve-Asked : (t u : Text) (r : Resolver Provider) → Asked u r → Asked u (resolve t r).1
  unfolding resolve
  resolve-Asked t u r a = elim (Option-cases (get t r.cache)) [
    | inl new ↦ rw (new, resolve) (miss-Asked t u r new a)
    | inr (config, hit) ↦ rw (hit, resolve) a
  ]

  resolve_all-Asked :
      (ts : List Text) (u : Text) (r : Resolver Provider) → Asked u r → Asked u (resolve_all ts r)
  unfolding resolve_all
  resolve_all-Asked [] u r a = a
  resolve_all-Asked (t ∷ ts) u r a = resolve_all-Asked ts u (resolve t r).1 (resolve-Asked t u r a)

  -- From an empty cache the source is asked for a tenant at most once, and a missing config is
  -- logged at most once for each tenant, whatever sessions come.
  pub resolve_all_once :
      (source : Source Provider) (ts : List Text) (u : Text)
      → let r = resolve_all ts (new_resolver source) in
        (times u r.asked ≤ 1) × (times u r.warned ≤ 1)
  unfolding new_resolver
  resolve_all_once source ts u =
      let a = resolve_all-Asked ts u (new_resolver source) (record {
        unasked = λ h. refl;
        at_most_once = omega arith;
        warned_le_asked = omega arith;
      }) in
      omega (arith, a.at_most_once, a.warned_le_asked)
