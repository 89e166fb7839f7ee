-- ===== src/TenantConfig/Static.antt =====
-- A resolver over a static map: its cache answers as the map does.
use openrtc_python.Prelude.{ℕ, ◌≡◌, refl, ap, Option, some, arith, Option-cases, inl, inr, length}
use openrtc_python.Prelude.Text.{Text, text_eq→eq}
use openrtc_python.Prelude.Dict.{Dict, get, get-put}
use openrtc_python.TenantConfig.{static, Resolver, lookup, miss, resolve, new_resolver}

module _ {P : Type 0} (configs : Dict (Dict P)) where
  -- The cache says nothing else than the map.
  pub record IsFaithful (r : Resolver P) : Type 0 where
    pub source : r.source ≡ static configs
    pub cached :
        (u : Text) (config : Option (Dict P)) → get u r.cache ≡ some config → config ≡ get u configs

  lookup-static :
      (t : Text) (r : Resolver P) (n : ℕ) → IsFaithful r → lookup r.source n t ≡ get t configs
  unfolding lookup
  lookup-static t r n f = ap (λ s. lookup s n t) f.source

  miss-IsFaithful :
      (t : Text) (r : Resolver P)
      → IsFaithful r
      → ((miss t r).0 ≡ get t configs) × IsFaithful (miss t r).1
  unfolding miss
  miss-IsFaithful t r f =
      let found = lookup-static t r (length r.asked) f in
      (
        found,
        record {
          source = f.source;
          cached = λ u config h.
              let at = get-put t u (lookup r.source (length r.asked) t) r.cache in
              ground (arith, at, found, h, f.cached u config, text_eq→eq t u);
        },
      )

  -- A resolve answers with the map's entry and keeps the cache faithful.
  pub resolve-IsFaithful :
      (t : Text) (r : Resolver P)
      → IsFaithful r
      → ((resolve t r).0 ≡ get t configs) × IsFaithful (resolve t r).1
  unfolding resolve
  resolve-IsFaithful t r f = elim (Option-cases (get t r.cache)) [
    | inl new ↦ rw (new, resolve) (miss-IsFaithful t r f)
    | inr (config, known) ↦ rw (known, resolve) (f.cached t config known, f)
  ]

  pub new_resolver-IsFaithful : IsFaithful (new_resolver (static configs))
  unfolding new_resolver get
  new_resolver-IsFaithful = record { source = refl; cached = λ u config h. cc }
