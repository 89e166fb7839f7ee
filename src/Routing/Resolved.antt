-- ===== src/Routing/Resolved.antt =====
-- `_resolve_agent_config`: a resolved name is always a registered one, so the lookup after it
-- succeeds.
use openrtc_python.Prelude.{
  ◌≡◌, ◌⊎◌, true, Option, none, some, List, [], ◌∷◌, ap, arith, ◌∙◌, Bool-cases, inl, inr,
}
use openrtc_python.Prelude.Text.{Text, contains, text_eq}
use openrtc_python.Prelude.Dict.{Dict, get, keys}
use openrtc_python.Prelude.Outcome.{Outcome, Exc, ret, raise, >>=-ret, Outcome-cases}
use openrtc_python.SessionView.{Object, SessionView, JobContext, for_livekit}
use openrtc_python.Routing.{
  Loads, Router, Strategy, job_metadata_strategy, room_metadata_strategy, room_name_prefix,
  default_fallback, startswith_agent, prefix_match, next_iter, require_registered_name,
  agent_name_from_metadata, registered, metadata_resolve, resolve, run_strategies, router_answer,
  resolve_via_router, via_router, resolve_agent_name, get_item, resolve_agent_config,
}

pub prefix_match-contains :
    (room_name : Text) (names : List Text) (name : Text)
    → prefix_match room_name names ≡ some name
    → (contains name names ≡ true) × (startswith_agent room_name name ≡ true)
unfolding prefix_match contains
prefix_match-contains r [] name h = ground arith
prefix_match-contains r (n ∷ names) name h = ground (arith, prefix_match-contains r names name)

pub get-contains {ℓ} :
    {V : Type ℓ} (d : Dict V) (k : Text) → contains k (keys d) ≡ true → (v : V) × (get k d ≡ some v)
unfolding contains get
get-contains [] k h = absurd (ground arith)
get-contains ((j, v) ∷ d) k h = elim (Bool-cases (text_eq j k)) [
  | inl same ↦ (v, rw same)
  | inr other ↦ rw other (get-contains d k (ground arith))
]

module _ (loads : Loads) where
  registered-contains :
      (names : List Text) (found : Option Text) (name : Text)
      → registered loads names found ≡ ret (some name)
      → (found ≡ some name) × (contains name names ≡ true)
  unfolding registered require_registered_name
  registered-contains names found name h = ground arith

  metadata_resolve-contains :
      (names : List Text) (metadata : Object) (name : Text)
      → metadata_resolve loads names metadata ≡ ret (some name)
      → (agent_name_from_metadata loads metadata ≡ ret (some name)) × (contains name names ≡ true)
  unfolding metadata_resolve
  metadata_resolve-contains names metadata name h =
      let (found, e, r) =
        >>=-ret (agent_name_from_metadata loads metadata) (registered loads names) h in
      let (same, known) = registered-contains names found name r in (e ∙ ap ret same, known)

  resolve-contains :
      (s : Strategy) (names : List Text) (view : SessionView) (name : Text)
      → resolve loads s names view ≡ ret (some name)
      → contains name names ≡ true
  unfolding resolve next_iter contains
  resolve-contains job_metadata_strategy names view name h =
      (metadata_resolve-contains names view.job_metadata name h).1
  resolve-contains room_metadata_strategy names view name h =
      (metadata_resolve-contains names view.room_metadata name h).1
  resolve-contains room_name_prefix names view name h =
      (prefix_match-contains view.room_name names name (ground arith)).0
  resolve-contains default_fallback [] view name h = ground arith
  resolve-contains default_fallback (n ∷ names) view name h = ground arith

  run_strategies-contains :
      (strategies : List Strategy) (names : List Text) (view : SessionView) (name : Text)
      → run_strategies loads strategies names view ≡ ret name
      → contains name names ≡ true
  unfolding run_strategies
  run_strategies-contains [] names view name h = ground arith
  run_strategies-contains (s ∷ more) names view name h =
      ground
        (arith, resolve-contains s names view name, run_strategies-contains more names view name)

  router_answer-contains :
      (names : List Text) (answer : Outcome (Option Text)) (name : Text)
      → router_answer loads names answer ≡ ret (some name)
      → (answer ≡ ret (some name)) × (contains name names ≡ true)
  unfolding router_answer
  router_answer-contains names (raise e) name h = ground arith
  router_answer-contains names (ret none) name h = ground arith
  router_answer-contains names (ret (some n)) name h = ground arith

  -- The name that routing resolves, by a custom router or by the chain, is a registered one.
  pub resolve_agent_name-contains :
      (names : List Text) (view : SessionView) (router : Option Router) (name : Text)
      → resolve_agent_name loads names view router ≡ ret name
      → contains name names ≡ true
  unfolding resolve_agent_name via_router resolve_via_router
  resolve_agent_name-contains names view router name h =
      grind (arith, router_answer-contains, run_strategies-contains)

  module _ {ℓ} {Config : Type ℓ} where
    get_item_of :
        (agents : Dict Config) (name : Text) {c : Config}
        → get name agents ≡ some c
        → get_item loads agents name ≡ ret c
    get_item_of agents name found = ground arith

    -- With an agent registered, the config that a session gets is the one stored under the resolved
    -- name, which is registered; where name resolution raises, the session raises the same.
    pub resolve_agent_config-get :
        (entry : Text × Config) (more : Dict Config) (ctx : JobContext) (router : Option Router)
        → let agents = entry ∷ more in
          let named = resolve_agent_name loads (keys agents) (for_livekit ctx) router in
          ((name : Text) × (c : Config) × (named ≡ ret name)
            × (contains name (keys agents) ≡ true)
            × (get name agents ≡ some c)
            × (resolve_agent_config loads agents ctx router ≡ ret c))
          ⊎ ((e : Exc) × (named ≡ raise e)
              × (resolve_agent_config loads agents ctx router ≡ raise e))
    unfolding resolve_agent_config
    resolve_agent_config-get entry more ctx router =
        let agents : Dict Config = entry ∷ more in
        let named = resolve_agent_name loads (keys agents) (for_livekit ctx) router in
        elim (Outcome-cases named) [
          | inl (name, e) ↦
              let known =
                resolve_agent_name-contains (keys agents) (for_livekit ctx) router name e in
              let (c, found) = get-contains agents name known in
              inl (name, c, e, known, found, rw e (get_item_of agents name found))
          | inr (x, e) ↦ inr (x, e, rw e)
        ]
