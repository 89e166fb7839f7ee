-- ===== src/RequestFilter/Ownership.antt =====
-- `_owns_room` against routing: what it accepts, and where the two part.
use openrtc_python.Prelude.{
  ◌≢◌, ◌≡◌, refl, ◌⊎◌, Bool, true, false, Option, none, some, List, [], ◌∷◌, arith, if◌then◌else◌,
  inl, inr, Option-cases, ◌∙◌,
}
use openrtc_python.Prelude.Text.{Text, contains, strip, is_empty}
use openrtc_python.Prelude.Outcome.{
  Returns-of, Exc, Returns, ret, raise, value_error, json_decode_error, Outcome-cases,
}
use openrtc_python.SessionView.{Object, SessionView, str}
use openrtc_python.Routing.{
  Loads, next_iter, require_registered_name, agent_name_from_metadata, metadata_resolve, resolve,
  run_strategies, resolve_agent_name,
}
use openrtc_python.Routing.Resolved.{prefix_match-contains}
use openrtc_python.Routing.Decoding.{
  OnlyDecodeErrors, agent_name_from_metadata-Returns, agent_name_from_metadata-raise,
}
use openrtc_python.RequestFilter.{
  registered_name, prefixed_name, some_agent_name, owns_room, resolve_request_agent_name,
}

module _ (loads : Loads) where
  registered_name-contains :
      (agents : List Text) (sources : List Object) (name : Text)
      → registered_name loads agents sources ≡ ret (some name)
      → contains name agents ≡ true
  unfolding registered_name
  registered_name-contains agents [] name h = ground arith
  registered_name-contains agents (m ∷ more) name h =
      ground (arith, registered_name-contains agents more name)

  prefixed_name-contains :
      (agents : List Text) (room_name : Object) (name : Text)
      → prefixed_name loads agents room_name ≡ some name
      → contains name agents ≡ true
  unfolding prefixed_name
  prefixed_name-contains agents (str r) name h = (prefix_match-contains r agents name h).0
  prefixed_name-contains agents _ name h = ground arith

  request-some_agent :
      (agents : List Text) (name : Text) (room_name job_metadata room_metadata : Object)
      → contains name agents ≡ true
      → resolve_request_agent_name loads agents room_name job_metadata room_metadata
        ≡ some_agent_name loads agents room_name job_metadata room_metadata
  unfolding resolve_request_agent_name contains
  request-some_agent [] name _ _ _ h = cc
  request-some_agent (a ∷ agents) name _ _ _ h = refl

  some_agent_name-registered :
      (agents : List Text) (name : Text) (room_name job_metadata room_metadata : Object)
      → registered_name loads agents (job_metadata ∷ room_metadata ∷ []) ≡ ret (some name)
      → some_agent_name loads agents room_name job_metadata room_metadata ≡ ret (some name)
  unfolding some_agent_name
  some_agent_name-registered agents name room_name jm rm e = rw e

  some_agent_name-prefixed :
      (agents : List Text) (name : Text) (room_name job_metadata room_metadata : Object)
      → registered_name loads agents (job_metadata ∷ room_metadata ∷ []) ≡ ret none
      → prefixed_name loads agents room_name ≡ some name
      → some_agent_name loads agents room_name job_metadata room_metadata ≡ ret (some name)
  unfolding some_agent_name
  some_agent_name-prefixed agents name room_name jm rm e p = ground arith

  -- A job that the ownership filter takes is attributed to a registered agent by an explicit
  -- signal, metadata or the room-name prefix, and not by the fallback.
  pub owns_room-explicit :
      (agents : List Text) (room_name job_metadata room_metadata : Object)
      → owns_room loads agents room_name job_metadata room_metadata ≡ ret true
      → (name : Text) × (contains name agents ≡ true)
        × (resolve_request_agent_name loads agents room_name job_metadata room_metadata
            ≡ ret (some name))
        × ((registered_name loads agents (job_metadata ∷ room_metadata ∷ []) ≡ ret (some name))
            ⊎ (prefixed_name loads agents room_name ≡ some name))
  unfolding owns_room some_agent_name
  owns_room-explicit agents room_name job_metadata room_metadata h =
      let sources = job_metadata ∷ room_metadata ∷ [] in
      elim (Outcome-cases (registered_name loads agents sources)) [
        | inl (some n, e) ↦
            let known = registered_name-contains agents sources n e in
            (
              n,
              known,
              request-some_agent agents n room_name _ _ known
                  ∙ some_agent_name-registered agents n room_name _ _ e,
              inl e,
            )
        | inl (none, e) ↦ elim (Option-cases (prefixed_name loads agents room_name)) [
          | inl p ↦ absurd (ground arith)
          | inr (n, p) ↦
              let known = prefixed_name-contains agents room_name n p in
              (
                n,
                known,
                request-some_agent agents n room_name _ _ known
                    ∙ some_agent_name-prefixed agents n room_name _ _ e p,
                inr p,
              )
        ]
        | inr (x, e) ↦ absurd (ground arith)
      ]

  -- The ownership filter accepts, yet routing rejects the session: job metadata names an agent that
  -- is not registered, and room metadata names one that is.
  pub owns_room_unroutable :
      (agents : List Text) (view : SessionView) (foreign ours : Text)
      → agent_name_from_metadata loads view.job_metadata ≡ ret (some foreign)
      → contains foreign agents ≡ false
      → agent_name_from_metadata loads view.room_metadata ≡ ret (some ours)
      → contains ours agents ≡ true
      → (owns_room loads agents (str view.room_name) view.job_metadata view.room_metadata
          ≡ ret true)
        × (resolve_agent_name loads agents view none ≡ raise value_error)
  unfolding owns_room registered_name resolve_agent_name run_strategies resolve metadata_resolve
      require_registered_name
  owns_room_unroutable agents view foreign ours ej nf er known = (ground arith, ground arith)

registered_name-Returns :
    (loads : Loads)
    → OnlyDecodeErrors loads
    → (agents : List Text) (sources : List Object)
    → (found : Option Text) × (registered_name loads agents sources ≡ ret found)
unfolding registered_name
registered_name-Returns loads decodes agents [] = (none, refl)
registered_name-Returns loads decodes agents (m ∷ more) =
    let (named, e) = agent_name_from_metadata-Returns loads decodes m in
    let (rest, r) = registered_name-Returns loads decodes agents more in
    elim (Option-cases named) [
      | inl nobody ↦ (rest, ground arith)
      | inr (n, some_n) ↦ (if contains n agents then some n else rest, ground arith)
    ]

module _ (loads : Loads) (agents : List Text) (room_name job_metadata room_metadata : Object) where
  owns_room_of :
      (found : Option Text)
      → registered_name loads agents (job_metadata ∷ room_metadata ∷ []) ≡ ret found
      → (owned : Bool) × (owns_room loads agents room_name job_metadata room_metadata ≡ ret owned)
  unfolding owns_room
  owns_room_of (some n) e = (true, ground arith)
  owns_room_of none e = elim (Option-cases (prefixed_name loads agents room_name)) [
    | inl p ↦ (false, ground arith)
    | inr (n, p) ↦ (true, ground arith)
  ]

  some_agent_name_of :
      (first : Text) (more : List Text) (found : Option Text)
      → agents ≡ first ∷ more
      → registered_name loads agents (job_metadata ∷ room_metadata ∷ []) ≡ ret found
      → (n : Text) × (some_agent_name loads agents room_name job_metadata room_metadata
          ≡ ret (some n))
  unfolding some_agent_name next_iter
  some_agent_name_of first more (some n) a e = (n, ground arith)
  some_agent_name_of first more none a e =
      elim (Option-cases (prefixed_name loads agents room_name)) [
        | inl p ↦ (first, ground arith)
        | inr (n, p) ↦ (n, ground arith)
      ]

attributed :
    (loads : Loads)
    → OnlyDecodeErrors loads
    → (agents : List Text) (room_name job_metadata room_metadata : Object)
    → Returns (resolve_request_agent_name loads agents room_name job_metadata room_metadata)
unfolding resolve_request_agent_name
attributed loads decodes [] room_name job_metadata room_metadata = tt
attributed loads decodes (a ∷ agents) room_name job_metadata room_metadata =
    let (found, e) =
      registered_name-Returns loads decodes (a ∷ agents) (job_metadata ∷ room_metadata ∷ []) in
    let (n, named) =
      some_agent_name_of loads (a ∷ agents) room_name job_metadata room_metadata a agents found refl
        e in
    Returns-of _ (some n) named

-- As long as `json.loads` raises nothing but decoding errors, no job crashes the ownership filter
-- or the attribution of a job to an agent.
pub owns_room-Returns :
    (loads : Loads)
    → OnlyDecodeErrors loads
    → (agents : List Text) (room_name job_metadata room_metadata : Object)
    → Returns (owns_room loads agents room_name job_metadata room_metadata)
      × Returns (resolve_request_agent_name loads agents room_name job_metadata room_metadata)
owns_room-Returns loads decodes agents room_name job_metadata room_metadata =
    let (found, e) =
      registered_name-Returns loads decodes agents (job_metadata ∷ room_metadata ∷ []) in
    let (owned, o) = owns_room_of loads agents room_name job_metadata room_metadata found e in
    (Returns-of _ owned o, attributed loads decodes agents room_name job_metadata room_metadata)

-- Job metadata on which `json.loads` raises another exception (a `RecursionError` from deep
-- nesting, the `ValueError` of a number with too many digits) crashes the ownership filter.
pub owns_room-raise :
    (loads : Loads) (agents : List Text) (room_name room_metadata : Object) (s : Text) (e : Exc)
    → is_empty (strip s) ≡ false
    → loads (strip s) ≡ raise e
    → e ≢ json_decode_error
    → owns_room loads agents room_name (str s) room_metadata ≡ raise e
unfolding owns_room registered_name
owns_room-raise loads agents room_name room_metadata s e full bad other =
    rw (agent_name_from_metadata-raise loads s e full bad other)
