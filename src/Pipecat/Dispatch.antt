-- ===== src/Pipecat/Dispatch.antt =====
-- backends/pipecat/dispatch.py and session.py: one call, from its routing to its observed session, and
-- its agreement with the livekit backend.
use openrtc_python.Prelude.{
  ◌≡◌, ◌∙◌, sym, subst, ℕ, true, Option, none, some, [], ◌∷◌, ◌⊎◌, inl, inr,
}
use openrtc_python.Prelude.Text.{Text, contains}
use openrtc_python.Prelude.Dict.{Dict, get, keys}
use openrtc_python.Prelude.Outcome.{
  Outcome, Exc, ret, raise, runtime_error, key_error, ◌>>=◌, Outcome-cases,
}
use openrtc_python.SessionView.{SessionView, JobContext, for_livekit, RunnerArguments, for_pipecat}
use openrtc_python.Routing.{Loads, Router, resolve_agent_name, resolve_agent_config}
use openrtc_python.Routing.Resolved.{get-contains, resolve_agent_config-get}
use openrtc_python.Observer.{SessionInfo, build_session_info}
use openrtc_python.Pipecat.{Lifecycle, new_lifecycle}

-- What `build_pipecat_session` gives: the builder's processors, and the lifecycle observer with the
-- call's identity.
pub record Observed (Processors : Type 0) : Type 0 where
  pub processors : Processors
  pub info : SessionInfo
  pub lifecycle : Lifecycle

-- A builder reads the call's view and the shared prewarm, which it may fill.
abbrev pub Builder : Type 0 → Type 0 → Type 0
Builder Processors Prewarm = SessionView → Prewarm → Outcome Processors × Prewarm

unfoldable pub build_pipecat_session :
    {Processors Prewarm : Type 0}
    → Builder Processors Prewarm
    → SessionView
    → SessionInfo
    → Prewarm
    → Outcome (Observed Processors) × Prewarm
build_pipecat_session builder view info prewarm =
    let (built, after) = builder view prewarm in
    (
      built >>= λ processors.
          ret (record { processors = processors; info = info; lifecycle = new_lifecycle }),
      after,
    )

module _ {Processors Prewarm : Type 0} (loads : Loads) (repr : ℕ → Text) where
  unfoldable pub build_named :
      Dict (Builder Processors Prewarm)
      → SessionView
      → Text
      → Outcome SessionInfo
      → Prewarm
      → Outcome (Observed Processors) × Prewarm
  build_named builders view name (raise e) prewarm = (raise e, prewarm)
  build_named builders view name (ret info) prewarm = elim (get name builders) [
    | none ↦ (raise key_error, prewarm)
    | some builder ↦ build_pipecat_session builder view info prewarm
  ]

  unfoldable pub build_routed :
      Dict (Builder Processors Prewarm)
      → ℕ
      → Option Text
      → SessionView
      → Outcome Text
      → Prewarm
      → Outcome (Observed Processors) × Prewarm
  build_routed builders now version view (raise e) prewarm = (raise e, prewarm)
  build_routed builders now version view (ret name) prewarm =
      build_named builders view name (build_session_info loads repr now name view version) prewarm

  unfoldable pub dispatch_pipecat_call :
      Dict (Builder Processors Prewarm)
      → Option Router
      → ℕ
      → Option Text
      → SessionView
      → Prewarm
      → Outcome (Observed Processors) × Prewarm
  dispatch_pipecat_call [] router now version view prewarm = (raise runtime_error, prewarm)
  dispatch_pipecat_call (b ∷ more) router now version view prewarm =
      build_routed (b ∷ more) now version view
        (resolve_agent_name loads (keys (b ∷ more)) view router) prewarm

  -- `PipecatBackend.build_call`
  unfoldable pub build_call :
      Dict (Builder Processors Prewarm)
      → Option Router
      → ℕ
      → Option Text
      → RunnerArguments
      → Prewarm
      → Outcome (Observed Processors) × Prewarm
  build_call builders router now version args prewarm =
      dispatch_pipecat_call builders router now version (for_pipecat args) prewarm

  module _ (b : Text × Builder Processors Prewarm) (builders : Dict (Builder Processors Prewarm))
      (router : Option Router) (now : ℕ) (version : Option Text) (args : RunnerArguments)
      (prewarm : Prewarm) where
    call : Outcome (Observed Processors) × Prewarm
    call = build_call (b ∷ builders) router now version args prewarm

    call_routed :
        (name : Text) (builder : Builder Processors Prewarm) (info : SessionInfo)
        → resolve_agent_name loads (keys (b ∷ builders)) (for_pipecat args) router ≡ ret name
        → build_session_info loads repr now name (for_pipecat args) version ≡ ret info
        → get name (b ∷ builders) ≡ some builder
        → call ≡ build_pipecat_session builder (for_pipecat args) info prewarm
    unfolding call build_call dispatch_pipecat_call build_routed build_named
    call_routed name builder info named built found = rw named (rw built (rw (found, build_named)))

    call_unnamed :
        (name : Text) (e : Exc)
        → resolve_agent_name loads (keys (b ∷ builders)) (for_pipecat args) router ≡ ret name
        → build_session_info loads repr now name (for_pipecat args) version ≡ raise e
        → call ≡ (raise e, prewarm)
    unfolding call build_call dispatch_pipecat_call build_routed build_named
    call_unnamed name e named built = rw named (rw built)

    call_unrouted :
        (e : Exc)
        → resolve_agent_name loads (keys (b ∷ builders)) (for_pipecat args) router ≡ raise e
        → call ≡ (raise e, prewarm)
    unfolding call build_call dispatch_pipecat_call build_routed
    call_unrouted e named = rw named

  -- A call and a livekit job with one view, on two pools with the same names and at least one agent:
  -- either both are routed to one registered name, the job getting its config, and the call the session
  -- of its builder under the identity of that name, or both raise the same exception. Where the
  -- metadata give no identity, the call raises what building it raises, and no builder runs.
  pub build_call-resolve_agent_config :
      {Config : Type 0} (agent : Text × Config) (agents : Dict Config)
      (b : Text × Builder Processors Prewarm) (builders : Dict (Builder Processors Prewarm))
      (router : Option Router) (now : ℕ) (version : Option Text) (ctx : JobContext)
      (args : RunnerArguments) (prewarm : Prewarm)
      → keys (agent ∷ agents) ≡ keys (b ∷ builders)
      → for_livekit ctx ≡ for_pipecat args
      → let job = resolve_agent_config loads (agent ∷ agents) ctx router in
        let call = build_call (b ∷ builders) router now version args prewarm in
        ((name : Text) × (c : Config) × (builder : Builder Processors Prewarm) × (get name
              (agent ∷ agents)
            ≡ some c)
          × (get name (b ∷ builders) ≡ some builder)
          × (job ≡ ret c)
          × (((info : SessionInfo) × (build_session_info loads repr now name
                    (for_livekit ctx)
                    version
                  ≡ ret info)
                × (call ≡ build_pipecat_session builder (for_pipecat args) info prewarm))
              ⊎ ((e : Exc) × (build_session_info loads repr now name (for_livekit ctx) version
                    ≡ raise e)
                  × (call ≡ (raise e, prewarm)))))
        ⊎ ((e : Exc) × (job ≡ raise e) × (call ≡ (raise e, prewarm)))
  unfolding call
  build_call-resolve_agent_config agent agents b builders router now version ctx args prewarm same
        view =
      let names : resolve_agent_name loads (keys (b ∷ builders)) (for_pipecat args) router
          ≡ resolve_agent_name loads (keys (agent ∷ agents)) (for_livekit ctx) router =
        λ i. resolve_agent_name loads (sym same i) (sym view i) router in
      elim (resolve_agent_config-get loads agent agents ctx router) [
        | inr (e, named, job) ↦
            inr (e, job, call_unrouted b builders router now version args prewarm e (names ∙ named))
        | inl (name, c, named, known, found, job) ↦
            let (builder, at) =
              get-contains (b ∷ builders) name (subst (λ ks. contains name ks ≡ true) same known) in
            let infos : build_session_info loads repr now name (for_pipecat args) version
                ≡ build_session_info loads repr now name (for_livekit ctx) version =
              λ i. build_session_info loads repr now name (sym view i) version in
            inl (
              name,
              c,
              builder,
              found,
              at,
              job,
              elim (Outcome-cases
                  (build_session_info loads repr now name (for_livekit ctx) version)) [
                    | inl (info, e) ↦ inl (
                      info,
                      e,
                      call_routed b builders router now version args prewarm name builder info
                          (names ∙ named) (infos ∙ e) at,
                    )
                    | inr (x, e) ↦ inr (
                      x,
                      e,
                      call_unnamed b builders router now version args prewarm name x (names ∙ named)
                          (infos ∙ e),
                    )
                  ],
            )
      ]
