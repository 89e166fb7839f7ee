-- ===== src/Reload/Coordinator.antt =====
-- `ReloadCoordinator.on_change`: one report for each changed file and each agent that it backs.
use mathlib.Core.Path.{subst, fun_ext}
use mathlib.Core.List.{append-nil, append_assoc, map-append}
use openrtc_python.Prelude.{
  All-map, ℕ, ◌≡◌, refl, sym, ap, ◌∙◌, Bool, true, false, Option, none, some, List, [], ◌∷◌, ◌++◌,
  arith, if◌then◌else◌, map, All, length, Bool-cases, inl, inr,
}
use openrtc_python.Prelude.Text.{Text, text_eq}
use openrtc_python.Prelude.Dict.{Dict, get, get_or, put, get-put}
use openrtc_python.Prelude.Outcome.{Outcome, ret, raise}
use openrtc_python.Watcher.{FileChange, is_deleted}
use openrtc_python.Reload.{
  Attempt, ReloadResult, ReloadEvent, LiveSessionRegistry, sessions_for, AgentEntry, Livekit, World,
  configs_by_source_path, add_config, rebound, reloaded, reload_one, then_also, reload_all, on_one,
  on_changes, on_change,
}
use openrtc_python.Reload.Rebind.{IsUpdate, rebind_agent-ret}
use openrtc_python.Reload.Caught.{reload_agent_module-ret, IsCaught}

-- The agents that a source path backs, in order of registration.
abbrev backs : Text → Option Text → Bool
backs path none = false
backs path (some p) = text_eq p path

abbrev pub names_at : Text → Dict AgentEntry → List Text
names_at path [] = []
names_at path ((name, config) ∷ agents) =
    let rest = names_at path agents in if backs path config.source_path then name ∷ rest else rest

get_or-add_config :
    (path name : Text) (source : Option Text) (d : Dict (List Text))
    → get_or path [] (add_config name source d)
      ≡ get_or path [] d ++ (if backs path source then name ∷ [] else [])
unfolding add_config get_or
get_or-add_config path name none d = sym (append-nil (get_or path [] d))
get_or-add_config path name (some p) d =
    ground (arith, get-put p path (get_or p [] d ++ name ∷ []) d, append-nil (get_or path [] d))

names_at-cons :
    (b : Bool) (name : Text) (before rest : List Text)
    → (before ++ (if b then name ∷ [] else [])) ++ rest
      ≡ before ++ (if b then name ∷ rest else rest)
names_at-cons true name before rest = append_assoc before (name ∷ []) rest
names_at-cons false name before rest = ap (λ xs. xs ++ rest) (append-nil before)

by_path-names_at :
    (path : Text) (agents : Dict AgentEntry) (d : Dict (List Text))
    → get_or path [] (configs_by_source_path agents d) ≡ get_or path [] d ++ names_at path agents
unfolding configs_by_source_path
by_path-names_at path [] d = sym (append-nil (get_or path [] d))
by_path-names_at path ((name, config) ∷ agents) d =
    by_path-names_at path agents (add_config name config.source_path d)
    ∙ ap (λ xs. xs ++ names_at path agents) (get_or-add_config path name config.source_path d)
    ∙ names_at-cons (backs path config.source_path) name (get_or path [] d) (names_at path agents)

-- The name is registered.
abbrev Known : Dict AgentEntry → Text → Type 0
Known agents name = (c : AgentEntry) × (get name agents ≡ some c)

abbrev entry_of : ReloadEvent → Text × Text
entry_of r = (r.agent_name, r.source_path)

Known-put :
    (name : Text) (c : AgentEntry) (agents : Dict AgentEntry) (n : Text)
    → Known agents n
    → Known (put name c agents) n
Known-put name c agents n (d, e) = elim (Bool-cases (text_eq name n)) [
  | inl same ↦ (c, get-put name n c agents ∙ ground arith)
  | inr other ↦ (d, get-put name n c agents ∙ ground arith)
]

-- What a list of changes reports: each file that is not deleted, for each agent that it backs.
abbrev pub expected : (Text → List Text) → List FileChange → List (Text × Text)
expected names [] = []
expected names (c ∷ changes) =
    (if is_deleted c.change_type then [] else map (λ name. (name, c.path)) (names c.path))
    ++ expected names changes

names_at-Known :
    (path : Text) (agents : Dict AgentEntry) → All (Known agents) (names_at path agents)
unfolding get
names_at-Known path [] = tt
names_at-Known path ((name, config) ∷ agents) =
    let later =
      All-map (Known agents) (Known ((name, config) ∷ agents)) weaken (names_at path agents)
        (names_at-Known path agents) in
    elim (Bool-cases (backs path config.source_path)) [
      | inl here ↦ rw here ((config, ground arith), later)
      | inr elsewhere ↦ rw elsewhere later
    ]
  where
    weaken : (n : Text) → Known agents n → Known ((name, config) ∷ agents) n
    weaken n (c, e) = elim (Bool-cases (text_eq name n)) [
      | inl same ↦ (config, ground arith)
      | inr other ↦ (c, ground arith)
    ]

module _ (l : Livekit) (fails : ℕ → Bool) (u : IsUpdate l fails) (module_name : Text → Text)
    (attempts : ℕ → Text → Attempt) (caught : (n : ℕ) (path : Text) → IsCaught (attempts n path))
    (pinned : ℕ → Bool) (registry : LiveSessionRegistry) where
  -- The agents and the files of the reports, in order.
  abbrev pub reported : World l → List (Text × Text)
  reported w = map entry_of w.reports

  -- A step that returns, adds these reports, and keeps the agents registered.
  abbrev Adds : List (Text × Text) → World l → Outcome (Unit {0}) × World l → Type 0
  Adds entries w (result, after) =
      (result ≡ ret tt)
      × (reported after ≡ reported w ++ entries)
      × ((n : Text) → Known w.agents n → Known after.agents n)

  reloaded-Adds :
      (name path : Text) (config : AgentEntry) (r : Outcome ReloadResult) (modules : Dict ℕ)
      (res : ReloadResult) (w : World l)
      → r ≡ ret res
      → Adds
          ((name, path) ∷ [])
          w
          (reloaded l module_name attempts pinned registry name path config (r, modules) w)
  unfolding reloaded rebound
  reloaded-Adds name path config r modules none w e =
      rw e (refl, map-append entry_of w.reports _, λ n k. k)
  reloaded-Adds name path config r modules (some c) w e =
      let (n, returned) =
        rebind_agent-ret l fails u config.agent_cls c pinned (sessions_for name registry) w.live in
      rw e
        (rw returned (refl, map-append entry_of w.reports _, λ m k. Known-put name _ w.agents m k))

  reload_one-Adds :
      (path name : Text) (w : World l)
      → Known w.agents name
      → Adds ((name, path) ∷ []) w (reload_one l module_name attempts pinned registry path name w)
  unfolding reload_one
  reload_one-Adds path name w (config, known) =
      let a = attempts (length w.reports) path in
      let (res, e) = reload_agent_module-ret (module_name path) a w.modules (caught _ path) in
      rw (reload_one, known) (reloaded-Adds name path config _ _ res w e)

  then_also-Adds :
      (xs ys : List (Text × Text)) (w : World l) (o : Outcome (Unit {0})) (after : World l)
      (more : World l → Outcome (Unit {0}) × World l)
      → Adds xs w (o, after)
      → Adds ys after (more after)
      → Adds (xs ++ ys) w (then_also l module_name attempts pinned registry (o, after) more)
  unfolding then_also
  then_also-Adds xs ys w (ret _) after more (r, e, k) (r', e', k') = (
    r',
    e' ∙ ap (λ zs. zs ++ ys) e ∙ append_assoc (reported w) xs ys,
    λ n known. k' n (k n known),
  )
  then_also-Adds xs ys w (raise e) after more h h' = absurd (ground (arith, h.0))

  reload_all-Adds :
      (path : Text) (names : List Text) (w : World l)
      → All (Known w.agents) names
      → Adds
          (map (λ name. (name, path)) names)
          w
          (reload_all l module_name attempts pinned registry path names w)
  unfolding reload_all
  reload_all-Adds path [] w h = (refl, sym (append-nil (reported w)), λ n k. k)
  reload_all-Adds path (name ∷ names) w h =
      let one = reload_one-Adds path name w h.0 in
      let after = (reload_one l module_name attempts pinned registry path name w).1 in
      then_also-Adds ((name, path) ∷ []) (map (λ n. (n, path)) names) w _ after _ one (
        reload_all-Adds path names after
          (All-map (Known w.agents) (Known after.agents) one.2 names h.1))

  on_one-Adds :
      (c : FileChange) (names : List Text) (w : World l)
      → All (Known w.agents) names
      → Adds
          (if is_deleted c.change_type then [] else map (λ name. (name, c.path)) names)
          w
          (on_one l module_name attempts pinned registry c names w)
  unfolding on_one
  on_one-Adds c names w h = elim (Bool-cases (is_deleted c.change_type)) [
    | inl gone ↦ rw gone (refl, sym (append-nil (reported w)), λ n k. k)
    | inr there ↦ rw there (reload_all-Adds c.path names w h)
  ]

  on_changes-Adds :
      (by_path : Dict (List Text)) (changes : List FileChange) (w : World l)
      → ((path : Text) → All (Known w.agents) (get_or path [] by_path))
      → Adds
          (expected (λ path. get_or path [] by_path) changes)
          w
          (on_changes l module_name attempts pinned registry by_path changes w)
  unfolding on_changes
  on_changes-Adds by_path [] w h = (refl, sym (append-nil (reported w)), λ n k. k)
  on_changes-Adds by_path (c ∷ changes) w h =
      let names = get_or c.path [] by_path in
      let one = on_one-Adds c names w (h c.path) in
      let after = (on_one l module_name attempts pinned registry c names w).1 in
      then_also-Adds (if is_deleted c.change_type then [] else map (λ name. (name, c.path)) names)
        (expected (λ path. get_or path [] by_path) changes) w _ after _ one
        (on_changes-Adds by_path changes after (λ path.
          All-map (Known w.agents) (Known after.agents) one.2 (get_or path [] by_path) (h path)))

  -- If reading a file raises `OSError` alone, compiling it `SyntaxError` alone, and its code and the
  -- update of a session an `Exception` alone, a batch of changes is handled to its end, whatever
  -- reloads and re-binds fail: `on_change` returns, and reports exactly one event, a swap or a failure,
  -- for each changed file that is not deleted and each registered agent that the file backs, in the
  -- order of the changes and of registration.
  pub on_change-reported :
      (changes : List FileChange) (w : World l)
      → let (result, after) = on_change l module_name attempts pinned registry changes w in
        (result ≡ ret tt)
        × (reported after ≡ reported w ++ expected (λ path. names_at path w.agents) changes)
  unfolding on_change get_or
  on_change-reported changes w =
      let by_path = configs_by_source_path w.agents [] in
      let found : (λ (path : Text). get_or path [] by_path) ≡ (λ path. names_at path w.agents) =
        fun_ext (λ path. by_path-names_at path w.agents []) in
      let all = on_changes-Adds by_path changes w (λ path.
        subst (All (Known w.agents)) (sym (by_path-names_at path w.agents []))
          (names_at-Known path w.agents)) in
      (all.0, all.1 ∙ ap (λ names. reported w ++ expected names changes) found)
