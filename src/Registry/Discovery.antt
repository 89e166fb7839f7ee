-- ===== src/Registry/Discovery.antt =====
-- `discover`: which agents it registers.
use mathlib.Core.List.{append-nil, append_assoc}
use openrtc_python.Prelude.{
  ◌≡◌, refl, sym, ap, ◌∙◌, Option, List, [], ◌∷◌, ◌++◌, if◌then◌else◌, map, ◌⊎◌, Bool-cases, inl,
  inr,
}
use openrtc_python.Prelude.Text.{Text, strip}
use openrtc_python.Prelude.Dict.{Dict}
use openrtc_python.Prelude.Outcome.{Outcome, Exc, ret, raise}
use openrtc_python.Validation.Names.{require_agent_name-IsToken}
use openrtc_python.Serialization.{Python, AgentClass}
use openrtc_python.Registry.{
  AgentConfig, Defaults, DiscoveryConfig, resolve_discovery_metadata, list_agents,
}
use openrtc_python.Registry.Files.{
  AgentFile, discovered_name, discovered_addition, is_skipped, add_loaded, and_then, discover_files,
}
use openrtc_python.Registry.Names.{add-cases}

-- The name that a file asks for, or none where its loading failed.
abbrev asked : AgentFile → Outcome (AgentClass × Option DiscoveryConfig) → List Text
asked f (raise e) = []
asked f (ret (cls, attached)) =
    strip (discovered_name (resolve_discovery_metadata attached).name f.stem) ∷ []

-- The names that the files which are not skipped ask for.
abbrev pub wanted : List AgentFile → List Text
wanted [] = []
wanted (f ∷ files) =
    let rest = wanted files in if is_skipped f then rest else asked f f.loaded ++ rest

-- What a discovery leaves that was to register these names, from the configs found before.
unfoldable pub Discovered :
    List Text
    → List AgentConfig
    → Dict AgentConfig
    → Outcome (List AgentConfig) × Dict AgentConfig
    → Type 0
Discovered names found agents (ret all_found, after) =
    (new : List AgentConfig) × (all_found ≡ found ++ new)
    × (map (λ (c : AgentConfig). c.name) new ≡ names)
    × (list_agents after ≡ list_agents agents ++ names)
Discovered names found agents (raise e, after) =
    (new : List Text) × (left : List Text) × (list_agents after ≡ list_agents agents ++ new)
    × (names ≡ new ++ left)

-- One more name before those of a discovery that went on.
Discovered-after :
    (names : List Text) (c : AgentConfig) (found : List AgentConfig)
    (agents after : Dict AgentConfig) (result : Outcome (List AgentConfig) × Dict AgentConfig)
    → list_agents after ≡ list_agents agents ++ c.name ∷ []
    → Discovered names (found ++ c ∷ []) after result
    → Discovered (c.name ∷ names) found agents result
unfolding Discovered
Discovered-after names c found agents after (ret all_found, last) l (new, e, n, listed) = (
  c ∷ new,
  e ∙ append_assoc found (c ∷ []) new,
  ap (◌∷◌ c.name) n,
  listed ∙ ap (λ xs. xs ++ names) l ∙ append_assoc (list_agents agents) (c.name ∷ []) names,
)
Discovered-after names c found agents after (raise x, last) l (new, left, listed, e) = (
  c.name ∷ new,
  left,
  listed ∙ ap (λ xs. xs ++ new) l ∙ append_assoc (list_agents agents) (c.name ∷ []) new,
  ap (◌∷◌ c.name) e,
)

module _ (py : Python) (defaults : Defaults) (resolve : Text → Text) where
  -- A file that was loaded is added under the name that it asks for, or nothing changes.
  AddedFile : AgentFile → Dict AgentConfig → Outcome AgentConfig × Dict AgentConfig → Type 0
  AddedFile f agents (result, after) =
      ((c : AgentConfig) × (result ≡ ret c)
        × (asked f f.loaded ≡ c.name ∷ [])
        × (list_agents after ≡ list_agents agents ++ c.name ∷ []))
      ⊎ ((e : Exc) × (result ≡ raise e) × (after ≡ agents))

  add_loaded-AddedFile :
      (f : AgentFile) (agents : Dict AgentConfig)
      (o : Outcome (AgentClass × Option DiscoveryConfig))
      → f.loaded ≡ o
      → AddedFile f agents (add_loaded py defaults resolve f o agents)
  unfolding add_loaded AddedFile
  add_loaded-AddedFile f agents (raise e) l = inr (e, refl, refl)
  add_loaded-AddedFile f agents (ret (cls, attached)) l =
      let metadata = resolve_discovery_metadata attached in
      let name = discovered_name metadata.name f.stem in
      elim (add-cases py defaults resolve name (discovered_addition f.path cls metadata) agents) [
        | inl (c, r, accepted, listed, _, _, _) ↦ inl (
          c,
          r,
          ap (asked f) l
              ∙ ap (λ n. n ∷ []) (sym (require_agent_name-IsToken name c.name accepted).0),
          listed,
        )
        | inr (e, r, same) ↦ inr (e, r, same)
      ]

  and_then-Discovered :
      (f : AgentFile) (files : List AgentFile) (found : List AgentConfig)
      (agents after : Dict AgentConfig) (o : Outcome AgentConfig)
      → AddedFile f agents (o, after)
      → ((c : AgentConfig)
          → Discovered
              (wanted files)
              (found ++ c ∷ [])
              after
              (discover_files py defaults resolve files (found ++ c ∷ []) after))
      → Discovered
          (asked f f.loaded ++ wanted files)
          found
          agents
          (and_then py defaults resolve (o, after) (discover_files py defaults resolve files) found)
  unfolding and_then AddedFile Discovered
  and_then-Discovered f files found agents after o (inr (e, r, same)) h = rw r (
    [],
    asked f f.loaded ++ wanted files,
    ap list_agents same ∙ sym (append-nil (list_agents agents)),
    refl,
  )
  and_then-Discovered f files found agents after o (inl (c, r, named, listed)) h = rw r (
      rw named (
        Discovered-after (wanted files) c found agents after
          (discover_files py defaults resolve files (found ++ c ∷ []) after) listed (h c)))

  -- A discovery that returns has registered, behind the agents that were there and in the order of
  -- the files, the name of each file that is not skipped, and its result is the configs that it
  -- added. One that raises has registered the agents of a first part of the files, which stay.
  pub discover_files-Discovered :
      (files : List AgentFile) (found : List AgentConfig) (agents : Dict AgentConfig)
      → Discovered
          (wanted files)
          found
          agents
          (discover_files py defaults resolve files found agents)
  unfolding discover_files Discovered
  discover_files-Discovered [] found agents =
      ([], sym (append-nil found), refl, sym (append-nil (list_agents agents)))
  discover_files-Discovered (f ∷ files) found agents = elim (Bool-cases (is_skipped f)) [
    | inl skipped ↦ rw (skipped, wanted) (discover_files-Discovered files found agents)
    | inr used ↦
        let (o, after) = add_loaded py defaults resolve f f.loaded agents in
        rw (used, wanted)
          (and_then-Discovered f files found agents after o
            (add_loaded-AddedFile f agents f.loaded refl)
            (λ c. discover_files-Discovered files (found ++ c ∷ []) after))
  ]
