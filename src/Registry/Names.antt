-- ===== src/Registry/Names.antt =====
-- The registry of a pool under additions and removals: its names, and what an addition changes.
use openrtc_python.Prelude.{
  subst, ◌≡◌, refl, sym, ap, ◌∙◌, true, Option, none, some, List, [], ◌∷◌, ◌++◌, if◌then◌else◌,
  arith, ◌⊎◌, All, Bool-cases, Option-cases, inl, inr,
}
use openrtc_python.Prelude.Text.{Text, text_eq, text_eq→eq}
use openrtc_python.Prelude.Dict.{
  Dict, get, put, remove, keys, get-remove, get-put_self, DistinctKeys, put-DistinctKeys,
}
use openrtc_python.Prelude.Outcome.{
  Exc, ret-injective, type_error, ret, raise, value_error, >>=-ret, Outcome-cases,
}
use openrtc_python.Validation.{require_agent_name, agent_name_max}
use openrtc_python.Validation.Names.{IsToken, require_agent_name-IsToken}
use openrtc_python.Serialization.{
  Python, AgentClass, build_agent_class_ref, serialize_provider_value,
}
use openrtc_python.Registry.{
  resolve_provider, AgentConfig, Defaults, Addition, make_config, checked_config, registered, add,
  list_agents, get_agent, remove_agent, is_registered,
}

-- A name that is not there gets the last place.
put-new :
    (k : Text) (v : AgentConfig) (d : Dict AgentConfig)
    → get k d ≡ none
    → put k v d ≡ d ++ (k, v) ∷ []
unfolding get put
put-new k v [] e = refl
put-new k v ((j, w) ∷ d) e = elim (Bool-cases (text_eq j k)) [
  | inl same ↦ absurd (ground (arith, same, e))
  | inr other ↦ rw other (ap (◌∷◌ (j, w)) (put-new k v d (ground (arith, other, e))))
]

remove-new :
    (k : Text) (v : AgentConfig) (d : Dict AgentConfig) → get k d ≡ none → remove k (put k v d) ≡ d
unfolding get put remove
remove-new k v [] e = ground arith
remove-new k v ((j, w) ∷ d) e = elim (Bool-cases (text_eq j k)) [
  | inl same ↦ absurd (ground (arith, same, e))
  | inr other ↦ rw other (rw other (ap (◌∷◌ (j, w)) (remove-new k v d (ground (arith, other, e)))))
]

keys-append : (d e : Dict AgentConfig) → keys (d ++ e) ≡ keys d ++ keys e
keys-append [] e = refl
keys-append ((k, v) ∷ d) e = ap (◌∷◌ k) (keys-append d e)

-- An entry of a registry stands under its config's name, which is a token, and has an agent class.
pub record IsEntry (kv : Text × AgentConfig) : Type 0 where
  pub named : kv.1.name ≡ kv.0
  pub token : IsToken agent_name_max kv.0
  pub agent : kv.1.agent_cls.is_agent_subclass ≡ true

abbrev pub IsRegistry : Dict AgentConfig → Type 0
IsRegistry agents = DistinctKeys agents × All IsEntry agents

All-put :
    (k : Text) (v : AgentConfig) (d : Dict AgentConfig)
    → IsEntry (k, v)
    → All IsEntry d
    → All IsEntry (put k v d)
unfolding put
All-put k v [] e h = (e, tt)
All-put k v ((j, w) ∷ d) e h = elim (Bool-cases (text_eq j k)) [
  | inl same ↦ rw same (subst (λ i. IsEntry (i, v)) (sym (text_eq→eq j k same)) e, h.1)
  | inr other ↦ rw other (h.0, All-put k v d e h.1)
]

remove-IsRegistry : (k : Text) (d : Dict AgentConfig) → IsRegistry d → IsRegistry (remove k d)
unfolding remove get
remove-IsRegistry k [] h = h
remove-IsRegistry k ((j, w) ∷ d) ((new, distinct), (e, all)) =
    let later = remove-IsRegistry k d (distinct, all) in
    elim (Bool-cases (text_eq j k)) [
      | inl same ↦ rw same later
      | inr other ↦ rw other ((ground (arith, get-remove k j d, new), later.0), (e, later.1))
    ]

module _ (py : Python) (defaults : Defaults) (resolve : Text → Text) where
  -- A config that is made has the name and the class that were given.
  make_config-ret :
      (name : Text) (a : Addition) (c : AgentConfig)
      → make_config py defaults resolve name a ≡ ret c
      → (c.name ≡ name) × (c.agent_cls ≡ a.agent_cls)
  unfolding make_config
  make_config-ret name a c e =
      let (r, e0, f0) = >>=-ret (build_agent_class_ref a.agent_cls) _ e in
      let (stt, e1, f1) =
        >>=-ret (serialize_provider_value py (resolve_provider a.stt defaults.stt)) _ f0 in
      let (llm, e2, f2) =
        >>=-ret (serialize_provider_value py (resolve_provider a.llm defaults.llm)) _ f1 in
      let (tts, e3, f3) =
        >>=-ret (serialize_provider_value py (resolve_provider a.tts defaults.tts)) _ f2 in
      let same = ret-injective f3 in
      (
        sym (ap (λ (d : AgentConfig). d.name) same),
        sym (ap (λ (d : AgentConfig). d.agent_cls) same),
      )

  checked_config-ret :
      (name : Text) (a : Addition) (agents : Dict AgentConfig) (c : AgentConfig)
      → checked_config py defaults resolve name a agents ≡ ret c
      → (get c.name agents ≡ none) × (require_agent_name name ≡ ret c.name) × IsEntry (c.name, c)
  unfolding checked_config
  checked_config-ret name a agents c e =
      let (n, accepted, f) = >>=-ret (require_agent_name name) _ e in
      go n accepted (get n agents) refl f
    where
      go :
          (n : Text)
          → require_agent_name name ≡ ret n
          → (old : Option AgentConfig) → get n agents ≡ old
          → (if is_registered old
              then raise value_error
              else if a.agent_cls.is_agent_subclass
              then make_config py defaults resolve n a
              else raise type_error)
            ≡ ret c
          → (get c.name agents ≡ none)
            × (require_agent_name name ≡ ret c.name)
            × IsEntry (c.name, c)
      go n accepted none new f = elim (Bool-cases a.agent_cls.is_agent_subclass) [
        | inl agent ↦
            let (named, cls) = make_config-ret n a c (ground (arith, f, agent)) in
            (
              ap (λ m. get m agents) named ∙ new,
              accepted ∙ ap ret (sym named),
              record {
                named = refl;
                token =
                    subst (IsToken agent_name_max) (sym named)
                      (require_agent_name-IsToken name n accepted).1;
                agent = ap (λ (k : AgentClass). k.is_agent_subclass) cls ∙ agent;
              },
            )
        | inr foreign ↦ absurd (ground (arith, f, foreign))
      ]
      go n accepted (some c') old f = absurd (ground (arith, f))

  -- An addition that returns puts the agent under its stripped name behind the others: it is found
  -- there, removing it gives it back and the registry as it was before, and that name cannot be added
  -- again. An addition that raises changes nothing.
  pub add-cases :
      (name : Text) (a : Addition) (agents : Dict AgentConfig)
      → let (result, after) = add py defaults resolve name a agents in
        ((c : AgentConfig) × (result ≡ ret c)
          × (require_agent_name name ≡ ret c.name)
          × (list_agents after ≡ list_agents agents ++ c.name ∷ [])
          × (get_agent c.name after ≡ ret c)
          × (remove_agent c.name after ≡ (ret c, agents))
          × ((b : Addition) → add py defaults resolve c.name b after ≡ (raise value_error, after)))
        ⊎ ((e : Exc) × (result ≡ raise e) × (after ≡ agents))
  unfolding add registered get_agent remove_agent checked_config
  add-cases name a agents =
      elim (Outcome-cases (checked_config py defaults resolve name a agents)) [
        | inr (x, e) ↦ inr (x, rw e refl, rw e refl)
        | inl (c, e) ↦
            let (new, accepted, entry) = checked_config-ret name a agents c e in
            let there = get-put_self c.name c agents in
            let again = (require_agent_name-IsToken name c.name accepted).2 in
            inl (
              c,
              rw e refl,
              accepted,
              rw e (ap keys (put-new c.name c agents new) ∙ keys-append agents ((c.name, c) ∷ [])),
              rw e (rw (there, get_agent) refl),
              rw e (
                  rw (there, remove_agent) (ap (λ d. (ret c, d)) (remove-new c.name c agents new))),
              λ b. rw e (rw again (rw there refl)),
            )
      ]

  pub data Step : Type 0 where
    adds : Text → Addition → Step
    removes : Text → Step

  -- The registry after a step, whether it returned or raised.
  abbrev pub after : Step → Dict AgentConfig → Dict AgentConfig
  after (adds name a) agents = (add py defaults resolve name a agents).1
  after (removes name) agents = (remove_agent name agents).1

  abbrev pub run_steps : List Step → Dict AgentConfig → Dict AgentConfig
  run_steps [] agents = agents
  run_steps (s ∷ steps) agents = run_steps steps (after s agents)

  after-IsRegistry :
      (s : Step) (agents : Dict AgentConfig) → IsRegistry agents → IsRegistry (after s agents)
  unfolding add registered remove_agent
  after-IsRegistry (adds name a) agents h =
      elim (Outcome-cases (checked_config py defaults resolve name a agents)) [
        | inr (x, e) ↦ rw (e, after) h
        | inl (c, e) ↦
            let (new, accepted, entry) = checked_config-ret name a agents c e in
            rw (e, after) (put-DistinctKeys c.name c agents h.0, All-put c.name c agents entry h.1)
      ]
  after-IsRegistry (removes name) agents h = elim (Option-cases (get name agents)) [
    | inl missing ↦ rw (missing, after) h
    | inr (c, e) ↦ rw (e, after) (remove-IsRegistry name agents h)
  ]

  -- Whatever is added and removed, and whatever of it raises, a registry that starts empty has each
  -- name once, each config under its own name, names of 1 to 64 letters, digits, dashes and
  -- underscores, and agent classes alone.
  pub run_steps-IsRegistry :
      (steps : List Step) (agents : Dict AgentConfig)
      → IsRegistry agents
      → IsRegistry (run_steps steps agents)
  run_steps-IsRegistry [] agents h = h
  run_steps-IsRegistry (s ∷ steps) agents h =
      run_steps-IsRegistry steps (after s agents) (after-IsRegistry s agents h)
