-- ===== src/Control/Fresh.antt =====
-- A policy that a call returns is no older than the interval.
use mathlib.Core.Path.{subst}
use go_framework.Base.{
  ◌+◌, ◌-◌, ◌≤◌, List, [], ◌∷◌, Option, none, some, ltb, ◌≡◌, refl, sym, ◌∙◌, arith, In, inl, inr,
  Bool-cases, String, lookup, lookup-insert, GoMap, ◌≢◌, insert, text_discrete,
}
use go_framework.Control.{
  PolicyKind, PolicyCall, config_update_interval, choose_policy, policy_of_call, call_policy,
  call_policies,
}

lookup_nil : {V : Type 0} (j : String) (w : V) → lookup j [] ≢ some w
unfolding lookup
lookup_nil j w h = cc

module _ {V : Type 0} (k j : String) (v w : V) (m : GoMap V) where
  lookup_stored : lookup j (insert k v m) ≡ some w → k ≡ j → w ≡ v
  lookup_stored h e = ground (arith, lookup-insert k j v m)

  lookup_other : lookup j (insert k v m) ≡ some w → k ≢ j → lookup j m ≡ some w
  lookup_other h e = ground (arith, lookup-insert k j v m)

module _ {C P : Type 0} (k : PolicyKind C P) where
  -- The policy of a call, as it was built and wrapped at its time.
  abbrev pub built_by : PolicyCall C → P
  built_by d = k.complete (k.from_config d.config d.method_name d.built)

  -- A policy that one of the calls for the method built.
  abbrev Stems : String → List (PolicyCall C) → P → Type 0
  Stems m cs p = (d : PolicyCall C) × In d cs × (d.method_name ≡ m) × (p ≡ built_by d)

  built_by-version : (d : PolicyCall C) → k.version (built_by d) ≡ d.built
  built_by-version d = k.version-complete _ ∙ k.version-from_config d.config d.method_name d.built

  -- The policy of a call stems from it or from a call before it, and is recent.
  abbrev pub Fresh : PolicyCall C → List (PolicyCall C) → P → Type 0
  Fresh c cs p =
      (d : PolicyCall C) × In d (c ∷ cs)
      × (d.method_name ≡ c.method_name)
      × (p ≡ built_by d)
      × (c.tested ≤ d.built + config_update_interval)

  choose-Fresh :
      (c : PolicyCall C) (cs : List (PolicyCall C)) (d : PolicyCall C)
      → c.tested ≤ c.built
      → In d cs
      → d.method_name ≡ c.method_name
      → Fresh c cs (k.complete (choose_policy k c (some (built_by d))))
  unfolding choose_policy
  choose-Fresh c cs d h i e =
      rw (built_by-version d) (elim (Bool-cases (ltb config_update_interval (c.tested - d.built))) [
        | inl old ↦ (c, inl refl, refl, rw old refl, omega (arith, h))
        | inr new ↦ (d, inr i, e, rw (new, k.complete-complete) refl, ground arith)
      ])

  choose_Fresh_cases :
      (c : PolicyCall C) (cs : List (PolicyCall C)) (o : Option P)
      → c.tested ≤ c.built
      → ((p : P) → o ≡ some p → Stems c.method_name cs p)
      → Fresh c cs (k.complete (choose_policy k c o))
  unfolding choose_policy
  choose_Fresh_cases c cs none h s = (c, inl refl, refl, refl, omega (arith, h))
  choose_Fresh_cases c cs (some p) h s =
      let (d, i, f, g) = s p refl in
      subst (λ q. Fresh c cs (k.complete (choose_policy k c (some q)))) (sym g)
        (choose-Fresh c cs d h i f)

  -- The clock of each call does not go back between its test and its building.
  abbrev pub AreTimed : List (PolicyCall C) → Type 0
  AreTimed [] = Unit
  AreTimed (c ∷ cs) = (c.tested ≤ c.built) × AreTimed cs

  stored_Stems :
      (cs : List (PolicyCall C)) (m : String) (p : P)
      → AreTimed cs
      → lookup m (call_policies k cs) ≡ some p
      → Stems m cs p
  unfolding call_policies call_policy policy_of_call
  stored_Stems [] m p h e = absurd (lookup_nil m p e)
  stored_Stems (c ∷ cs) m p h e = elim (text_discrete c.method_name m) [
    | yes same ↦
        let (d, i, f, g, t) =
          choose_Fresh_cases c cs (lookup c.method_name (call_policies k cs)) h.0
            (λ q. stored_Stems cs c.method_name q h.1) in
        (d, i, f ∙ same, lookup_stored c.method_name m _ p (call_policies k cs) e same ∙ g)
    | no other ↦
        let (d, i, f, g) =
          stored_Stems cs m p h.1 (lookup_other c.method_name m _ p (call_policies k cs) e other) in
        (d, inr i, f, g)
  ]

  -- After any calls on a new plane, the policy that a call returns is the one that the configuration
  -- of this call or of an earlier call for the same method gives, built at that call's time and
  -- wrapped, and the call's time is at most the interval, ten seconds, after it.
  pub policy_of_call-Fresh :
      (c : PolicyCall C) (cs : List (PolicyCall C))
      → AreTimed (c ∷ cs)
      → Fresh c cs (policy_of_call k c (call_policies k cs))
  unfolding policy_of_call
  policy_of_call-Fresh c cs h =
      choose_Fresh_cases c cs (lookup c.method_name (call_policies k cs)) h.0
        (λ q. stored_Stems cs c.method_name q h.1)
