-- ===== src/Discovery/Served.antt =====
-- The rules of httpRuleMap in registry/discovery.go have pickers of all their addresses.
use mathlib.Core.Path.{subst}
use go_framework.Base.{
  String, text_discrete, GoMap, lookup, insert, List, [], ◌∷◌, Option, none, some, ◌≡◌, refl, sym,
  All, All-append, Option-cases, inl, inr, if_pos, if_neg,
}
use go_framework.Discovery.{AddressInfo, RegistryRule}
use go_framework.Discovery.Rules.{
  HttpRule, Texts, generate_key, create_all, add_addr, found_or, add_http_rule, add_http_rules,
}

module _ {P : Type 0} (build : List AddressInfo → P) (Good : String → Type 0) where
  -- The addresses of a rule are good ones, and its picker has them all.
  abbrev pub IsServed : HttpRule P → Type 0
  IsServed rule = All (λ a. Good a.addr) rule.addrs × (rule.picker ≡ some (build rule.addrs))

  abbrev pub AreServed : GoMap (HttpRule P) → Type 0
  AreServed rules = All (λ r. IsServed r.1) rules

  insert-AreServed :
      (key : String) (rule : HttpRule P) (rules : GoMap (HttpRule P))
      → IsServed rule
      → AreServed rules
      → AreServed (insert key rule rules)
  unfolding insert
  insert-AreServed key rule [] h g = (h, tt)
  insert-AreServed key rule ((k, r) ∷ rules) h g = elim (text_discrete k key) [
    | yes p ↦ rw (if_pos _ p) (h, g.1)
    | no p ↦ rw (if_neg _ p) (g.0, insert-AreServed key rule rules h g.1)
  ]

  found_or-addrs :
      (key : String) (rule : HttpRule P) (rules : GoMap (HttpRule P))
      → All (λ a. Good a.addr) rule.addrs
      → AreServed rules
      → All (λ a. Good a.addr) (found_or rule (lookup key rules)).addrs
  unfolding lookup
  found_or-addrs key rule [] h g = h
  found_or-addrs key rule ((k, r) ∷ rules) h g = elim (text_discrete k key) [
    | yes p ↦ rw (if_pos _ p) g.0.0
    | no p ↦ rw (if_neg _ p) (found_or-addrs key rule rules h g.1)
  ]

  module _ (texts : Texts P) where
    abbrev IsNew : Option (String × HttpRule P) → Type 0
    IsNew none = Unit
    IsNew (some (key, rule)) = rule.addrs ≡ []

    abbrev IsServedOrError : Option (GoMap (HttpRule P)) → Type 0
    IsServedOrError none = Unit
    IsServedOrError (some rules) = AreServed rules

    generate_key-IsNew : (r : RegistryRule) → IsNew (generate_key texts r)
    unfolding generate_key
    generate_key-IsNew r = elim (Option-cases (create_all texts r.header_regex_map)) [
      | inl e ↦ rw (e, generate_key) tt
      | inr (rs, e) ↦ rw (e, generate_key) refl
    ]

    put-AreServed :
        (o : Option (String × HttpRule P)) (a : AddressInfo) (rules : GoMap (HttpRule P))
        → IsNew o
        → Good a.addr
        → AreServed rules
        → IsServedOrError (elim o [
          | none ↦ none
          | some (key, rule) ↦
              some (insert key (add_addr build a (found_or rule (lookup key rules))) rules)
        ])
    unfolding add_addr
    put-AreServed none a rules n h g = tt
    put-AreServed (some (key, rule)) a rules n h g =
        let none_yet : All (λ x. Good x.addr) rule.addrs =
          subst (λ l. All (λ x. Good x.addr) l) (sym n) tt in
        insert-AreServed key _ rules
          (All-append _ _ (a ∷ []) (found_or-addrs key rule rules none_yet g) (h, tt), refl) g

    add_http_rule-AreServed :
        (r : Option RegistryRule) (a : AddressInfo) (rules : GoMap (HttpRule P))
        → Good a.addr
        → AreServed rules
        → IsServedOrError (add_http_rule texts build r a rules)
    unfolding add_http_rule
    add_http_rule-AreServed none a rules h g = tt
    add_http_rule-AreServed (some r) a rules h g =
        put-AreServed (generate_key texts r) a rules (generate_key-IsNew r) h g

    go_on :
        (o : Option (GoMap (HttpRule P))) (f : GoMap (HttpRule P) → GoMap (HttpRule P))
        (rules : GoMap (HttpRule P))
        → IsServedOrError o
        → AreServed rules
        → ((s : GoMap (HttpRule P)) → AreServed s → AreServed (f s))
        → AreServed (elim o [ none ↦ f rules | some s ↦ f s ])
    go_on none f rules h g k = k rules g
    go_on (some s) f rules h g k = k s h

    pub add_http_rules-AreServed :
        (rs : List (Option RegistryRule)) (a : AddressInfo) (rules : GoMap (HttpRule P))
        → Good a.addr
        → AreServed rules
        → AreServed (add_http_rules texts build rs a rules)
    unfolding add_http_rules
    add_http_rules-AreServed [] a rules h g = g
    add_http_rules-AreServed (r ∷ rs) a rules h g =
        go_on (add_http_rule texts build r a rules) (add_http_rules texts build rs a) rules
          (add_http_rule-AreServed r a rules h g) g (λ s t. add_http_rules-AreServed rs a s h t)
