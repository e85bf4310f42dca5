-- ===== src/Discovery/HttpPicks.antt =====
-- The HTTP picks of registry/discovery.go go to the instances that the registry has listed.
use mathlib.Core.Path.{subst}
use go_framework.Base.{
  ℕ, ◌-◌, String, Bytes, GoMap, Bool, List, [], ◌∷◌, Option, none, some, length, get_elem?, ◌≡◌,
  refl, sym, ap, ◌∙◌, arith, All, All-In, In, inl, inr,
}
use go_framework.Http.{Segment, new_path_segment}
use go_framework.Http.Stored.{metas_at-new}
use go_framework.Http.Headers.{
  Rule, Meta, Matched, matched, nil_meta, wrong_path, no_pattern, not_accepted, estimate_header,
}
use go_framework.Registry.{Instance, Entry}
use go_framework.Discovery.{
  AddressInfo, RegistryMeta, Library, picked, pick_failed, no_registry_entry,
  unmarshal_registry_meta,
}
use go_framework.Discovery.Registered.{PicksIn, pick-picked}
use go_framework.Discovery.Rules.{
  HttpRule, Texts, add_http_rules, rules_of, add_instances, add_all_entries, update_http_matcher,
  http_pick_with_info,
}
use go_framework.Discovery.Served.{IsServed, AreServed, add_http_rules-AreServed}
use go_framework.Discovery.ServedTree.{
  Sorts, TreeIsServed, add_rules-TreeIsServed, KeepsServed, match_with_meta-KeepsServed,
}

get_elem?-In : {A : Type 0} (xs : List A) (n : ℕ) (x : A) → get_elem? xs n ≡ some x → In x xs
get_elem?-In [] n x e = absurd (ground arith)
get_elem?-In (y ∷ xs) n x e = ground (arith, get_elem?-In xs (n - 1) x)

module _ {M P : Type 0} (lib : Library M P) (texts : Texts P) where
  -- An instance of the entries has the address.
  abbrev pub HasInstance : List (Entry M) → String → Type 0
  HasInstance entries a =
      (e : Entry M) × (i : Instance M) × In e entries × In i e.instances × (i.addr ≡ a)

  module _ (Good : String → Type 0) where
    add_instances-AreServed :
        (name : String) (is : List (Instance M)) (rules : GoMap (HttpRule P))
        → ((i : Instance M) → In i is → Good i.addr)
        → AreServed lib.build Good rules
        → AreServed lib.build Good (add_instances lib texts name is rules)
    unfolding add_instances
    add_instances-AreServed name [] rules h g = g
    add_instances-AreServed name (i ∷ is) rules h g =
        add_instances-AreServed name is _ (λ j m. h j (inr m))
          (instance-AreServed (unmarshal_registry_meta lib i.meta))
      where
        instance-AreServed :
            (o : Option RegistryMeta)
            → AreServed lib.build Good (elim o [
              | none ↦ rules
              | some meta ↦
                  add_http_rules texts lib.build
                    (rules_of lib name meta)
                    (record { addr = i.addr; tls = meta.tls_server })
                    rules
            ])
        instance-AreServed none = g
        instance-AreServed (some meta) =
            add_http_rules-AreServed lib.build Good texts (rules_of lib name meta) _ rules
              (h i (inl refl)) g

    add_all_entries-AreServed :
        (es : List (Entry M)) (rules : GoMap (HttpRule P))
        → ((e : Entry M) (i : Instance M) → In e es → In i e.instances → Good i.addr)
        → AreServed lib.build Good rules
        → AreServed lib.build Good (add_all_entries lib texts es rules)
    unfolding add_all_entries
    add_all_entries-AreServed [] rules h g = g
    add_all_entries-AreServed (e ∷ es) rules h g =
        add_all_entries-AreServed es _ (λ f i m n. h f i (inr m) n)
          (add_instances-AreServed e.service_name e.instances rules (λ i n. h e i (inl refl) n) g)

  update_http_matcher-TreeIsServed :
      (es : List (Entry M)) (old : Segment (Meta (HttpRule P)))
      → TreeIsServed lib.build (HasInstance es) texts (update_http_matcher lib texts (some es) old)
  unfolding update_http_matcher
  update_http_matcher-TreeIsServed es old =
      add_rules-TreeIsServed lib.build (HasInstance es) texts (add_all_entries lib texts es [])
        new_path_segment
        (add_all_entries-AreServed (HasInstance es) es [] (λ e i m n. (e, i, m, n, refl)) tt)
        (λ path.
          subst (λ l. All (λ m. IsServed lib.build (HasInstance es) m.value) l)
            (sym (metas_at-new _ path)) tt)

  module _ (Good : String → Type 0) (a : AddressInfo) (h : PicksIn lib) where
    picker-Good :
        (o : Option P) (addrs : List AddressInfo)
        → All (λ x. Good x.addr) addrs
        → o ≡ some (lib.build addrs)
        → elim o [
          | none ↦ pick_failed
          | some p ↦ elim (lib.pick p) [ none ↦ pick_failed | some x ↦ picked x ]
        ]
          ≡ picked a
        → Good a.addr
    picker-Good none addrs g b e = absurd (ground arith)
    picker-Good (some p) addrs g b e =
        let same : p ≡ lib.build addrs = cc in
        All-In (λ x. Good x.addr) addrs a g
          (h addrs a (ap lib.pick (sym same) ∙ pick-picked lib (lib.pick p) a e))

    meta-Good :
        (o : Option (Meta (HttpRule P)))
        → ((m : Meta (HttpRule P)) → o ≡ some m → IsServed lib.build Good m.value)
        → elim o [
          | none ↦ pick_failed
          | some meta ↦ elim meta.value.picker [
            | none ↦ pick_failed
            | some p ↦ elim (lib.pick p) [ none ↦ pick_failed | some x ↦ picked x ]
          ]
        ]
          ≡ picked a
        → Good a.addr
    meta-Good none g e = absurd (ground arith)
    meta-Good (some m) g e = picker-Good m.value.picker m.value.addrs (g m refl).0 (g m refl).1 e

    matched-Good :
        (r : Matched (HttpRule P)) (intn : ℕ → ℕ)
        → KeepsServed lib.build Good texts r
        → elim r [
          | matched metas ↦ elim (get_elem? metas (intn (length metas))) [
            | none ↦ pick_failed
            | some meta ↦ elim meta.value.picker [
              | none ↦ pick_failed
              | some p ↦ elim (lib.pick p) [ none ↦ pick_failed | some x ↦ picked x ]
            ]
          ]
          | _ ↦ no_registry_entry
        ]
          ≡ picked a
        → Good a.addr
    matched-Good (matched metas) intn g e =
        meta-Good (get_elem? metas (intn (length metas)))
          (λ m f. g m (get_elem?-In metas (intn (length metas)) m f)) e
    matched-Good wrong_path intn g e = absurd (ground arith)
    matched-Good no_pattern intn g e = absurd (ground arith)
    matched-Good not_accepted intn g e = absurd (ground arith)
    matched-Good nil_meta intn g e = absurd (ground arith)

  -- With a picker that picks among the addresses that it was built with, and a sort that adds nothing,
  -- an HTTP pick from the tree built of some entries gives an address of an instance of these entries.
  pub http_pick_with_info-HasInstance :
      (matches_string matches_regex : Rule → Bool) (intn : ℕ → ℕ) (es : List (Entry M))
      (old : Segment (Meta (HttpRule P))) (method path : Bytes) (a : AddressInfo)
      → PicksIn lib
      → Sorts texts
      → http_pick_with_info lib texts matches_string matches_regex intn
          (update_http_matcher lib texts (some es) old)
          method
          path
        ≡ picked a
      → HasInstance es a.addr
  unfolding http_pick_with_info
  http_pick_with_info-HasInstance matches_string matches_regex intn es old method path a h k e =
      matched-Good (HasInstance es) a h _ intn
        (match_with_meta-KeepsServed lib.build (HasInstance es) texts
          (estimate_header matches_string matches_regex)
          (update_http_matcher lib texts (some es) old) method path k
          (update_http_matcher-TreeIsServed es old))
        e
