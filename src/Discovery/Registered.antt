-- ===== src/Discovery/Registered.antt =====
-- The gRPC picks of registry/discovery.go, against the history of what a registry has reported.
use go_framework.Base.{
  String, text_discrete, lookup, lookup-insert, Bool, true, false, not, List, [], ◌∷◌, ◌++◌, Option,
  none, some, if◌then◌else◌, ite, ◌&&◌, ◌||◌, ◌≡◌, refl, sym, ap, ◌∙◌, arith, In, Bool-cases, inl,
  inr, ◌⊎◌,
}
use go_framework.Registry.{Instance, Event, on_update, on_delete}
use go_framework.Discovery.Entries.{Shows, instances_of, move, receive_all-Shows}
use go_framework.Discovery.{
  AddressInfo, Library, Services, new_services, or_empty, contains_addr, not_deleted, grpc_addrs,
  update_grpc_entries, delete_grpc_entries, receive_event, receive_all, pick_with_info, picked,
  unmarshal_registry_meta, RegistryMeta, is_http, no_registry_entry, pick_failed,
}

-- Whether an address is registered for a service after some events, if it was so before them or not.
unfoldable pub registered : {M : Type 0} → String → String → Bool → List (Event M) → Bool
registered name a before [] = before
registered name a before (on_update n is ∷ es) =
    registered name a (ite (text_discrete n name) (contains_addr a is || before) before) es
registered name a before (on_delete n is ∷ es) =
    registered name a (ite (text_discrete n name) (not (contains_addr a is) && before) before) es

-- A picker picks one of the addresses that it was built with.
abbrev pub PicksIn : {M P : Type 0} → Library M P → Type 0
PicksIn lib =
    (addrs : List AddressInfo) (a : AddressInfo) → lib.pick (lib.build addrs) ≡ some a → In a addrs

module _ {M : Type 0} where
  contains_addr-append :
      (a : String) (is js : List (Instance M))
      → contains_addr a (is ++ js) ≡ (contains_addr a is || contains_addr a js)
  unfolding contains_addr
  contains_addr-append a [] js = refl
  contains_addr-append a (i ∷ is) js = ground (arith, contains_addr-append a is js)

  contains_addr-not_deleted :
      (a : String) (is ds : List (Instance M))
      → contains_addr a (not_deleted is ds) ≡ (not (contains_addr a ds) && contains_addr a is)
  unfolding contains_addr not_deleted
  contains_addr-not_deleted a [] ds = ground (arith, Bool-cases (contains_addr a ds))
  contains_addr-not_deleted a (i ∷ is) ds = ground (arith, contains_addr-not_deleted a is ds)

  not_deleted-nil : (is : List (Instance M)) → not_deleted is [] ≡ is
  unfolding contains_addr not_deleted
  not_deleted-nil [] = refl
  not_deleted-nil (i ∷ is) = ap (λ r. i ∷ r) (not_deleted-nil is)

module _ {M P : Type 0} (lib : Library M P) where
  -- What one event does to the instances and to the entry of a service, whatever service it is about.
  update-instances_of :
      (name n : String) (is : List (Instance M)) (s : Services M P)
      → instances_of name (update_grpc_entries lib n is s)
        ≡ ite (text_discrete n name) (is ++ instances_of name s) (instances_of name s)
  unfolding update_grpc_entries
  update-instances_of name n [] s = ground arith
  update-instances_of name n (i ∷ is) s =
      ground (
        arith,
        lookup-insert n name (i ∷ is ++ or_empty (lookup n s.grpc_services)) s.grpc_services,
      )

  delete-instances_of :
      (name n : String) (is : List (Instance M)) (s : Services M P)
      → instances_of name (delete_grpc_entries lib n is s)
        ≡ ite (text_discrete n name) (not_deleted (instances_of name s) is) (instances_of name s)
  unfolding delete_grpc_entries
  delete-instances_of name n [] s = ground (arith, not_deleted-nil (instances_of name s))
  delete-instances_of name n (i ∷ is) s = ground (
    arith,
    lookup-insert n name (not_deleted (or_empty (lookup n s.grpc_services)) (i ∷ is))
        s.grpc_services,
  )

  receive_event-contains_addr :
      (name a : String) (e : Event M) (es : List (Event M)) (s : Services M P)
      → registered name a (contains_addr a (instances_of name s)) (e ∷ es)
        ≡ registered name a (contains_addr a (instances_of name (receive_event lib e s))) es
  unfolding registered receive_event
  receive_event-contains_addr name a (on_update n is) es s =
      ap (λ b. registered name a b es)
        (ground (
          arith,
          contains_addr-append a is (instances_of name s),
          update-instances_of name n is (record s { http_matcher_update_flag = true }),
        ))
  receive_event-contains_addr name a (on_delete n is) es s =
      ap (λ b. registered name a b es)
        (ground (
          arith,
          contains_addr-not_deleted a (instances_of name s) is,
          delete-instances_of name n is (record s { http_matcher_update_flag = true }),
        ))

  receive_all-contains_addr :
      (name a : String) (es : List (Event M)) (s : Services M P)
      → registered name a (contains_addr a (instances_of name s)) es
        ≡ contains_addr a (instances_of name (receive_all lib es s))
  unfolding receive_all registered
  receive_all-contains_addr name a [] s = refl
  receive_all-contains_addr name a (e ∷ es) s =
      receive_event-contains_addr name a e es s
      ∙ receive_all-contains_addr name a es (receive_event lib e s)

  if-In :
      (b : Bool) (a x : AddressInfo) (rest : List AddressInfo)
      → In a (if b then rest else x ∷ rest)
      → (x ≡ a) ⊎ In a rest
  if-In true a x rest h = inr h
  if-In false a x rest h = h

  instance-In :
      (name : String) (o : Option RegistryMeta) (i : Instance M) (a : AddressInfo)
      (rest : List AddressInfo)
      → In a (elim o [
        | none ↦ record { addr = i.addr; tls = false } ∷ rest
        | some meta ↦
            if is_http lib name meta
            then rest
            else record { addr = i.addr; tls = meta.tls_server } ∷ rest
      ])
      → (i.addr ≡ a.addr) ⊎ In a rest
  instance-In name none i a rest (inl e) = inl (ap (λ x. x.addr) e)
  instance-In name none i a rest (inr h) = inr h
  instance-In name (some meta) i a rest h = elim (if-In (is_http lib name meta) a _ rest h) [
    | inl e ↦ inl (ap (λ x. x.addr) e)
    | inr k ↦ inr k
  ]

  grpc_addrs-contains_addr :
      (name : String) (a : AddressInfo) (is : List (Instance M))
      → In a (grpc_addrs lib name is)
      → contains_addr a.addr is ≡ true
  unfolding grpc_addrs contains_addr
  grpc_addrs-contains_addr name a [] h = absurd h
  grpc_addrs-contains_addr name a (i ∷ is) h =
      elim (instance-In name (unmarshal_registry_meta lib i.meta) i a (grpc_addrs lib name is) h) [
        | inl e ↦ ground arith
        | inr k ↦ ground (arith, grpc_addrs-contains_addr name a is k)
      ]

  pub pick-picked :
      (o : Option AddressInfo) (a : AddressInfo)
      → elim o [ none ↦ pick_failed | some x ↦ picked x ] ≡ picked a
      → o ≡ some a
  pick-picked none a e = absurd (ground arith)
  pick-picked (some x) a e = cc

  entry-picked :
      (o : Option P) (a : AddressInfo)
      → elim o [
        | none ↦ no_registry_entry
        | some p ↦ elim (lib.pick p) [ none ↦ pick_failed | some x ↦ picked x ]
      ]
        ≡ picked a
      → (p : P) × (o ≡ some p) × (lib.pick p ≡ some a)
  entry-picked none a e = absurd (ground arith)
  entry-picked (some p) a e = (p, refl, pick-picked (lib.pick p) a e)

  pick_with_info-picked :
      (s : Services M P) (name : String) (a : AddressInfo)
      → pick_with_info lib s name ≡ picked a
      → (p : P) × (lookup name s.grpc_entries ≡ some p) × (lib.pick p ≡ some a)
  unfolding pick_with_info
  pick_with_info-picked s name a e = entry-picked (lookup name s.grpc_entries) a e

  -- With a picker that picks among the addresses that it was built with, a gRPC pick gives only an
  -- address that is registered for the service: some update of the service had it, and no deletion
  -- since then.
  pub pick_with_info-registered :
      (name : String) (a : AddressInfo) (es : List (Event M))
      → PicksIn lib
      → pick_with_info lib (receive_all lib es new_services) name ≡ picked a
      → registered name a.addr false es ≡ true
  unfolding lookup contains_addr
  pick_with_info-registered name a es h e =
      let s = receive_all lib es new_services in
      let (p, f, g) = pick_with_info-picked s name a e in
      let shown : Shows lib.build (some p) (grpc_addrs lib name (instances_of name s)) =
        move lib _ _ _ _ (sym f) refl (receive_all-Shows lib name es) in
      receive_all-contains_addr name a.addr es new_services
      ∙ grpc_addrs-contains_addr name a (instances_of name s) (h _ a (ap lib.pick (sym shown) ∙ g))
