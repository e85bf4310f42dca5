-- ===== src/Discovery/Entries.antt =====
-- The gRPC entries of registry/discovery.go show the addresses of the instances of each service.
use mathlib.Core.Path.{subst}
use go_framework.Base.{
  String, text_discrete, lookup, insert, lookup-insert_self, lookup-insert_ne, lookup-delete_self,
  lookup-delete_ne, GoMap, ◌≢◌, true, List, [], ◌∷◌, ◌++◌, Option, none, some, ◌≡◌, refl, sym, ap,
}
use go_framework.Registry.{Instance, Event, on_update, on_delete}
use go_framework.Discovery.{
  AddressInfo, Library, Services, new_services, or_empty, not_deleted, grpc_addrs,
  update_grpc_entries, store_or_delete, delete_grpc_entries, receive_event, receive_all,
}

-- What the entry of a service is, by the addresses that the service has.
abbrev pub Shows : {P : Type 0} → (List AddressInfo → P) → Option P → List AddressInfo → Type 0
Shows build none addrs = addrs ≡ []
Shows build (some p) addrs = p ≡ build addrs

abbrev pub instances_of : {M P : Type 0} → String → Services M P → List (Instance M)
instances_of name s = or_empty (lookup name s.grpc_services)

module _ {M P : Type 0} (lib : Library M P) where
  abbrev IsShown : String → Services M P → Type 0
  IsShown name s =
      Shows lib.build (lookup name s.grpc_entries) (grpc_addrs lib name (instances_of name s))

  pub move :
      (o o' : Option P) (xs ys : List AddressInfo)
      → o ≡ o'
      → xs ≡ ys
      → Shows lib.build o' ys
      → Shows lib.build o xs
  move o o' xs ys e f h =
      subst (λ x. Shows lib.build x xs) (sym e) (subst (λ y. Shows lib.build o' y) (sym f) h)

  put-IsShown :
      (name n : String) (all : List (Instance M)) (entries : GoMap P) (s : Services M P)
      → Shows lib.build (lookup n entries) (grpc_addrs lib n all)
      → ((m : String) → n ≢ m → lookup m entries ≡ lookup m s.grpc_entries)
      → IsShown name s
      → IsShown name
          (record s { grpc_entries = entries; grpc_services = insert n all s.grpc_services })
  put-IsShown name n all entries s here other h = elim (text_discrete n name) [
    | yes p ↦
        subst
          (λ m.
            IsShown m
              (record s { grpc_entries = entries; grpc_services = insert n all s.grpc_services }))
          p
          (move _ _ _ _ refl
            (ap (λ o. grpc_addrs lib n (or_empty o)) (lookup-insert_self n all s.grpc_services))
            here)
    | no p ↦
        move _ _ _ _ (other name p)
          (ap (λ o. grpc_addrs lib name (or_empty o))
            (lookup-insert_ne n name all s.grpc_services p))
          h
  ]

  update-IsShown :
      (name n : String) (is : List (Instance M)) (s : Services M P)
      → IsShown name s
      → IsShown name (update_grpc_entries lib n is s)
  unfolding update_grpc_entries
  update-IsShown name n [] s h = h
  update-IsShown name n (i ∷ is) s h =
      let all = i ∷ is ++ or_empty (lookup n s.grpc_services) in
      let p = lib.build (grpc_addrs lib n all) in
      put-IsShown name n all (insert n p s.grpc_entries) s
        (move _ _ _ _ (lookup-insert_self n p s.grpc_entries) refl refl)
        (λ m d. lookup-insert_ne n m p s.grpc_entries d) h

  store_or_delete-Shows :
      (n : String) (addrs : List AddressInfo) (entries : GoMap P)
      → Shows lib.build (lookup n (store_or_delete lib n addrs entries)) addrs
  unfolding store_or_delete
  store_or_delete-Shows n [] entries = move _ _ _ _ (lookup-delete_self n entries) refl refl
  store_or_delete-Shows n (a ∷ addrs) entries =
      move _ _ _ _ (lookup-insert_self n (lib.build (a ∷ addrs)) entries) refl refl

  store_or_delete_other :
      (n m : String) (addrs : List AddressInfo) (entries : GoMap P)
      → n ≢ m
      → lookup m (store_or_delete lib n addrs entries) ≡ lookup m entries
  unfolding store_or_delete
  store_or_delete_other n m [] entries d = lookup-delete_ne n m entries d
  store_or_delete_other n m (a ∷ addrs) entries d =
      lookup-insert_ne n m (lib.build (a ∷ addrs)) entries d

  delete-IsShown :
      (name n : String) (is : List (Instance M)) (s : Services M P)
      → IsShown name s
      → IsShown name (delete_grpc_entries lib n is s)
  unfolding delete_grpc_entries
  delete-IsShown name n [] s h = h
  delete-IsShown name n (i ∷ is) s h =
      let rest = not_deleted (or_empty (lookup n s.grpc_services)) (i ∷ is) in
      let addrs = grpc_addrs lib n rest in
      put-IsShown name n rest (store_or_delete lib n addrs s.grpc_entries) s
        (store_or_delete-Shows n addrs s.grpc_entries)
        (λ m d. store_or_delete_other n m addrs s.grpc_entries d) h

  receive_all-IsShown :
      (name : String) (es : List (Event M)) (s : Services M P)
      → IsShown name s
      → IsShown name (receive_all lib es s)
  unfolding receive_all receive_event
  receive_all-IsShown name [] s h = h
  receive_all-IsShown name (on_update n is ∷ es) s h =
      receive_all-IsShown name es _
        (update-IsShown name n is (record s { http_matcher_update_flag = true }) h)
  receive_all-IsShown name (on_delete n is ∷ es) s h =
      receive_all-IsShown name es _
        (delete-IsShown name n is (record s { http_matcher_update_flag = true }) h)

  -- After any updates and deletions, the entry of a service is the picker of the gRPC addresses of the
  -- instances that the service has, or there is no entry and no such address.
  pub receive_all-Shows :
      (name : String) (es : List (Event M))
      → Shows lib.build
          (lookup name (receive_all lib es new_services).grpc_entries)
          (grpc_addrs lib name (instances_of name (receive_all lib es new_services)))
  unfolding lookup grpc_addrs
  receive_all-Shows name es = receive_all-IsShown name es new_services refl
