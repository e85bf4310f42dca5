-- ===== src/Registry/Memory/Contents.antt =====
-- registry/memory.go: what the registry holds after each operation.
use go_framework.Base.{
  String, Bool, true, false, List, [], ◌∷◌, none, some, is_some, ◌≡◌, refl, inl, inr, arith,
  if◌then◌else◌, GoMap, lookup, insert, delete, text_discrete, ite, lookup-insert, lookup-delete,
  Option-cases,
}
use go_framework.Registry.{Instance}
use go_framework.Registry.Memory.{
  Entries, of_nil, process_service, process_entries, register_service_with_entries,
  register_service, unregister_service, has_instance,
}
use go_framework.Registry.Memory.Diff.{last_meta, instance_of, process_service-instance_of}

-- Is the text one of the names?
abbrev pub listed : String → List String → Bool
listed n [] = false
listed n (x ∷ xs) = ite (text_discrete x n) true (listed n xs)

module _ {M : Type 0} where
  process_entries-instance_of :
      (s : Entries M) (names : List String) (es : List (Instance M))
      (nm : GoMap (List (Instance M) × List (Instance M))) (n a : String)
      → instance_of (process_entries s names es nm).0 n a
        ≡ (if listed n names then last_meta a es else instance_of s n a)
  unfolding process_entries
  process_entries-instance_of s [] es nm n a = refl
  process_entries-instance_of s (x ∷ xs) es nm n a = ground (
    arith,
    process_entries-instance_of (process_service s x es).0 xs es
        (insert x (process_service s x es).1 nm) n a,
    process_service-instance_of s x n a es,
  )

  -- Registering entries for some services gives each of these services exactly the entries, the
  -- last one winning where an address is repeated, and leaves every other service alone.
  pub register_service_with_entries-instance_of :
      (s : Entries M) (names : List String) (es : List (Instance M)) (n a : String)
      → instance_of (register_service_with_entries s names es).0 n a
        ≡ (if listed n names then last_meta a es else instance_of s n a)
  unfolding register_service_with_entries
  register_service_with_entries-instance_of s names es n a =
      process_entries-instance_of s names es [] n a

  -- Registering one instance sets its metadata and touches no other.
  pub register_service-instance_of :
      (s : Entries M) (name addr : String) (meta : M) (n a : String)
      → instance_of (register_service s name addr meta).0 n a
        ≡ ite
            (text_discrete name n)
            (ite (text_discrete addr a) (some meta) (instance_of s n a))
            (instance_of s n a)
  unfolding register_service
  register_service-instance_of s name addr meta n a = ground (
    arith,
    lookup-insert name n (insert addr meta (of_nil (lookup name s))) s,
    lookup-insert addr a meta (of_nil (lookup name s)),
  )

  lookup_nil : (a : String) → lookup {V = M} a [] ≡ none
  unfolding lookup
  lookup_nil a = refl

  -- Unregistering removes the instance, or every instance of the service for the empty address,
  -- and touches no other.
  pub unregister_service-instance_of :
      (s : Entries M) (name addr n a : String)
      → instance_of (unregister_service s name addr).0 n a
        ≡ ite
            (text_discrete name n)
            (ite (text_discrete addr "") none (ite (text_discrete addr a) none (instance_of s n a)))
            (instance_of s n a)
  unfolding unregister_service
  unregister_service-instance_of s name addr n a = elim (Option-cases (lookup name s)) [
    | inl e ↦ rw (e, unregister_service) (ground (arith, lookup_nil a))
    | inr (m, e) ↦
        rw (e, unregister_service)
          (ground (
            arith,
            lookup_nil a,
            lookup-delete name n s,
            lookup-insert name n (delete addr m) s,
            lookup-delete addr a m,
          ))
  ]

  -- `HasInstance` answers whether an instance is held.
  pub has_instance-instance_of :
      (s : Entries M) (n a : String) → has_instance s n a ≡ is_some (instance_of s n a)
  unfolding has_instance
  has_instance-instance_of s n a = ground (arith, lookup_nil a)
