-- ===== src/Registry/Memory/Diff.antt =====
-- registry/memory.go: the loop over the entries of one service, and what it reports as new and as
-- gone.
use go_framework.Base.{
  String, Bool, true, false, not, ◌&&◌, ◌||◌, List, [], ◌∷◌, ◌++◌, Option, none, some, is_some, ◌≡◌,
  refl, arith, is_empty, if◌then◌else◌, GoMap, lookup, insert, delete, text_discrete, ite,
  lookup-insert, lookup-delete,
}
use go_framework.Registry.{Instance}
use go_framework.Registry.Memory.{
  Entries, Round, to_instances, of_nil, add_entry, add_entries, process_service,
}

module _ {M : Type 0} where
  -- Is the address among the instances?
  abbrev pub has_addr : String → List (Instance M) → Bool
  has_addr a [] = false
  has_addr a (e ∷ es) = ite (text_discrete e.addr a) true (has_addr a es)

  -- The metadata that the last instance with the address has.
  abbrev pub last_meta : String → List (Instance M) → Option M
  last_meta a [] = none
  last_meta a (e ∷ es) = elim (last_meta a es) [
    | none ↦ ite (text_discrete e.addr a) (some e.meta) none
    | some x ↦ some x
  ]

  abbrev pub or_else : Option M → Option M → Option M
  or_else none y = y
  or_else (some x) y = some x

  pub is_some-last_meta :
      (a : String) (es : List (Instance M)) → is_some (last_meta a es) ≡ has_addr a es
  is_some-last_meta a [] = refl
  is_some-last_meta a (e ∷ es) = ground (arith, is_some-last_meta a es)

  pub has_addr-append :
      (a : String) (xs ys : List (Instance M))
      → has_addr a (xs ++ ys) ≡ has_addr a xs || has_addr a ys
  has_addr-append a [] ys = refl
  has_addr-append a (x ∷ xs) ys = ground (arith, has_addr-append a xs ys)

  pub has_addr-to_instances :
      (a : String) (m : GoMap M) → has_addr a (to_instances m) ≡ is_some (lookup a m)
  unfolding lookup
  has_addr-to_instances a [] = refl
  has_addr-to_instances a ((j, x) ∷ m) = ground (arith, has_addr-to_instances a m)

  lookup_nil : (a : String) → lookup {V = M} a [] ≡ none
  unfolding lookup
  lookup_nil a = refl

  add_entry-instance_map :
      (r : Round M) (e : Instance M)
      → (add_entry r e).instance_map ≡ insert e.addr e.meta r.instance_map
  unfolding add_entry
  add_entry-instance_map r e = ground arith

  add_entry-prev :
      (a : String) (r : Round M) (e : Instance M)
      → lookup a (of_nil (add_entry r e).prev_instances)
        ≡ ite (text_discrete e.addr a) none (lookup a (of_nil r.prev_instances))
  unfolding add_entry
  add_entry-prev a r e =
      ground (arith, lookup-delete e.addr a (of_nil r.prev_instances), lookup_nil a)

  add_entry-new :
      (a : String) (r : Round M) (e : Instance M)
      → has_addr a (add_entry r e).new_insts ≡ (
          has_addr a r.new_insts
          || ite
              (text_discrete e.addr a)
              (not (is_some (lookup a (of_nil r.prev_instances))))
              false)
  unfolding add_entry
  add_entry-new a r e = ground (arith, has_addr-append a r.new_insts (e ∷ []), lookup_nil a)

  pub add_entries-instance_map :
      (a : String) (r : Round M) (es : List (Instance M))
      → lookup a (add_entries r es).instance_map
        ≡ or_else (last_meta a es) (lookup a r.instance_map)
  unfolding add_entries
  add_entries-instance_map a r [] = refl
  add_entries-instance_map a r (e ∷ es) = ground (
    arith,
    add_entries-instance_map a (add_entry r e) es,
    add_entry-instance_map r e,
    lookup-insert e.addr a e.meta r.instance_map,
  )

  pub add_entries-prev :
      (a : String) (r : Round M) (es : List (Instance M))
      → lookup a (of_nil (add_entries r es).prev_instances)
        ≡ (if has_addr a es then none else lookup a (of_nil r.prev_instances))
  unfolding add_entries
  add_entries-prev a r [] = refl
  add_entries-prev a r (e ∷ es) =
      ground (arith, add_entries-prev a (add_entry r e) es, add_entry-prev a r e)

  pub add_entries-new :
      (a : String) (r : Round M) (es : List (Instance M))
      → (is_some (lookup a (of_nil r.prev_instances)) || has_addr a (add_entries r es).new_insts)
        ≡ (is_some (lookup a (of_nil r.prev_instances))
            || (has_addr a r.new_insts || has_addr a es))
  unfolding add_entries
  add_entries-new a r [] = ground arith
  add_entries-new a r (e ∷ es) =
      ground
        (arith, add_entries-new a (add_entry r e) es, add_entry-prev a r e, add_entry-new a r e)

  -- The metadata that a service has for an address, if any.
  abbrev pub instance_of : Entries M → String → String → Option M
  instance_of s name addr = lookup addr (of_nil (lookup name s))

  abbrev start : Entries M → String → Round M
  start s name = record { instance_map = []; prev_instances = lookup name s; new_insts = [] }

  -- What a stored map means for a service: nothing stored reads as the empty map.
  instance_of-store :
      (s : Entries M) (name n a : String) (m : GoMap M)
      → instance_of (if is_empty m then delete name s else insert name m s) n a
        ≡ ite (text_discrete name n) (lookup a m) (instance_of s n a)
  instance_of-store s name n a [] = ground (arith, lookup-delete name n s)
  instance_of-store s name n a (x ∷ m) = ground (arith, lookup-insert name n (x ∷ m) s)

  pub process_service-instance_of :
      (s : Entries M) (name n a : String) (es : List (Instance M))
      → instance_of (process_service s name es).0 n a
        ≡ ite (text_discrete name n) (last_meta a es) (instance_of s n a)
  unfolding process_service
  process_service-instance_of s name n a es = ground (
    arith,
    instance_of-store s name n a (add_entries (start s name) es).instance_map,
    add_entries-instance_map a (start s name) es,
    lookup_nil a,
  )

  -- The new and the gone instances, against the addresses before and after.
  pub process_service-diff :
      (s : Entries M) (name a : String) (es : List (Instance M))
      → let (news, dels) = (process_service s name es).1 in
        ((is_some (instance_of s name a) || has_addr a news) && not (has_addr a dels))
        ≡ has_addr a es
  unfolding process_service
  process_service-diff s name a es = ground (
    arith,
    add_entries-new a (start s name) es,
    add_entries-prev a (start s name) es,
    has_addr-to_instances a (of_nil (add_entries (start s name) es).prev_instances),
  )
