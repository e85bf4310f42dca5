-- ===== src/Registry/Memory.antt =====
-- registry/memory.go: the registry in memory. An operation gives the entries as it leaves them under
-- the mutex, and the events that it hands to the notifier after it has given the mutex back, in order.
-- These are separate steps, which Registry/Concurrent makes one at a time.
pub mod Diff
pub mod Contents
use go_framework.Base.{
  String, Bool, true, false, List, [], ◌∷◌, ◌++◌, Option, none, some, is_some, length, is_empty,
  ltb, if◌then◌else◌, GoMap, lookup, insert, delete, keys, text_discrete, ite,
}
use text.Mathlib.Text.{starts_with}
use go_framework.Registry.{Instance, Entry, Event, on_update, on_delete}

abbrev pub Entries : Type 0 → Type 0
Entries M = GoMap (GoMap M)

-- The variables of the loop over the entries of one service.
pub record Round (M : Type 0) : Type 0 where
  pub instance_map : GoMap M
  pub prev_instances : Option (GoMap M)
  pub new_insts : List (Instance M)

module _ {M : Type 0} where
  -- The instances of a map, in the order of a `range`.
  abbrev pub to_instances : GoMap M → List (Instance M)
  to_instances [] = []
  to_instances ((a, x) ∷ m) = record { addr = a; meta = x } ∷ to_instances m

  -- Reading a nil map finds nothing.
  abbrev pub of_nil : Option (GoMap M) → GoMap M
  of_nil none = []
  of_nil (some m) = m

  unfoldable pub add_entry : Round M → Instance M → Round M
  add_entry r e = elim r.prev_instances [
    | none ↦ record r {
      instance_map = insert e.addr e.meta r.instance_map;
      new_insts = r.new_insts ++ e ∷ [];
    }
    | some prev ↦ elim (lookup e.addr prev) [
      | none ↦ record r {
        instance_map = insert e.addr e.meta r.instance_map;
        new_insts = r.new_insts ++ e ∷ [];
      }
      | some _ ↦ record r {
        instance_map = insert e.addr e.meta r.instance_map;
        prev_instances = some (delete e.addr prev);
      }
    ]
  ]

  unfoldable pub add_entries : Round M → List (Instance M) → Round M
  add_entries r [] = r
  add_entries r (e ∷ es) = add_entries (add_entry r e) es

  -- One round of the loop over the service names: the entries, and what to notify.
  unfoldable pub process_service :
      Entries M → String → List (Instance M) → Entries M × (List (Instance M) × List (Instance M))
  process_service s name entries =
      let r =
        add_entries (record { instance_map = []; prev_instances = lookup name s; new_insts = [] })
          entries in
      (
        (if is_empty r.instance_map then delete name s else insert name r.instance_map s),
        (r.new_insts, to_instances (of_nil r.prev_instances)),
      )

  unfoldable pub process_entries :
      Entries M
      → List String
      → List (Instance M)
      → GoMap (List (Instance M) × List (Instance M))
      → Entries M × GoMap (List (Instance M) × List (Instance M))
  process_entries s [] entries notify_map = (s, notify_map)
  process_entries s (name ∷ names) entries notify_map =
      let (s', diff) = process_service s name entries in
      process_entries s' names entries (insert name diff notify_map)

  -- The calls for one service of `notifyMap`.
  unfoldable pub diff_events : String → List (Instance M) × List (Instance M) → List (Event M)
  diff_events name (news, dels) =
      (if is_empty news then [] else on_update name news ∷ [])
      ++ (if is_empty dels then [] else on_delete name dels ∷ [])

  unfoldable pub notify_all : GoMap (List (Instance M) × List (Instance M)) → List (Event M)
  notify_all [] = []
  notify_all ((name, diff) ∷ rest) = diff_events name diff ++ notify_all rest

  unfoldable pub register_service_with_entries :
      Entries M → List String → List (Instance M) → Entries M × List (Event M)
  register_service_with_entries s names entries =
      let (s', notify_map) = process_entries s names entries [] in (s', notify_all notify_map)

  unfoldable pub register_service : Entries M → String → String → M → Entries M × List (Event M)
  register_service s name addr meta = (
    insert name (insert addr meta (of_nil (lookup name s))) s,
    on_update name (record { addr = addr; meta = meta } ∷ []) ∷ [],
  )

  -- The branches of `UnregisterService` on the service's map.
  unfoldable pub drop_all : Entries M → String → GoMap M → Entries M × List (Instance M)
  drop_all s name m = (delete name s, to_instances m)

  unfoldable pub drop_one : Entries M → String → GoMap M → String → Entries M × List (Instance M)
  drop_one s name m addr =
      let m' = delete addr m in
      let dels : List (Instance M) = elim (lookup addr m) [
        | none ↦ []
        | some x ↦ record { addr = addr; meta = x } ∷ []
      ] in
      ((if is_empty m' then delete name s else insert name m' s), dels)

  unfoldable pub unregister_service : Entries M → String → String → Entries M × List (Event M)
  unfolding drop_all drop_one
  unregister_service s name addr = elim (lookup name s) [
    | none ↦ (s, on_delete name [] ∷ [])
    | some m ↦
        let (s', dels) = ite (text_discrete addr "") (drop_all s name m) (drop_one s name m addr) in
        (s', on_delete name dels ∷ [])
  ]

  unfoldable pub service_instances : Entries M → String → List (Instance M)
  service_instances s name = elim (lookup name s) [ none ↦ [] | some m ↦ to_instances m ]

  unfoldable pub has_service : Entries M → String → Bool
  has_service s name = ltb 0 (length (of_nil (lookup name s)))

  unfoldable pub has_instance : Entries M → String → String → Bool
  has_instance s name addr =
      if is_empty (of_nil (lookup name s))
      then false
      else is_some (lookup addr (of_nil (lookup name s)))

  unfoldable pub list_service_addresses : Entries M → String → List String
  list_service_addresses s name = elim (lookup name s) [ none ↦ [] | some m ↦ keys m ]

  unfoldable pub list_service_by_prefix : Entries M → String → GoMap (List String)
  list_service_by_prefix [] prefix = []
  list_service_by_prefix ((name, m) ∷ s) prefix =
      let rest = list_service_by_prefix s prefix in
      if is_empty m
      then rest
      else ite (text_discrete prefix "") ((name, keys m) ∷ rest)
          (if starts_with name prefix then (name, keys m) ∷ rest else rest)

  unfoldable pub list_all_service : Entries M → List (Entry M)
  list_all_service [] = []
  list_all_service ((name, m) ∷ s) =
      if is_empty m
      then list_all_service s
      else record { service_name = name; instances = to_instances m } ∷ list_all_service s
