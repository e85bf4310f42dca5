-- ===== src/MemoryRegistry.antt =====
-- memory_registry/registry.go and the connections of memory_registry/dialer.go: the services of the
-- own process, by their names and aliases. A wrapper is shared by its names, so the map holds the
-- address of a wrapper, its place in the list of wrappers. What internal/ makes of a handler, the
-- connection of a dialler and `strings.TrimSpace` are parameters. The order of a map is the order in
-- which `range` visits its entries.
mod Names
mod Failed
mod Tests
use Prim.Native.String.{◌++◌ as append}
use go_framework.Base.{
  ℕ, Bool, true, false, List, [], ◌∷◌, ◌++◌, Option, none, some, if◌then◌else◌, String, GoMap,
  lookup, insert, delete, length, get_elem?, ite, text_discrete,
}

-- `ServiceInfo`, as far as a registration reads it, and `Options`.
pub record ServiceInfo (D E : Type 0) : Type 0 where
  pub service_name : String
  pub methods : GoMap D
  pub streams : GoMap E

pub record RegisterOptions : Type 0 where
  pub alias_names : List String
  pub alias_only : Bool

pub record ServiceWrapper (U S : Type 0) : Type 0 where
  pub wrapped_name : String
  pub unary : GoMap U
  pub streaming : GoMap S

pub record MemoryRegistry (U S : Type 0) : Type 0 where
  pub wrappers : List (ServiceWrapper U S)
  pub srv_registry_info : GoMap ℕ

-- A duplicate name, or a method whose handler does not fit.
pub data RegisterError : Type 0 where
  duplicate : String → RegisterError
  unfit : String → RegisterError

pub data QueryError : Type 0 where
  service_not_found : QueryError
  method_not_found : QueryError

pub data Queried (A : Type 0) : Type 0 where
  method_found : A → Queried A
  query_failed : QueryError → Queried A

-- The full name of a method.
unfoldable pub method_path : String → String → String
method_path service name = append "/" (append service (append "/" name))

-- A loop over the methods: what it filled in, and the error that ended it.
unfoldable pub create_methods :
    {D U : Type 0}
    → (String → D → Option U)
    → String
    → GoMap D
    → GoMap U
    → GoMap U × Option RegisterError
unfolding method_path
create_methods create service [] m = (m, none)
create_methods create service ((name, d) ∷ ds) m = elim (create (method_path service name) d) [
  | none ↦ (m, some (unfit (method_path service name)))
  | some u ↦ create_methods create service ds (insert (method_path service name) u m)
]

unfoldable pub store_name : String → ℕ → GoMap ℕ → GoMap ℕ × Option RegisterError
store_name name ref m = elim (lookup name m) [
  | none ↦ (insert name ref m, none)
  | some r ↦ (m, some (duplicate name))
]

-- The loop over the aliases. One that is spelled like the service, but for spaces, is passed over.
unfoldable pub store_aliases :
    (String → String) → String → ℕ → List String → GoMap ℕ → GoMap ℕ × Option RegisterError
unfolding store_name
store_aliases trim_space service ref [] m = (m, none)
store_aliases trim_space service ref (a ∷ rest) m =
    ite (text_discrete (trim_space a) service) (store_aliases trim_space service ref rest m)
      (elim (lookup a m) [
        | none ↦ store_aliases trim_space service ref rest (insert a ref m)
        | some r ↦ (m, some (duplicate a))
      ])

-- The service's own name, unless only aliases are asked for, and then the aliases.
unfoldable pub store_own : Bool → String → ℕ → GoMap ℕ → GoMap ℕ × Option RegisterError
unfolding store_name
store_own alias_only service ref m = if alias_only then (m, none) else store_name service ref m

unfoldable pub store_then_aliases :
    (String → String)
    → String
    → ℕ
    → List String
    → GoMap ℕ × Option RegisterError
    → GoMap ℕ × Option RegisterError
unfolding store_aliases
store_then_aliases trim_space service ref aliases (m, some e) = (m, some e)
store_then_aliases trim_space service ref aliases (m, none) =
    store_aliases trim_space service ref aliases m

-- What is stored before the methods are created.
unfoldable pub store_names :
    (String → String) → String → RegisterOptions → ℕ → GoMap ℕ → GoMap ℕ × Option RegisterError
unfolding store_own store_then_aliases
store_names trim_space service opts ref m =
    store_then_aliases trim_space service ref opts.alias_names
      (store_own opts.alias_only service ref m)

module _ {U S : Type 0} where
  abbrev pub empty_wrapper : String → ServiceWrapper U S
  empty_wrapper name = record { wrapped_name = name; unary = []; streaming = [] }

  abbrev pub new_memory_registry : MemoryRegistry U S
  new_memory_registry = record { wrappers = []; srv_registry_info = [] }

module _ {D E U S : Type 0} (trim_space : String → String) (create_unary : String → D → Option U)
    (create_streaming : String → E → Option S) where
  -- The streams, unless a method failed.
  unfoldable pub fill_streams :
      ServiceInfo D E → GoMap U × Option RegisterError → ServiceWrapper U S × Option RegisterError
  unfolding create_methods
  fill_streams info (u, some e) =
      (record { wrapped_name = info.service_name; unary = u; streaming = [] }, some e)
  fill_streams info (u, none) =
      let (s, e) = create_methods create_streaming info.service_name info.streams [] in
      (record { wrapped_name = info.service_name; unary = u; streaming = s }, e)

  unfoldable pub fill_wrapper : ServiceInfo D E → ServiceWrapper U S × Option RegisterError
  unfolding create_methods fill_streams
  fill_wrapper info =
      fill_streams info (create_methods create_unary info.service_name info.methods [])

  unfoldable pub register_stored :
      ServiceInfo D E
      → MemoryRegistry U S
      → GoMap ℕ × Option RegisterError
      → MemoryRegistry U S × Option RegisterError
  unfolding fill_wrapper
  register_stored info r (m, some e) = (
    record { wrappers = r.wrappers ++ empty_wrapper info.service_name ∷ []; srv_registry_info = m },
    some e,
  )
  register_stored info r (m, none) =
      let (w, e) = fill_wrapper info in
      (record { wrappers = r.wrappers ++ w ∷ []; srv_registry_info = m }, e)

  -- `RegisterWithServiceInfo`.
  unfoldable pub register_with_service_info :
      ServiceInfo D E
      → RegisterOptions
      → MemoryRegistry U S
      → MemoryRegistry U S × Option RegisterError
  unfolding store_names register_stored
  register_with_service_info info opts r =
      register_stored info r
        (store_names trim_space info.service_name opts (length r.wrappers) r.srv_registry_info)

-- The deletions of `UnregisterWithServiceInfo`.
unfoldable pub delete_names : List String → GoMap ℕ → GoMap ℕ
delete_names [] m = m
delete_names (a ∷ rest) m = delete_names rest (delete a m)

module _ {U S : Type 0} where
  unfoldable pub unregister_with_service_info :
      String → List String → MemoryRegistry U S → MemoryRegistry U S
  unfolding delete_names
  unregister_with_service_info service aliases r = record r {
    srv_registry_info = delete_names aliases (delete service r.srv_registry_info);
  }

  unfoldable pub query_service_info : String → MemoryRegistry U S → Option (ServiceWrapper U S)
  query_service_info name r = elim (lookup name r.srv_registry_info) [
    | none ↦ none
    | some ref ↦ get_elem? r.wrappers ref
  ]

  -- The lookup of a method in one of the maps of a wrapper.
  unfoldable pub query_in :
      {A : Type 0}
      → (ServiceWrapper U S → GoMap A)
      → String
      → Option (ServiceWrapper U S)
      → Queried A
  query_in methods_of method none = query_failed service_not_found
  query_in methods_of method (some w) = elim (lookup method (methods_of w)) [
    | none ↦ query_failed method_not_found
    | some u ↦ method_found u
  ]

  unfoldable pub query_unary : String → String → MemoryRegistry U S → Queried U
  unfolding query_service_info query_in
  query_unary name method r = query_in (λ w. w.unary) method (query_service_info name r)

  unfoldable pub query_streaming : String → String → MemoryRegistry U S → Queried S
  unfolding query_service_info query_in
  query_streaming name method r = query_in (λ w. w.streaming) method (query_service_info name r)

  -- `MemoryDialer.Dial`: the connections that were made, by target. `make` is what a connection
  -- over the registry is, where the target is known.
  unfoldable pub dial_memory :
      {C : Type 0} → (String → C) → String → MemoryRegistry U S → GoMap C → GoMap C × Option C
  unfolding query_service_info
  dial_memory make target r ccs = elim (lookup target ccs) [
    | some cc' ↦ (ccs, some cc')
    | none ↦ elim (query_service_info target r) [
      | none ↦ (ccs, none)
      | some w ↦ (insert target (make target) ccs, some (make target))
    ]
  ]
