-- ===== src/Discovery.antt =====
-- registry/discovery.go and registry/meta.go: the gRPC entries of the services, kept by the updates
-- and deletions that a registry reports, and the picks among them. A mutex makes each operation one
-- step.
pub mod Rules
pub mod Down
pub mod Checks
pub mod Entries
pub mod Registered
pub mod Served
pub mod ServedTree
pub mod HttpPicks
mod Tests
mod HttpTests
use go_framework.Base.{
  ℕ, String, Bytes, same_bytes, text_discrete, GoMap, lookup, insert, delete, Bool, true, false,
  List, [], ◌∷◌, ◌++◌, Option, none, some, if◌then◌else◌, is_empty, ite, ltb, leb, ◌==◌, ◌&&◌, ◌||◌,
  drop, take, length,
}
use go_framework.Encryption.{has_prefix}
use go_framework.Registry.{Instance, Entry, Event, on_update, on_delete}

pub record AddressInfo : Type 0 where
  pub addr : String
  pub tls : Bool

-- A rule that a server has registered.
pub record RegistryRule : Type 0 where
  pub http_patterns : List Bytes
  pub header_map : List (List (Bytes × Bytes))
  pub header_regex_map : List (List (Bytes × Bytes))

-- A rule that is none is a nil pointer.
pub record RegistryMeta : Type 0 where
  pub tls_server : Bool
  pub http_patterns : List Bytes
  pub version : ℕ
  pub kind : ℕ
  pub http_rules : List (Option RegistryRule)

abbrev pub registry_type_http : ℕ
registry_type_http = 2

abbrev pub registry_type_http_endpoint : ℕ
registry_type_http_endpoint = 3

-- "http.server@registry"
abbrev pub registry_prefix : Bytes
registry_prefix =
    104 ∷ 116 ∷ 116 ∷ 112 ∷ 46 ∷ 115 ∷ 101 ∷ 114 ∷ 118 ∷ 101 ∷ 114 ∷ 64 ∷ 114 ∷ 101 ∷ 103 ∷ 105
    ∷ 115 ∷ 116 ∷ 114 ∷ 121 ∷ []

-- What the code calls: `decode` is json.Unmarshal of the metadata of an instance, none at metadata
-- that is no text or no JSON; `bytes_of` gives the bytes of a text; `build` is the picker of the
-- provider, and `pick` what it picks.
pub record Library (M P : Type 0) : Type 0 where
  pub decode : M → Option RegistryMeta
  pub bytes_of : String → Bytes
  pub build : List AddressInfo → P
  pub pick : P → Option AddressInfo

pub record Services (M P : Type 0) : Type 0 where
  pub grpc_entries : GoMap P
  pub grpc_services : GoMap (List (Instance M))
  pub http_matcher_update_flag : Bool

pub data PickResult : Type 0 where
  picked : AddressInfo → PickResult
  no_registry_entry pick_failed : PickResult

module _ {M : Type 0} where
  -- A missing key of a Go map of slices is the empty slice.
  abbrev pub or_empty : Option (List (Instance M)) → List (Instance M)
  or_empty none = []
  or_empty (some is) = is

  unfoldable pub contains_addr : String → List (Instance M) → Bool
  contains_addr a [] = false
  contains_addr a (i ∷ is) =
      let later = contains_addr a is in ite (text_discrete i.addr a) true later

  -- The instances whose address is not among those to delete.
  unfoldable pub not_deleted : List (Instance M) → List (Instance M) → List (Instance M)
  not_deleted [] deleted = []
  not_deleted (i ∷ is) deleted =
      let rest = not_deleted is deleted in if contains_addr i.addr deleted then rest else i ∷ rest

module _ {M P : Type 0} (lib : Library M P) where
  unfoldable pub unmarshal_registry_meta : M → Option RegistryMeta
  unmarshal_registry_meta m = elim (lib.decode m) [
    | none ↦ none
    | some meta ↦ some (if meta.version == 0 then record meta { version = 1 } else meta)
  ]

  unfoldable pub has_registry_prefix : String → Bool
  has_registry_prefix service_name = has_prefix (lib.bytes_of service_name) registry_prefix

  unfoldable pub is_http : String → RegistryMeta → Bool
  is_http service_name meta =
      (ltb meta.version 2 && has_registry_prefix service_name)
      || (leb 2 meta.version && (meta.kind == registry_type_http))

  -- The loop over the instances of a service.
  unfoldable pub grpc_addrs : String → List (Instance M) → List AddressInfo
  grpc_addrs service_name [] = []
  grpc_addrs service_name (i ∷ is) =
      let rest = grpc_addrs service_name is in
      elim (unmarshal_registry_meta i.meta) [
        | none ↦ record { addr = i.addr; tls = false } ∷ rest
        | some meta ↦
            if is_http service_name meta
            then rest
            else record { addr = i.addr; tls = meta.tls_server } ∷ rest
      ]

  unfoldable pub update_grpc_entries : String → List (Instance M) → Services M P → Services M P
  update_grpc_entries service_name instances s =
      if is_empty instances
      then s
      else let all = instances ++ or_empty (lookup service_name s.grpc_services) in
        record s {
          grpc_entries =
              insert service_name (lib.build (grpc_addrs service_name all)) s.grpc_entries;
          grpc_services = insert service_name all s.grpc_services;
        }

  unfoldable pub store_or_delete : String → List AddressInfo → GoMap P → GoMap P
  store_or_delete service_name addrs entries =
      if is_empty addrs
      then delete service_name entries
      else insert service_name (lib.build addrs) entries

  unfoldable pub delete_grpc_entries : String → List (Instance M) → Services M P → Services M P
  delete_grpc_entries service_name instances s =
      if is_empty instances
      then s
      else let rest = not_deleted (or_empty (lookup service_name s.grpc_services)) instances in
        record s {
          grpc_entries = store_or_delete service_name (grpc_addrs service_name rest) s.grpc_entries;
          grpc_services = insert service_name rest s.grpc_services;
        }

  -- `OnUpdate` and `OnDelete`, which the notifier of the registry calls.
  unfoldable pub receive_event : Event M → Services M P → Services M P
  receive_event (on_update service_name instances) s =
      update_grpc_entries service_name instances (record s { http_matcher_update_flag = true })
  receive_event (on_delete service_name instances) s =
      delete_grpc_entries service_name instances (record s { http_matcher_update_flag = true })

  unfoldable pub receive_all : List (Event M) → Services M P → Services M P
  receive_all [] s = s
  receive_all (e ∷ es) s = receive_all es (receive_event e s)

  -- The gRPC part of `initialize`, at the entries that the registry has.
  unfoldable pub initialize : List (Entry M) → Services M P → Services M P
  initialize [] s = s
  initialize (e ∷ es) s = initialize es (update_grpc_entries e.service_name e.instances s)

  unfoldable pub pick_with_info : Services M P → String → PickResult
  pick_with_info s service_name = elim (lookup service_name s.grpc_entries) [
    | none ↦ no_registry_entry
    | some p ↦ elim (lib.pick p) [ none ↦ pick_failed | some a ↦ picked a ]
  ]

abbrev pub new_services : {M P : Type 0} → Services M P
new_services = record { grpc_entries = []; grpc_services = []; http_matcher_update_flag = false }
