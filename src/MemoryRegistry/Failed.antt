-- ===== src/MemoryRegistry/Failed.antt =====
-- What a registration that fails leaves behind.
use go_framework.Base.{
  ℕ, false, List, [], ◌∷◌, ◌++◌, Option, none, some, String, GoMap, lookup, insert, length,
  get_elem?, ◌≡◌, ◌≢◌, refl, ap, ◌∙◌, arith, lookup-insert_self, lookup-insert_ne, if_neg,
  text_discrete,
}
use go_framework.MemoryRegistry.{
  ServiceInfo, RegisterOptions, ServiceWrapper, MemoryRegistry, RegisterError, duplicate,
  method_not_found, query_failed, store_name, store_aliases, store_names, empty_wrapper,
  register_stored, register_with_service_info, query_service_info, query_in, query_unary, store_own,
  store_then_aliases,
}

get_elem?-append_last :
    {A : Type 0} (xs : List A) (x : A) → get_elem? (xs ++ x ∷ []) (length xs) ≡ some x
get_elem?-append_last [] x = refl
get_elem?-append_last (y ∷ ys) x = get_elem?-append_last ys x

distinct_keys :
    (m : GoMap ℕ) (k j : String) (r : ℕ) → lookup k m ≡ none → lookup j m ≡ some r → k ≢ j
distinct_keys m k j r e f p = ground arith

module _ (name : String) (ref : ℕ) (m : GoMap ℕ) where
  pub store_name_new : lookup name m ≡ none → store_name name ref m ≡ (insert name ref m, none)
  unfolding store_name
  store_name_new h = rw (h, store_name) refl

  pub store_name_old :
      (old : ℕ) → lookup name m ≡ some old → store_name name ref m ≡ (m, some (duplicate name))
  unfolding store_name
  store_name_old old h = rw (h, store_name) refl

store_aliases_taken :
    (trim_space : String → String) (service a : String) (rest : List String) (ref old : ℕ)
    (m : GoMap ℕ)
    → lookup a m ≡ some old
    → trim_space a ≢ service
    → store_aliases trim_space service ref (a ∷ rest) m ≡ (m, some (duplicate a))
unfolding store_aliases
store_aliases_taken trim_space service a rest ref old m h n =
    if_neg (text_discrete (trim_space a) service) n _ _ ∙ taken (lookup a m) h
  where
    taken :
        (o : Option ℕ)
        → o ≡ some old
        → elim o [
          | none ↦ store_aliases trim_space service ref rest (insert a ref m)
          | some r ↦ (m, some (duplicate a))
        ]
          ≡ (m, some (duplicate a))
    taken none e = cc
    taken (some r) e = refl

module _ {U S : Type 0} (name : String) (ref : ℕ) (w : ServiceWrapper U S)
    (r : MemoryRegistry U S) where
  pub query_service_info_at :
      lookup name r.srv_registry_info ≡ some ref
      → get_elem? r.wrappers ref ≡ some w
      → query_service_info name r ≡ some w
  unfolding query_service_info
  query_service_info_at h k = rw (h, query_service_info) k

module _ {D E U S : Type 0} (trim_space : String → String) (create_unary : String → D → Option U)
    (create_streaming : String → E → Option S) (info : ServiceInfo D E)
    (r : MemoryRegistry U S) where
  abbrev register : RegisterOptions → MemoryRegistry U S → MemoryRegistry U S × Option RegisterError
  register = register_with_service_info trim_space create_unary create_streaming info

  store_names_taken :
      (a : String) (rest : List String) (ref old : ℕ) (m : GoMap ℕ)
      → lookup info.service_name m ≡ none
      → lookup a m ≡ some old
      → trim_space a ≢ info.service_name
      → store_names trim_space info.service_name
          (record { alias_names = a ∷ rest; alias_only = false })
          ref
          m
        ≡ (insert info.service_name ref m, some (duplicate a))
  unfolding store_names store_own
  store_names_taken a rest ref old m h k n =
      ap (store_then_aliases trim_space info.service_name ref (a ∷ rest))
        (store_name_new info.service_name ref m h)
      ∙ unfold store_then_aliases in
        store_aliases_taken trim_space info.service_name a rest ref old
          (insert info.service_name ref m)
          (lookup-insert_ne info.service_name a ref m (distinct_keys m _ a old h k) ∙ k) n

  register_again :
      (s : MemoryRegistry U S) (old : ℕ) (names : List String)
      → lookup info.service_name s.srv_registry_info ≡ some old
      → (register (record { alias_names = names; alias_only = false }) s).1
        ≡ some (duplicate info.service_name)
  unfolding register_with_service_info register_stored store_names store_own store_then_aliases
  register_again s old names h =
      ap
        (λ o.
          (register_stored trim_space create_unary create_streaming info s
            (store_then_aliases trim_space info.service_name (length s.wrappers) names o)).1)
        (store_name_old info.service_name (length s.wrappers) s.srv_registry_info old h)

  -- A registration under its own name, which is free, whose first alias is taken and is not spelled like
  -- that name but for spaces, fails, and yet it stores the name: no method is found there, and a next
  -- registration under the name fails as well, whatever its aliases are.
  pub register_taken_alias :
      (a : String) (rest names : List String) (old : ℕ) (method : String)
      → lookup info.service_name r.srv_registry_info ≡ none
      → lookup a r.srv_registry_info ≡ some old
      → trim_space a ≢ info.service_name
      → let (s, e) = register (record { alias_names = a ∷ rest; alias_only = false }) r in
        (e ≡ some (duplicate a))
        × (query_unary info.service_name method s ≡ query_failed method_not_found)
        × ((register (record { alias_names = names; alias_only = false }) s).1
            ≡ some (duplicate info.service_name))
  unfolding register_with_service_info register_stored query_unary lookup
  register_taken_alias a rest names old method h k n =
      rw (store_names_taken a rest (length r.wrappers) old r.srv_registry_info h k n) (
        refl,
        ap (query_in (λ w. w.unary) method) (
            query_service_info_at info.service_name (length r.wrappers)
              (empty_wrapper info.service_name) _
              (lookup-insert_self info.service_name (length r.wrappers) r.srv_registry_info)
              (get_elem?-append_last r.wrappers (empty_wrapper info.service_name))),
        register_again _ (length r.wrappers) names
            (lookup-insert_self info.service_name (length r.wrappers) r.srv_registry_info),
      )
