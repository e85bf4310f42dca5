-- ===== src/MemoryRegistry/Names.antt =====
-- The names of a registration that succeeds, and what is left when it is taken back.
use go_framework.Base.{
  ℕ, false, List, [], ◌∷◌, Option, none, some, String, GoMap, lookup, insert, delete, length, ◌≡◌,
  ◌≢◌, refl, sym, ap, ◌∙◌, arith, lookup-insert, lookup-insert_ne, lookup-delete,
  lookup-delete_self, if_neg, text_discrete, ite, All, In, inl, inr,
}
use go_framework.MemoryRegistry.Failed.{store_name_new, store_name_old}
use go_framework.MemoryRegistry.{
  ServiceInfo, MemoryRegistry, RegisterError, duplicate, store_aliases, store_names, store_name,
  store_own, store_then_aliases, register_stored, register_with_service_info, delete_names,
  unregister_with_service_info,
}

-- What the loop over the aliases does for a name.
abbrev Stored : ℕ → String → List String → GoMap ℕ → GoMap ℕ → Type 0
Stored ref n names m m' =
    (In n names → lookup n m ≡ none)
    × (In n names → lookup n m' ≡ some ref)
    × ((In n names → ⊥) → lookup n m' ≡ lookup n m)

module _ (n a : String) (ref : ℕ) (m : GoMap ℕ) where
  fresh_before : lookup n (insert a ref m) ≡ none → lookup n m ≡ none
  fresh_before h = ground (arith, lookup-insert a n ref m)

  stored_here : a ≡ n → lookup n (insert a ref m) ≡ some ref
  stored_here h = ground (arith, lookup-insert a n ref m)

failed_ne :
    {m m' : GoMap ℕ} {e : RegisterError}
    → ◌≡◌ {A = GoMap ℕ × Option RegisterError} (m, some e) (m', none)
    → ⊥
failed_ne h = cc

some-ne-none : {r : ℕ} → some r ≡ none → ⊥
some-ne-none h = cc

pub In-dec : (n : String) (names : List String) → Dec (In n names)
In-dec n [] = no (λ h. h)
In-dec n (a ∷ rest) = elim (text_discrete a n) [
  | yes p ↦ yes (inl p)
  | no q ↦ elim (In-dec n rest) [
    | yes i ↦ yes (inr i)
    | no j ↦ no (λ k. elim k [ inl p ↦ q p | inr i ↦ j i ])
  ]
]

module _ (n a : String) (m : GoMap ℕ) where
  delete_other : a ≢ n → lookup n (delete a m) ≡ lookup n m
  delete_other h = ground (arith, lookup-delete a n m)

  delete_absent : lookup n m ≡ none → lookup n (delete a m) ≡ none
  delete_absent h = ground (arith, lookup-delete a n m)

delete_names_absent :
    (n : String) (names : List String) (m : GoMap ℕ)
    → lookup n m ≡ none
    → lookup n (delete_names names m) ≡ none
unfolding delete_names
delete_names_absent n [] m h = h
delete_names_absent n (a ∷ rest) m h =
    delete_names_absent n rest (delete a m) (delete_absent n a m h)

delete_names-In :
    (n : String) (names : List String) (m : GoMap ℕ)
    → In n names
    → lookup n (delete_names names m) ≡ none
unfolding delete_names
delete_names-In n [] m h = absurd h
delete_names-In n (a ∷ rest) m (inl p) =
    delete_names_absent n rest (delete a m)
      (ap (λ x. lookup x (delete a m)) (sym p) ∙ lookup-delete_self a m)
delete_names-In n (a ∷ rest) m (inr i) = delete_names-In n rest (delete a m) i

delete_names_other :
    (n : String) (names : List String) (m : GoMap ℕ)
    → (In n names → ⊥)
    → lookup n (delete_names names m) ≡ lookup n m
unfolding delete_names
delete_names_other n [] m h = refl
delete_names_other n (a ∷ rest) m h =
    delete_names_other n rest (delete a m) (λ i. h (inr i)) ∙ delete_other n a m (λ p. h (inl p))

Stored-first :
    (ref : ℕ) (n a : String) (rest : List String) (m m' : GoMap ℕ)
    → lookup a m ≡ none
    → Stored ref n rest (insert a ref m) m'
    → Stored ref n (a ∷ rest) m m'
Stored-first ref n a rest m m' f s = (
  (λ i. elim i [
    | inl p ↦ ap (λ x. lookup x m) (sym p) ∙ f
    | inr j ↦ fresh_before n a ref m (s.0 j)
  ]),
  (λ i. elim i [
    | inl p ↦ let w = stored_here n a ref m p in s.2 (λ j. some-ne-none (sym w ∙ s.0 j)) ∙ w
    | inr j ↦ s.1 j
  ]),
  λ i. s.2 (λ j. i (inr j)) ∙ lookup-insert_ne a n ref m (λ p. i (inl p)),
)

module _ (trim_space : String → String) (service : String) (ref : ℕ) (n : String) where
  store_aliases-Stored :
      (names : List String) (m m' : GoMap ℕ)
      → All (λ a. trim_space a ≢ service) names
      → store_aliases trim_space service ref names m ≡ (m', none)
      → Stored ref n names m m'
  unfolding store_aliases
  store_aliases-Stored [] m m' h e =
      ((λ i. absurd i), (λ i. absurd i), λ i. ap (λ p. lookup n p.0) (sym e))
  store_aliases-Stored (a ∷ rest) m m' h e =
      stored (lookup a m) refl (sym (if_neg (text_discrete (trim_space a) service) h.0 _ _) ∙ e)
        (store_aliases-Stored rest (insert a ref m) m' h.1)
    where
      stored :
          (o : Option ℕ)
          → lookup a m ≡ o
          → elim o [
            | none ↦ store_aliases trim_space service ref rest (insert a ref m)
            | some r ↦ (m, some (duplicate a))
          ]
            ≡ (m', none)
          → (store_aliases trim_space service ref rest (insert a ref m) ≡ (m', none)
              → Stored ref n rest (insert a ref m) m')
          → Stored ref n (a ∷ rest) m m'
      stored (some r) f g ih = absurd (cc)
      stored none f g ih = Stored-first ref n a rest m m' f (ih g)

  store_names-Stored :
      (names : List String) (m m' : GoMap ℕ)
      → All (λ a. trim_space a ≢ service) names
      → store_names trim_space service (record { alias_names = names; alias_only = false }) ref m
        ≡ (m', none)
      → Stored ref n (service ∷ names) m m'
  unfolding store_names store_own store_then_aliases
  store_names-Stored names m m' h e = stored (lookup service m) refl e
    where
      stored :
          (o : Option ℕ)
          → lookup service m ≡ o
          → store_then_aliases trim_space service ref names (store_name service ref m) ≡ (m', none)
          → Stored ref n (service ∷ names) m m'
      stored (some r) f g = absurd (
          failed_ne (
            sym (
              ap (store_then_aliases trim_space service ref names)
                (store_name_old service ref m r f))
            ∙ g))
      stored none f g = Stored-first ref n service names m m' f (
          store_aliases-Stored names (insert service ref m) m' h (
            sym (
              ap (store_then_aliases trim_space service ref names) (store_name_new service ref m f))
            ∙ g))

module _ {D E U S : Type 0} (trim_space : String → String) (create_unary : String → D → Option U)
    (create_streaming : String → E → Option S) (info : ServiceInfo D E) where
  register_stored_names :
      (r : MemoryRegistry U S) (o : GoMap ℕ × Option RegisterError)
      → (register_stored trim_space create_unary create_streaming info r o).1 ≡ none
      → (o.1 ≡ none)
        × ((register_stored trim_space create_unary create_streaming info r o).0.srv_registry_info
            ≡ o.0)
  unfolding register_stored
  register_stored_names r (m, some e) h = absurd (cc)
  register_stored_names r (m, none) h = (refl, refl)

  -- A registration under the service's name that succeeds, where no alias is spelled like that name
  -- but for spaces, makes every name of it hold the new wrapper and changes no other name; and taking
  -- it back with the same aliases leaves every name as it was.
  pub unregister-register :
      (names : List String) (r : MemoryRegistry U S) (n : String)
      → All (λ a. trim_space a ≢ info.service_name) names
      → (register_with_service_info trim_space create_unary create_streaming info
          (record { alias_names = names; alias_only = false })
          r).1
        ≡ none
      → let s =
          (register_with_service_info trim_space create_unary create_streaming info
            (record { alias_names = names; alias_only = false })
            r).0 in
        (lookup n s.srv_registry_info
          ≡ ite
              (In-dec n (info.service_name ∷ names))
              (some (length r.wrappers))
              (lookup n r.srv_registry_info))
        × (lookup n (unregister_with_service_info info.service_name names s).srv_registry_info
            ≡ lookup n r.srv_registry_info)
  unfolding register_with_service_info unregister_with_service_info delete_names
  unregister-register names r n h e =
      let ref = length r.wrappers in
      let o =
        store_names trim_space info.service_name
          (record { alias_names = names; alias_only = false }) ref r.srv_registry_info in
      let (p, q) = register_stored_names r o e in
      let st =
        store_names-Stored trim_space info.service_name ref n names r.srv_registry_info o.0 h
          (ap (λ x. (o.0, x)) p) in
      let s = (register_stored trim_space create_unary create_streaming info r o).0 in
      (
        ap (lookup n) q
            ∙ elim (In-dec n (info.service_name ∷ names))
                as (λ d. lookup n o.0 ≡ ite d (some ref) (lookup n r.srv_registry_info)) [
                  | yes i ↦ st.1 i
                  | no i ↦ st.2 i
                ],
        ap (λ m. lookup n (delete_names (info.service_name ∷ names) m)) q
            ∙ elim (In-dec n (info.service_name ∷ names)) [
              | yes i ↦ delete_names-In n (info.service_name ∷ names) o.0 i ∙ sym (st.0 i)
              | no i ↦ delete_names_other n (info.service_name ∷ names) o.0 i ∙ st.2 i
            ],
      )
