-- ===== src/Config/Views.antt =====
-- config/internal/view.go and value.go: the views of a configuration, each kept under its id, and the
-- typed accessors. A text is its bytes; ToLower, md5.Sum and the parsers of the standard library are
-- parameters. A mutex makes each request one step.
mod Tests
use go_framework.Base.{
  ℕ, Bytes, same_bytes, same_bytes_refl, Bool, true, false, List, [], ◌∷◌, ◌++◌, map, Option, none,
  some, if◌then◌else◌, is_empty, ◌≡◌, refl, ap, ◌∙◌, arith, ◌||◌, Option-cases, inl, inr, sym,
}
use go_framework.Http.Components.{split}

-- A view, by what it was made from: its filter reads the source with them. `password` has the digests.
pub record View : Type 0 where
  pub prefix : Bytes
  pub ns : List Bytes
  pub password : List Bytes

-- What a view has, and the views that it made, with the namespaces that it has announced to the source.
pub record ViewState : Type 0 where
  pub view : View
  pub view_cache : List (Bytes × View)
  pub appended : List (List Bytes)

-- strings.Join with "|".
unfoldable pub join_ns : List Bytes → Bytes
join_ns [] = []
join_ns (n ∷ []) = n
join_ns (n ∷ m ∷ ns) = n ++ (124 ∷ join_ns (m ∷ ns))

unfoldable pub cached_view : Bytes → List (Bytes × View) → Option View
cached_view id [] = none
cached_view id ((k, v) ∷ cache) = if same_bytes k id then some v else cached_view id cache

abbrev pub append_ns : List Bytes → List (List Bytes) → List (List Bytes)
append_ns [] done = done
append_ns (n ∷ ns) done = done ++ (n ∷ ns) ∷ []

-- `encode` is hex.EncodeToString.
module _ (encode lower md5_sum : Bytes → Bytes) where
  unfoldable pub write_passwords : List Bytes → Bytes
  write_passwords [] = []
  write_passwords (p ∷ ps) = encode p ++ write_passwords ps

  unfoldable pub view_id : View → Bytes
  view_id v = v.prefix ++ (58 ∷ join_ns v.ns ++ write_passwords v.password)

  -- `NewConfigView`
  unfoldable pub new_config_view : View → ViewState
  new_config_view v =
      let ns = map lower v.ns in
      record { view = record v { ns = ns }; view_cache = []; appended = append_ns ns [] }

  -- The cached view for what is asked, or a new one, before which `ns` goes to the source.
  unfoldable pub view_for : View → List Bytes → ViewState → ViewState × View
  view_for asked ns s = elim (cached_view (view_id asked) s.view_cache) [
    | some v ↦ (s, v)
    | none ↦
        let new = new_config_view asked in
        (
          record s {
            view_cache = (view_id asked, new.view) ∷ s.view_cache;
            appended = append_ns ns s.appended ++ new.appended;
          },
          new.view,
        )
  ]

  unfoldable pub with_namespace : List Bytes → ViewState → ViewState × View
  with_namespace ns s =
      let lower_ns = map lower ns in
      view_for (record (s.view) { ns = s.view.ns ++ lower_ns }) lower_ns s

  unfoldable pub with_prefix : Bytes → ViewState → ViewState × View
  with_prefix prefix s = view_for (record (s.view) { prefix = lower prefix }) [] s

  unfoldable pub digests : List Bytes → List Bytes
  digests [] = []
  digests (p ∷ ps) = let rest = digests ps in if is_empty p then rest else md5_sum p ∷ rest

  unfoldable pub with_password : List Bytes → ViewState → ViewState × View
  with_password ps s = view_for (record (s.view) { password = s.view.password ++ digests ps }) [] s

  -- What a view is asked for.
  pub data Request : Type 0 where
    namespaces : List Bytes → Request
    path_prefix : Bytes → Request
    passwords : List Bytes → Request

  unfoldable pub request : Request → ViewState → ViewState × View
  request (namespaces ns) s = with_namespace ns s
  request (path_prefix p) s = with_prefix p s
  request (passwords ps) s = with_password ps s

  cached_view_self :
      (id : Bytes) (v : View) (cache : List (Bytes × View))
      → cached_view id ((id, v) ∷ cache) ≡ some v
  unfolding cached_view
  cached_view_self id v cache = ground (arith, same_bytes_refl id)

  view_for-some :
      (asked : View) (ns : List Bytes) (s : ViewState) (v : View)
      → cached_view (view_id asked) s.view_cache ≡ some v
      → view_for asked ns s ≡ (s, v)
  unfolding view_for
  view_for-some asked ns s v e = rw (e, view_for) refl

  abbrev made_view : View → List Bytes → ViewState → ViewState
  made_view asked ns s = record s {
    view_cache = (view_id asked, (new_config_view asked).view) ∷ s.view_cache;
    appended = append_ns ns s.appended ++ (new_config_view asked).appended;
  }

  view_for-none :
      (asked : View) (ns : List Bytes) (s : ViewState)
      → cached_view (view_id asked) s.view_cache ≡ none
      → view_for asked ns s ≡ (made_view asked ns s, (new_config_view asked).view)
  unfolding view_for
  view_for-none asked ns s e = rw (e, view_for) refl

  view_for_again :
      (asked : View) (ns : List Bytes) (s : ViewState)
      → view_for asked ns (view_for asked ns s).0 ≡ view_for asked ns s
  view_for_again asked ns s = elim (Option-cases (cached_view (view_id asked) s.view_cache)) [
    | inl e ↦
        let p = view_for-none asked ns s e in
        ap (λ t. view_for asked ns t.0) p
        ∙ view_for-some asked ns (made_view asked ns s) (new_config_view asked).view
            (cached_view_self (view_id asked) (new_config_view asked).view s.view_cache)
        ∙ sym p
    | inr (v, e) ↦ ap (λ t. view_for asked ns t.0) (view_for-some asked ns s v e)
  ]

  view_for-view :
      (asked : View) (ns : List Bytes) (s : ViewState) → (view_for asked ns s).0.view ≡ s.view
  view_for-view asked ns s = elim (Option-cases (cached_view (view_id asked) s.view_cache)) [
    | inl e ↦ ap (λ t. t.0.view) (view_for-none asked ns s e)
    | inr (v, e) ↦ ap (λ t. t.0.view) (view_for-some asked ns s v e)
  ]

  -- A view that is asked for again is the one that was made, and nothing else changes: the cache and
  -- the namespaces of the source are as after the first request.
  pub request-again : (r : Request) (s : ViewState) → request r (request r s).0 ≡ request r s
  unfolding request with_namespace with_prefix with_password
  request-again (namespaces ns) s =
      let asked = λ (v : View). record v { ns = v.ns ++ map lower ns } in
      ap (λ v. view_for (asked v) (map lower ns) (view_for (asked s.view) (map lower ns) s).0)
        (view_for-view (asked s.view) (map lower ns) s)
      ∙ view_for_again (asked s.view) (map lower ns) s
  request-again (path_prefix p) s =
      let asked = λ (v : View). record v { prefix = lower p } in
      ap (λ v. view_for (asked v) [] (view_for (asked s.view) [] s).0)
        (view_for-view (asked s.view) [] s)
      ∙ view_for_again (asked s.view) [] s
  request-again (passwords ps) s =
      let asked = λ (v : View). record v { password = v.password ++ digests ps } in
      ap (λ v. view_for (asked v) [] (view_for (asked s.view) [] s).0)
        (view_for-view (asked s.view) [] s)
      ∙ view_for_again (asked s.view) [] s
