-- ===== src/Registry/Watcher/Tracks.antt =====
-- What one call of the registry tells a client that applies the watcher's updates.
use mathlib.Core.List.{append_assoc}
use go_framework.Base.{
  String, true, false, List, [], ◌∷◌, ◌++◌, Option, none, some, is_some, ◌≡◌, refl, sym, ap, ◌∙◌,
  ◌≢◌, inl, inr, arith, if◌then◌else◌, GoMap, lookup, insert, text_discrete, ite,
  delete as map_delete, if_neg, lookup-insert, lookup-insert_self, HasDistinctKeys,
  insert-HasDistinctKeys, Bool-cases, Option-cases,
}
use go_framework.Registry.{Instance, Event, on_delete}
use go_framework.Registry.Memory.{
  Entries, process_service, process_entries, notify_all, to_instances, add_entries, add_entry,
  diff_events, register_service_with_entries, register_service, unregister_service,
  service_instances,
}
use go_framework.Registry.Memory.Diff.{
  has_addr, has_addr-to_instances, instance_of, process_service-diff, process_service-instance_of,
  is_some-last_meta, last_meta,
}
use go_framework.Registry.Memory.Contents.{
  listed, register_service-instance_of, unregister_service-instance_of,
  register_service_with_entries-instance_of,
}
use go_framework.Registry.Watcher.Follow.{
  passed_on, all_passed_on, follow, present, after_diff, follow-all_passed_on, follow-notify_all,
}

-- No name is given twice.
abbrev pub AreDistinct : List String → Type 0
AreDistinct [] = Unit
AreDistinct (x ∷ xs) = (listed x xs ≡ false) × AreDistinct xs

module _ {M : Type 0} where
  process_entries_keys :
      (s : Entries M) (names : List String) (es : List (Instance M))
      (nm : GoMap (List (Instance M) × List (Instance M)))
      → HasDistinctKeys nm
      → HasDistinctKeys (process_entries s names es nm).1
  unfolding process_entries
  process_entries_keys s [] es nm h = h
  process_entries_keys s (x ∷ xs) es nm h =
      process_entries_keys (process_service s x es).0 xs es _
        (insert-HasDistinctKeys x (process_service s x es).1 nm h)

  -- A service that is not named gets no entry.
  process_entries_skip :
      (s : Entries M) (names : List String) (es : List (Instance M))
      (nm : GoMap (List (Instance M) × List (Instance M))) (target : String)
      → listed target names ≡ false
      → lookup target (process_entries s names es nm).1 ≡ lookup target nm
  unfolding process_entries
  process_entries_skip s [] es nm target h = refl
  process_entries_skip s (x ∷ xs) es nm target h = ground (
    arith,
    process_entries_skip (process_service s x es).0 xs es (insert x (process_service s x es).1 nm)
        target,
    lookup-insert x target (process_service s x es).1 nm,
  )

  -- The diff of a named service leads from its addresses before to those after.
  process_entries-after_diff :
      (s : Entries M) (names : List String) (es : List (Instance M))
      (nm : GoMap (List (Instance M) × List (Instance M))) (target a : String)
      → AreDistinct names
      → listed target names ≡ true
      → after_diff a (present s target a) (lookup target (process_entries s names es nm).1)
        ≡ has_addr a es
  unfolding process_entries
  process_entries-after_diff s [] es nm target a d h = cc
  process_entries-after_diff s (x ∷ xs) es nm target a d h = elim (text_discrete x target) [
    | yes p ↦
        ap (after_diff a (present s target a)) {y = some (process_service s x es).1} (
          process_entries_skip (process_service s x es).0 xs es
            (insert x (process_service s x es).1 nm) target (rw p at (d.0))
          ∙ ground (arith, lookup-insert x target (process_service s x es).1 nm))
        ∙ ap (λ n. after_diff a (present s n a) (some (process_service s x es).1)) (sym p)
        ∙ process_service-diff s x a es
    | no p ↦
        ap
          (λ (o : Option M).
            after_diff a (is_some o) (lookup target (process_entries s (x ∷ xs) es nm).1))
          (sym
            (process_service-instance_of s x target a es ∙ if_neg (text_discrete x target) p _ _))
        ∙ process_entries-after_diff (process_service s x es).0 xs es
            (insert x (process_service s x es).1 nm) target a d.1 (ground arith)
  ]

  register_service_with_entries-follow :
      (s : Entries M) (names : List String) (es : List (Instance M)) (target a : String)
      → AreDistinct names
      → let (s', events) = register_service_with_entries s names es in
        follow a (all_passed_on target events) (present s target a) ≡ present s' target a
  unfolding register_service_with_entries lookup
  register_service_with_entries-follow s names es target a d =
      follow-notify_all a target (process_entries s names es []).1 (present s target a)
        (process_entries_keys s names es [] tt)
      ∙ elim (Bool-cases (listed target names)) [
        | inl e ↦
            process_entries-after_diff s names es [] target a d e
            ∙ sym (is_some-last_meta a es)
            ∙ sym (ap is_some (after ∙ rw e))
        | inr e ↦
            ap (after_diff a (present s target a)) {y = none}
              (process_entries_skip s names es [] target e)
            ∙ sym (ap is_some (after ∙ rw e))
      ]
    where
      after :
          instance_of (process_entries s names es []).0 target a
          ≡ (if listed target names then last_meta a es else instance_of s target a)
      after = register_service_with_entries-instance_of s names es target a

  register_service-follow :
      (s : Entries M) (name addr : String) (meta : M) (target a : String)
      → let (s', events) = register_service s name addr meta in
        follow a (all_passed_on target events) (present s target a) ≡ present s' target a
  unfolding register_service
  register_service-follow s name addr meta target a =
      ground (arith, register_service-instance_of s name addr meta target a)

  -- What a removal reports as gone, where the service is known.
  dels_of : GoMap M → String → List (Instance M)
  dels_of m addr =
      ite (text_discrete addr "") (to_instances m)
        (elim (lookup addr m) [ none ↦ [] | some x ↦ record { addr = addr; meta = x } ∷ [] ])

  has_addr-dels_of :
      (m : GoMap M) (addr a : String)
      → has_addr a (dels_of m addr)
        ≡ ite
            (text_discrete addr "")
            (is_some (lookup a m))
            (ite (text_discrete addr a) (is_some (lookup a m)) false)
  unfolding dels_of
  has_addr-dels_of m addr a = ground (arith, has_addr-to_instances a m)

  unregister_service-events :
      (s : Entries M) (name addr : String) (m : GoMap M)
      → lookup name s ≡ some m
      → (unregister_service s name addr).1 ≡ on_delete name (dels_of m addr) ∷ []
  unfolding unregister_service dels_of
  unregister_service-events s name addr m e = rw (e, unregister_service) (ground arith)

  -- A known instance that is removed by its address is reported with its metadata.
  pub unregister_service_known :
      (s : Entries M) (name addr : String) (m : GoMap M) (x : M)
      → lookup name s ≡ some m
      → lookup addr m ≡ some x
      → addr ≢ ""
      → (unregister_service s name addr).1
        ≡ on_delete name (record { addr = addr; meta = x } ∷ []) ∷ []
  unfolding dels_of
  unregister_service_known s name addr m x e f h =
      unregister_service-events s name addr m e ∙ ground arith

  unregister_service-follow :
      (s : Entries M) (name addr target a : String)
      → let (s', events) = unregister_service s name addr in
        follow a (all_passed_on target events) (present s target a) ≡ present s' target a
  unfolding unregister_service
  unregister_service-follow s name addr target a = elim (Option-cases (lookup name s)) [
    | inl e ↦ rw (e, unregister_service) (ground arith)
    | inr (m, e) ↦
        ap (λ es. follow a (all_passed_on target es) (present s target a))
          (unregister_service-events s name addr m e)
        ∙ follow-all_passed_on a target (on_delete name (dels_of m addr)) [] (present s target a)
        ∙ ground (
          arith,
          e,
          unregister_service-instance_of s name addr target a,
          has_addr-dels_of m addr a,
        )
  ]

-- The calls that change the registry.
pub data Call (M : Type 0) : Type 0 where
  registers : String → String → M → Call M
  registers_all : List String → List (Instance M) → Call M
  unregisters : String → String → Call M

module _ {M : Type 0} where
  unfoldable pub call : Entries M → Call M → Entries M × List (Event M)
  call s (registers name addr meta) = register_service s name addr meta
  call s (registers_all names es) = register_service_with_entries s names es
  call s (unregisters name addr) = unregister_service s name addr

  unfoldable pub run : Entries M → List (Call M) → Entries M × List (Event M)
  run s [] = (s, [])
  run s (c ∷ cs) =
      let (s', events) = call s c in let (s'', later) = run s' cs in (s'', events ++ later)

  -- No call names a service twice.
  abbrev pub NamesOnce : Call M → Type 0
  NamesOnce (registers_all names es) = AreDistinct names
  NamesOnce _ = Unit

  pub call-follow :
      (s : Entries M) (c : Call M) (target a : String)
      → NamesOnce c
      → follow a (all_passed_on target (call s c).1) (present s target a)
        ≡ present (call s c).0 target a
  unfolding call
  call-follow s (registers name addr meta) target a h =
      register_service-follow s name addr meta target a
  call-follow s (registers_all names es) target a h =
      register_service_with_entries-follow s names es target a h
  call-follow s (unregisters name addr) target a h = unregister_service-follow s name addr target a

  pub all_passed_on-append :
      (target : String) (xs ys : List (Event M))
      → all_passed_on target (xs ++ ys) ≡ all_passed_on target xs ++ all_passed_on target ys
  all_passed_on-append target [] ys = refl
  all_passed_on-append target (x ∷ xs) ys =
      ap (◌++◌ (passed_on target x)) (all_passed_on-append target xs ys)
      ∙ sym (append_assoc (passed_on target x) (all_passed_on target xs) (all_passed_on target ys))

  pub has_addr-service_instances :
      (s : Entries M) (target a : String)
      → has_addr a (service_instances s target) ≡ present s target a
  unfolding service_instances lookup
  has_addr-service_instances s target a = elim (Option-cases (lookup target s)) [
    | inl e ↦ rw (e, service_instances) refl
    | inr (m, e) ↦ rw (e, service_instances) (has_addr-to_instances a m)
  ]

  process_service_new :
      (s : Entries M) (name : String) (e : Instance M)
      → lookup name s ≡ none
      → process_service s name (e ∷ []) ≡ (insert name ((e.addr, e.meta) ∷ []) s, (e ∷ [], []))
  unfolding process_service add_entries add_entry insert
  process_service_new s name e h = ground arith

  process_service_same :
      (s : Entries M) (name : String) (e : Instance M)
      → lookup name s ≡ some ((e.addr, e.meta) ∷ [])
      → (process_service s name (e ∷ [])).1 ≡ ([], [])
  unfolding process_service add_entries add_entry lookup map_delete
  process_service_same s name e h = rw (h, add_entry) (ground arith)

  notify_one :
      (name : String) (d : List (Instance M) × List (Instance M))
      → notify_all (insert name ([], []) (insert name d [])) ≡ []
  unfolding notify_all diff_events insert
  notify_one name d = ground arith

  -- A service that is named twice and was unknown gets its instance, and no watcher is told.
  pub register_all_twice :
      (s : Entries M) (name : String) (e : Instance M)
      → lookup name s ≡ none
      → let (s', events) = register_service_with_entries s (name ∷ name ∷ []) (e ∷ []) in
        (instance_of s' name e.addr ≡ some e.meta) × (events ≡ [])
  unfolding register_service_with_entries process_entries
  register_all_twice s name e h = (
    ground (
      arith,
      register_service_with_entries-instance_of s (name ∷ name ∷ []) (e ∷ []) name e.addr,
    ),
    rw
        (
          process_service_new s name e h,
          process_service_same (insert name ((e.addr, e.meta) ∷ []) s) name e
              (lookup-insert_self name _ s),
        )
        (notify_one name (e ∷ [], [])),
  )
