-- ===== src/Balancer/Stale.antt =====
-- The registry in memory, its watcher and the balancer together.
use go_framework.Base.{
  String, Bool, true, false, List, [], ◌∷◌, ◌++◌, none, ◌≡◌, ap, ◌∙◌, ◌≢◌, arith, is_some,
  lookup-insert_self,
}
use go_framework.Registry.{on_update, on_delete}
use go_framework.Registry.Memory.{Entries, has_instance, register_service}
use go_framework.Registry.Memory.Diff.{instance_of}
use go_framework.Registry.Memory.Contents.{has_instance-instance_of, unregister_service-instance_of}
use go_framework.Registry.Watcher.Tracks.{
  Call, registers, unregisters, run, call, unregister_service_known,
}
use go_framework.Registry.Watcher.Follow.{all_passed_on}
use go_framework.Balancer.{Address, AddressInfo, exists_in, apply_updates}
use go_framework.Balancer.Addresses.{AreDistinct, apply_updates-exists_in, held_after}

module _ {M : Type 0} (eq : Discrete (Address M)) where
  abbrev pub at : String → M → Address M
  at a x = record { addr = a; metadata = x }

  abbrev pub history : String → String → M → M → List (Call M)
  history name addr old new =
      registers name addr old ∷ registers name addr new ∷ unregisters name addr ∷ []

  -- What the registry reports for such a history.
  history-events :
      (s : Entries M) (name addr : String) (old new : M)
      → addr ≢ ""
      → (run s (history name addr old new)).1
        ≡ on_update name (record { addr = addr; meta = old } ∷ [])
          ∷ on_update name (record { addr = addr; meta = new } ∷ [])
          ∷ on_delete name (record { addr = addr; meta = new } ∷ [])
          ∷ []
  unfolding run call register_service
  history-events s name addr old new h =
      ap
        (λ l.
          on_update name (record { addr = addr; meta = old } ∷ [])
          ∷ on_update name (record { addr = addr; meta = new } ∷ [])
          ∷ (l ++ []))
        (unregister_service_known _ name addr _ new (lookup-insert_self name _ _)
          (lookup-insert_self addr new _) h)

  history-instance_of :
      (s : Entries M) (name addr : String) (old new : M)
      → instance_of (run s (history name addr old new)).0 name addr ≡ none
  unfolding run call
  history-instance_of s name addr old new = ground (
    arith,
    unregister_service-instance_of
        (register_service (register_service s name addr old).0 name addr new).0 name addr name addr,
  )

  history-updates :
      (name addr : String) (old new : M) (held : Bool)
      → at addr old ≢ at addr new
      → held_after eq
          (at addr old)
          (all_passed_on name (
            on_update name (record { addr = addr; meta = old } ∷ [])
            ∷ on_update name (record { addr = addr; meta = new } ∷ [])
            ∷ on_delete name (record { addr = addr; meta = new } ∷ [])
            ∷ []))
          held
        ≡ true
  history-updates name addr old new held h = ground arith

  -- An instance registered with one metadata, then with another, then unregistered, is gone from the
  -- registry, but the balancer that reads the updates keeps the address with the first metadata.
  pub stale_address :
      (s : Entries M) (name addr : String) (old new : M) (vs : List (AddressInfo M))
      → addr ≢ ""
      → at addr old ≢ at addr new
      → AreDistinct eq vs
      → let (s', events) = run s (history name addr old new) in
        (has_instance s' name addr ≡ false)
        × (exists_in eq (at addr old) (apply_updates eq (all_passed_on name events) vs) ≡ true)
  stale_address s name addr old new vs h ne d = (
    has_instance-instance_of (run s (history name addr old new)).0 name addr
        ∙ ap is_some (history-instance_of s name addr old new),
    apply_updates-exists_in eq (all_passed_on name (run s (history name addr old new)).1)
          (at addr old) vs d
        ∙ ap
            (λ es.
              held_after eq (at addr old) (all_passed_on name es) (exists_in eq (at addr old) vs))
            (history-events s name addr old new h)
        ∙ history-updates name addr old new _ ne,
  )
