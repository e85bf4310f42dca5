-- ===== src/Registry/Gap.antt =====
-- A call that is made between the client's read and its watch.
use go_framework.Base.{String, false, true, List, [], ◌∷◌, some, ◌≡◌, refl, sym, ◌∙◌, arith}
use go_framework.Registry.Memory.{Entries, service_instances, has_instance, register_service}
use go_framework.Registry.Memory.Contents.{has_instance-instance_of, register_service-instance_of}
use go_framework.Registry.Watcher.{add, to_updates}
use go_framework.Registry.Watcher.Follow.{follow, follow-add}
use go_framework.Registry.Watcher.Tracks.{registers, call, has_addr-service_instances}
use go_framework.Registry.Concurrent.{
  watches, Shared, Action, begins, notifies, returns, reads, starts_watch, put_thread, drop_thread,
  pass, notify_next, end_thread, read_first, watch_first, act, acts, at_rest,
}

-- The client reads, an instance is registered and notified, and only then the client watches.
abbrev pub register_in_gap : {M : Type 0} → String → String → M → List (Action M)
register_in_gap target a x =
    reads ∷ begins (registers target a x) ∷ notifies 0 ∷ returns 0 ∷ starts_watch ∷ []

-- An instance at an address that the registry does not have, registered and notified between the read
-- of a client and its watch, is not told to it: in the end no call is under way, the client has been
-- given no notification, its first updates do not have the address, and HasInstance is true for it.
pub register_in_gap-has_instance :
    {M : Type 0} (s : Entries M) (target a : String) (x : M)
    → has_instance s target a ≡ false
    → let us = to_updates add (service_instances s target) in
      (m : Shared M) × (acts target (register_in_gap target a x) (at_rest s) ≡ some m)
      × (m.threads ≡ [])
      × (m.client ≡ watches us [])
      × (follow a us false ≡ false)
      × (has_instance m.entries target a ≡ true)
unfolding acts act call notify_next end_thread read_first watch_first put_thread drop_thread pass
    register_service
register_in_gap-has_instance s target a x h = (
  _,
  refl,
  refl,
  refl,
  follow-add a (service_instances s target) false
      ∙ has_addr-service_instances s target a
      ∙ sym (has_instance-instance_of s target a)
      ∙ h,
  has_instance-instance_of (register_service s target a x).0 target a
      ∙ ground (arith, register_service-instance_of s target a x target a),
)
