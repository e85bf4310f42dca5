-- ===== src/Registry/Tests.antt =====
-- The registry's theorems at concrete inputs, and runs of its operations.
use go_framework.Base.{
  true, ℕ, String, false, List, [], ◌∷◌, ◌++◌, none, some, ◌≡◌, refl, text_discrete, lookup, insert,
  delete,
}
use go_framework.Registry.{Instance, Event, on_update, on_delete}
use go_framework.Registry.Memory.{
  Entries, register_service_with_entries, register_service, unregister_service, drop_one, drop_all,
  has_instance, service_instances, process_entries, process_service, add_entries, add_entry,
}
use go_framework.Registry.Memory.Diff.{instance_of}
use go_framework.Registry.Memory.Contents.{
  register_service_with_entries-instance_of, unregister_service-instance_of,
}
use go_framework.Registry.Watcher.{Update, add, to_updates}
use go_framework.Registry.Watcher.Follow.{all_passed_on, follow}
use go_framework.Registry.Watcher.Tracks.{registers, unregisters, call}
use go_framework.Registry.Concurrent.{
  Shared, Action, watches, begins, notifies, returns, reads, starts_watch, put_thread, drop_thread,
  pass, notify_next, end_thread, read_first, watch_first, act, acts, at_rest,
}
use go_framework.Registry.Serial.{AreAloneFrom, acts-has_instance}
use go_framework.Registry.Gap.{register_in_gap, register_in_gap-has_instance}

abbrev at : String → ℕ → Instance ℕ
at a x = record { addr = a; meta = x }

-- Two services, the first with two instances.
abbrev two_services : Entries ℕ
two_services = ("users", ("a", 1) ∷ ("b", 2) ∷ []) ∷ ("orders", ("a", 3) ∷ []) ∷ []

new_entries :
    (register_service_with_entries two_services ("users" ∷ []) (at "b" 7 ∷ at "d" 8 ∷ [])).0
    ≡ ("users", ("b", 7) ∷ ("d", 8) ∷ []) ∷ ("orders", ("a", 3) ∷ []) ∷ []
unfolding register_service_with_entries process_entries process_service add_entries add_entry lookup
    insert delete text_discrete
new_entries = refl

register_service_with_entries-instance_of_example :
    instance_of
      (register_service_with_entries two_services ("users" ∷ []) (at "b" 7 ∷ at "b" 9 ∷ [])).0
      "users"
      "b"
    ≡ some 9
unfolding text_discrete
register_service_with_entries-instance_of_example =
    register_service_with_entries-instance_of two_services ("users" ∷ []) (at "b" 7 ∷ at "b" 9 ∷ [])
      "users" "b"

unregister_service-instance_of_example :
    instance_of (unregister_service two_services "users" "a").0 "users" "a" ≡ none
unfolding text_discrete
unregister_service-instance_of_example =
    unregister_service-instance_of two_services "users" "a" "users" "a"

-- Two calls, the first of which returns before the second begins.
abbrev two_calls : List (Action ℕ)
two_calls =
    reads
    ∷ starts_watch
    ∷ begins (registers "users" "c" 5)
    ∷ notifies 0
    ∷ returns 0
    ∷ begins (unregisters "users" "a")
    ∷ notifies 0
    ∷ returns 0
    ∷ []

abbrev told : List (Event ℕ)
told = on_update "users" (at "c" 5 ∷ []) ∷ on_delete "users" (at "a" 1 ∷ []) ∷ []

abbrev first_updates : List (Update ℕ)
first_updates = to_updates add (at "a" 1 ∷ at "b" 2 ∷ [])

abbrev after_two_calls : Shared ℕ
after_two_calls = record {
  entries = ("users", ("b", 2) ∷ ("c", 5) ∷ []) ∷ ("orders", ("a", 3) ∷ []) ∷ [];
  threads = [];
  client = watches first_updates told;
}

two_calls_end : acts "users" two_calls (at_rest two_services) ≡ some after_two_calls
unfolding acts act call notify_next end_thread read_first watch_first put_thread drop_thread pass
    register_service unregister_service drop_one drop_all lookup insert delete text_discrete
    service_instances
two_calls_end = refl

two_calls_alone : AreAloneFrom "users" two_calls (some (at_rest two_services))
unfolding acts act call notify_next end_thread read_first watch_first put_thread drop_thread pass
    register_service unregister_service drop_one drop_all lookup insert delete text_discrete
    service_instances
two_calls_alone = (refl, (tt, ((refl, tt, tt), (tt, (tt, ((refl, tt, tt), (tt, (tt, tt))))))))

acts-has_instance_example :
    follow "b" (first_updates ++ all_passed_on "users" told) false
    ≡ has_instance after_two_calls.entries "users" "b"
acts-has_instance_example =
    acts-has_instance "users" "b" two_calls two_services after_two_calls first_updates told
      two_calls_alone two_calls_end refl refl

register_in_gap-has_instance_example :
    let us = to_updates add (service_instances two_services "users") in
    (m : Shared ℕ) × (acts "users" (register_in_gap "users" "z" 9) (at_rest two_services) ≡ some m)
    × (m.threads ≡ [])
    × (m.client ≡ watches us [])
    × (follow "z" us false ≡ false)
    × (has_instance m.entries "users" "z" ≡ true)
unfolding has_instance lookup text_discrete
register_in_gap-has_instance_example = register_in_gap-has_instance two_services "users" "z" 9 refl
