-- ===== src/Discovery/Tests.antt =====
-- A toy registry with the services "a" and "b", whose picker is the list of its addresses, and the
-- theorems at it.
use go_framework.Base.{
  ℕ, lookup, insert, delete, text_discrete, true, false, List, [], ◌∷◌, Option, none, some, ◌≡◌,
  refl, inl, arith,
}
use go_framework.Registry.{Instance, Event, on_update, on_delete}
use go_framework.Discovery.{
  AddressInfo, Library, new_services, receive_all, receive_event, update_grpc_entries,
  delete_grpc_entries, store_or_delete, grpc_addrs, not_deleted, contains_addr,
  unmarshal_registry_meta, pick_with_info, picked,
}
use go_framework.Discovery.Registered.{registered, PicksIn, pick_with_info-registered}
use go_framework.Discovery.Down.{
  Step, tick, checked, steps, step, down, monitor, is_due, check_down_addr,
}
use go_framework.Discovery.Checks.{checks_of}

abbrev pick_first : List AddressInfo → Option AddressInfo
pick_first [] = none
pick_first (a ∷ as_) = some a

abbrev toy : Library ℕ (List AddressInfo)
toy = record { decode = λ m. none; bytes_of = λ s. []; build = λ addrs. addrs; pick = pick_first }

toy-PicksIn : PicksIn toy
toy-PicksIn [] a e = absurd (ground arith)
toy-PicksIn (b ∷ bs) a e = inl (ground arith)

abbrev first : Instance ℕ
first = record { addr = "x:1"; meta = 0 }

abbrev second : Instance ℕ
second = record { addr = "y:2"; meta = 0 }

abbrev history : List (Event ℕ)
history =
    on_update "a" (first ∷ [])
    ∷ on_update "a" (second ∷ [])
    ∷ on_update "b" (first ∷ [])
    ∷ on_delete "a" (second ∷ [])
    ∷ []

first_picked :
    pick_with_info toy (receive_all toy history new_services) "a"
    ≡ picked (record { addr = "x:1"; tls = false })
unfolding pick_with_info receive_all receive_event update_grpc_entries delete_grpc_entries
    store_or_delete grpc_addrs not_deleted contains_addr unmarshal_registry_meta lookup insert
    delete text_discrete
first_picked = refl

pick_with_info-registered_example : registered "a" "x:1" false history ≡ true
pick_with_info-registered_example =
    pick_with_info-registered toy "a" (record { addr = "x:1"; tls = false }) history toy-PicksIn
      first_picked

abbrev ticks : List Step
ticks =
    tick 60000000000
    ∷ checked "x:1" false
    ∷ tick 120000000000
    ∷ tick 180000000000
    ∷ tick 240000000000
    ∷ tick 300000000000
    ∷ tick 360000000000
    ∷ checked "x:1" true
    ∷ []

five_checks : checks_of "x:1" (steps ticks (down "x:1" 0 [])).1 ≡ 5
unfolding checks_of steps step down monitor is_due check_down_addr insert delete text_discrete
five_checks = refl
