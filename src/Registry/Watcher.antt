-- ===== src/Registry/Watcher.antt =====
-- registry/memory.go, from `memoryResolver` on: the watcher of one service. It turns the
-- notifier's calls into the updates that a balancer reads from `Next`.
pub mod Follow
pub mod Tracks
use go_framework.Base.{
  ℕ, String, Bool, true, false, List, [], ◌∷◌, ◌++◌, Option, none, some, map, ite, text_discrete,
  if◌then◌else◌, is_empty, length, ltb, ◌≡◌,
}
use go_framework.Registry.{Instance, Event, on_update, on_delete, Notifier, watch, cancel_watch}
use go_framework.Registry.Memory.{Entries, service_instances}

-- `naming.Update`, with the two operations that the code sends.
pub data Op : Type 0 where
  add : Op
  delete : Op

pub record Update (M : Type 0) : Type 0 where
  pub op : Op
  pub addr : String
  pub metadata : M

-- `ch` is nil, or a channel with room for one list of updates; `done` is the context's end.
pub record MemoryWatcher (M : Type 0) : Type 0 where
  pub target : String
  pub ch : Option (List (List (Update M)))
  pub watching : Bool
  pub closed : Bool
  pub done : Bool

pub data NextResult (M : Type 0) : Type 0 where
  updates : List (Update M) → NextResult M
  watcher_closed : NextResult M

-- What a call of the notifier does: it returns at once, waits on the channel, or sends.
pub data Delivery (M : Type 0) : Type 0 where
  ignored : Delivery M
  blocked : Delivery M
  sent : MemoryWatcher M → Delivery M

module _ {M : Type 0} where
  unfoldable pub new_memory_watcher : String → MemoryWatcher M
  new_memory_watcher target = record {
    target = target;
    ch = none;
    watching = false;
    closed = false;
    done = false;
  }

  abbrev pub to_updates : Op → List (Instance M) → List (Update M)
  to_updates op [] = []
  to_updates op (e ∷ es) = record { op = op; addr = e.addr; metadata = e.meta } ∷ to_updates op es

  -- The first part of `firstNext`: the instances are read, and the registry's lock is given back.
  unfoldable pub first_read : Entries M → MemoryWatcher M → NextResult M
  first_read s w =
      if w.closed then watcher_closed else updates (to_updates add (service_instances s w.target))

  -- The second part, where the watcher is not closed: it makes its channel, and registers itself with the
  -- notifier under the number `me`. The registry may have changed since it was read.
  unfoldable pub first_watch : ℕ → Notifier → MemoryWatcher M → MemoryWatcher M × Notifier
  first_watch me notifier w = (record w { ch = some []; watching = true }, watch notifier me)

  -- `s.ch <- updates`; a send on a nil channel waits for ever.
  unfoldable pub send : MemoryWatcher M → List (Update M) → Delivery M
  send w us = elim w.ch [
    | none ↦ blocked
    | some [] ↦ sent (record w { ch = some (us ∷ []) })
    | some (_ ∷ _) ↦ blocked
  ]

  unfoldable pub notify_service : Op → MemoryWatcher M → String → List (Instance M) → Delivery M
  notify_service op w name instances =
      ite (text_discrete name w.target)
        (if w.closed then ignored else send w (to_updates op instances)) ignored

  unfoldable pub notify_service_update : MemoryWatcher M → String → List (Instance M) → Delivery M
  unfolding notify_service
  notify_service_update w name instances = notify_service add w name instances

  unfoldable pub notify_service_delete : MemoryWatcher M → String → List (Instance M) → Delivery M
  unfolding notify_service
  notify_service_delete w name instances = notify_service delete w name instances

  -- The notifier's call on this watcher.
  unfoldable pub on_event : MemoryWatcher M → Event M → Delivery M
  unfolding notify_service_update notify_service_delete
  on_event w (on_update name instances) = notify_service_update w name instances
  on_event w (on_delete name instances) = notify_service_delete w name instances

  unfoldable pub close : ℕ → Notifier → MemoryWatcher M → MemoryWatcher M × Notifier
  close me notifier w = if w.closed then (w, notifier) else (
    record w { closed = true; done = true },
    if w.watching then cancel_watch notifier me else notifier,
  )

-- The ways in which `Next` returns once the channel is there; where several can be taken, `select`
-- picks any, and where none can, the call waits.
pub data Next {M : Type 0} (w : MemoryWatcher M) : NextResult M → MemoryWatcher M → Type 0 where
  received :
      (us : List (Update M)) (rest : List (List (Update M)))
      → w.ch ≡ some (us ∷ rest)
      → Next w (updates us) (record w { ch = some rest })
  finished :
      (waiting : List (List (Update M)))
      → w.ch ≡ some waiting
      → w.done ≡ true
      → Next w watcher_closed w
