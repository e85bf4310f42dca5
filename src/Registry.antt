-- ===== src/Registry.antt =====
-- registry/registry.go and registry/notifier.go: service instances, the events that a registry
-- sends to its watchers, and the notifier that keeps the watchers.
pub mod Memory
pub mod Watcher
pub mod Concurrent
pub mod Serial
pub mod Gap
mod Tests
use go_framework.Base.{ℕ, String, List, [], ◌∷◌, ◌++◌, ite, ℕ_discrete, map}

-- `M` is the type of the metadata, `interface{}` in the code.
pub record Instance (M : Type 0) : Type 0 where
  pub addr : String
  pub meta : M

pub record Entry (M : Type 0) : Type 0 where
  pub service_name : String
  pub instances : List (Instance M)

-- A call that the notifier makes on every watcher.
pub data Event (M : Type 0) : Type 0 where
  on_update : String → List (Instance M) → Event M
  on_delete : String → List (Instance M) → Event M

-- A watcher is known by a number, as the code compares the interface values.
pub record Notifier : Type 0 where
  pub watchers : List ℕ

unfoldable pub watch : Notifier → ℕ → Notifier
watch s w = record s { watchers = s.watchers ++ w ∷ [] }

remains : ℕ → List ℕ → List ℕ
remains watcher [] = []
remains watcher (w ∷ ws) = ite (ℕ_discrete w watcher) (remains watcher ws) (w ∷ remains watcher ws)

-- The function that `Watch` returns.
unfoldable pub cancel_watch : Notifier → ℕ → Notifier
unfolding remains
cancel_watch s watcher = record s { watchers = remains watcher s.watchers }

-- `OnUpdate` and `OnDelete`: the calls made, each with its watcher.
unfoldable pub notify : {M : Type 0} → Notifier → Event M → List (ℕ × Event M)
notify s e = map (λ w. (w, e)) s.watchers
