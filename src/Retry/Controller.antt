-- ===== src/Retry/Controller.antt =====
-- The calls under an id in internal/retry/retry_controller.go: the map of the running ones. The mutex
-- makes the search and the entry one step.
use go_framework.Base.{
  ℕ, Bool, true, Option, none, some, ◌≡◌, arith, String, GoMap, lookup, insert, delete, ◌≢◌, ap,
  ◌∙◌, is_some, ite, ◌↔◌, lookup-insert_self, lookup-delete_self, lookup-insert_ne,
  lookup-delete_ne,
}

-- A running call is told by its number, as its scheduler is by its address.
pub record Controller : Type 0 where
  pub task_map : GoMap ℕ

pub data Entered : Type 0 where
  entered : Controller → Entered
  duplicate_id : Entered

-- The beginning of `Invoke`; "" stands for no id.
unfoldable pub enter : Discrete String → String → ℕ → Controller → Entered
enter eq id call c = ite (eq id "") (entered c) (elim (lookup id c.task_map) [
  | some _ ↦ duplicate_id
  | none ↦ entered (record { task_map = insert id call c.task_map })
])

-- The deferred end of `Invoke`.
unfoldable pub leave : Discrete String → String → Controller → Controller
leave eq id c = ite (eq id "") c (record { task_map = delete id c.task_map })

unfoldable pub has_task : String → Controller → Bool
has_task id c = is_some (lookup id c.task_map)

-- The call that is told to cancel.
unfoldable pub cancel_task : String → Controller → Option ℕ
cancel_task id c = lookup id c.task_map

enter-duplicate_id :
    (eq : Discrete String) (id : String) (call : ℕ) (c : Controller)
    → id ≢ ""
    → (enter eq id call c ≡ duplicate_id) ↔ (has_task id c ≡ true)
unfolding enter has_task
enter-duplicate_id eq id call c n = ground arith

entered_map :
    (eq : Discrete String) (id : String) (call : ℕ) (c c' : Controller)
    → id ≢ ""
    → enter eq id call c ≡ entered c'
    → (c'.task_map ≡ insert id call c.task_map) × (lookup id c.task_map ≡ none)
unfolding enter
entered_map eq id call c c' n e = (ground arith, ground arith)

-- After a call under an id that is not empty has entered, it is the one that is cancelled under the id,
-- a further call under the id is refused as a duplicate, another id has the call that it had, and when
-- the call has left, each id has the call that it had before it.
pub enter-cancel_task :
    (eq : Discrete String) (id o : String) (call next : ℕ) (c c' : Controller)
    → id ≢ ""
    → id ≢ o
    → enter eq id call c ≡ entered c'
    → (cancel_task id c' ≡ some call)
      × (enter eq id next c' ≡ duplicate_id)
      × (cancel_task o c' ≡ cancel_task o c)
      × (cancel_task id (leave eq id c') ≡ cancel_task id c)
      × (cancel_task o (leave eq id c') ≡ cancel_task o c)
unfolding enter leave has_task cancel_task
enter-cancel_task eq id o call next c c' n d e =
    let (m, free) = entered_map eq id call c c' n e in
    let here = lookup-insert_self id call c.task_map in
    let there = lookup-insert_ne id o call c.task_map d in
    (
      ap (lookup id) m ∙ here,
      ground (arith, here, m),
      ap (lookup o) m ∙ there,
      ground (arith, m, free, lookup-delete_self id c'.task_map),
      ground (arith, m, there, lookup-delete_ne id o c'.task_map d),
    )
