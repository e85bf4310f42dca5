-- ===== src/Retry.antt =====
-- internal/retry/task_queue.go: the queue of the attempts of one call. Its mutex makes each operation
-- one step. The result of an operation that cancels is the queue and the ids of the attempts whose
-- `cancel` it calls, in order.
pub mod Queue
pub mod Schedule
pub mod Threads
pub mod OneTask
pub mod Attempts
pub mod Stuck
pub mod Hang
pub mod Policy
pub mod Wrappers
pub mod Controller
mod Tests
use go_framework.Base.{ℕ, suc, ◌+◌, Bool, true, false, List, [], ◌∷◌, ◌++◌, if◌then◌else◌, ◌==◌}

pub record Task : Type 0 where
  pub id : ℕ
  pub valid : Bool

pub record TaskQueue : Type 0 where
  pub task_queue : List Task
  pub closed : Bool

abbrev pub new_task_queue : TaskQueue
new_task_queue = record { task_queue = []; closed = false }

-- The first valid task is made invalid and cancelled.
unfoldable pub evict_oldest : List Task → List Task × List ℕ
evict_oldest [] = ([], [])
evict_oldest (t ∷ ts) =
    let (ts', cancelled) = evict_oldest ts in
    if t.valid then (record t { valid = false } ∷ ts, t.id ∷ []) else (t ∷ ts', cancelled)

unfoldable pub add_task : ℕ → Bool → TaskQueue → TaskQueue × List ℕ
add_task id evict_oldest_one q =
    let (ts, cancelled) =
      if evict_oldest_one then evict_oldest q.task_queue else (q.task_queue, []) in
    (record q { task_queue = ts ++ record { id = id; valid = true } ∷ [] }, cancelled)

-- Every task with the id is cancelled, also one that is invalid already.
unfoldable pub remove_all : ℕ → List Task → List Task × List ℕ
remove_all id [] = ([], [])
remove_all id (t ∷ ts) =
    let (ts', cancelled) = remove_all id ts in
    if t.id == id
    then (record t { valid = false } ∷ ts', t.id ∷ cancelled)
    else (t ∷ ts', cancelled)

unfoldable pub remove_task : ℕ → TaskQueue → TaskQueue × List ℕ
remove_task id q =
    let (ts, cancelled) = remove_all id q.task_queue in (record q { task_queue = ts }, cancelled)

unfoldable pub valid_ids : List Task → List ℕ
valid_ids [] = []
valid_ids (t ∷ ts) = let ids = valid_ids ts in if t.valid then t.id ∷ ids else ids

unfoldable pub close_queue : TaskQueue → TaskQueue × List ℕ
close_queue q = (record { task_queue = []; closed = true }, valid_ids q.task_queue)

-- The first task with the id counts.
unfoldable pub first_valid : ℕ → List Task → Bool
first_valid id [] = false
first_valid id (t ∷ ts) = let found = first_valid id ts in if t.id == id then t.valid else found

unfoldable pub is_task_valid : ℕ → TaskQueue → Bool
is_task_valid id q = if q.closed then false else first_valid id q.task_queue

unfoldable pub count_valid : List Task → ℕ
count_valid [] = 0
count_valid (t ∷ ts) = let n = count_valid ts in if t.valid then suc n else n

unfoldable pub task_count : TaskQueue → ℕ
task_count q = if q.closed then 0 else count_valid q.task_queue
