-- ===== src/Retry/Queue.antt =====
-- What the operations of the queue of attempts do to the number of valid ones.
use go_framework.Base.{
  ℕ, suc, ◌+◌, ◌-◌, ◌≤◌, true, false, List, [], ◌∷◌, ◌++◌, ◌≡◌, refl, arith, length,
}
use go_framework.Retry.{
  Task, TaskQueue, evict_oldest, add_task, remove_all, remove_task, valid_ids, close_queue,
  first_valid, is_task_valid, count_valid, task_count,
}

pub count_valid-append :
    (ts us : List Task) → count_valid (ts ++ us) ≡ count_valid ts + count_valid us
unfolding count_valid
count_valid-append [] us = omega arith
count_valid-append (t ∷ ts) us = ground (arith, count_valid-append ts us)

-- Eviction takes one valid task, when there is one, and cancels as many as it takes.
pub evict_oldest-count_valid :
    (ts : List Task)
    → (count_valid (evict_oldest ts).0 ≡ count_valid ts - 1)
      × (count_valid (evict_oldest ts).0 + length (evict_oldest ts).1 ≡ count_valid ts)
unfolding evict_oldest count_valid
evict_oldest-count_valid [] = (refl, refl)
evict_oldest-count_valid (t ∷ ts) =
    let (h, k) = evict_oldest-count_valid ts in (ground arith, ground arith)

pub remove_all-count_valid :
    (id : ℕ) (ts : List Task) → count_valid (remove_all id ts).0 ≤ count_valid ts
unfolding remove_all count_valid
remove_all-count_valid id [] = omega arith
remove_all-count_valid id (t ∷ ts) = ground (arith, remove_all-count_valid id ts)

pub remove_all-first_valid : (id : ℕ) (ts : List Task) → first_valid id (remove_all id ts).0 ≡ false
unfolding remove_all first_valid
remove_all-first_valid id [] = refl
remove_all-first_valid id (t ∷ ts) = ground (arith, remove_all-first_valid id ts)

pub valid_ids-length : (ts : List Task) → length (valid_ids ts) ≡ count_valid ts
unfolding valid_ids count_valid
valid_ids-length [] = refl
valid_ids-length (t ∷ ts) = ground (arith, valid_ids-length ts)

pub add_task-count_valid :
    (id : ℕ) (q : TaskQueue)
    → (count_valid (add_task id true q).0.task_queue ≡ suc (count_valid q.task_queue - 1))
      × (count_valid (add_task id false q).0.task_queue ≡ suc (count_valid q.task_queue))
unfolding add_task count_valid
add_task-count_valid id q = (
  ground (
    arith,
    count_valid-append (evict_oldest q.task_queue).0 (record { id = id; valid = true } ∷ []),
    evict_oldest-count_valid q.task_queue,
  ),
  ground (arith, count_valid-append q.task_queue (record { id = id; valid = true } ∷ [])),
)

-- A removed task is invalid, and no task becomes valid by the removal of another; a queue that is
-- closed has no valid task, counts none, and every task that was valid has been cancelled.
pub remove-close :
    (id : ℕ) (q : TaskQueue)
    → (is_task_valid id (remove_task id q).0 ≡ false)
      × (task_count (remove_task id q).0 ≤ task_count q)
      × (is_task_valid id (close_queue q).0 ≡ false)
      × (task_count (close_queue q).0 ≡ 0)
      × (length (close_queue q).1 ≡ count_valid q.task_queue)
unfolding remove_task is_task_valid task_count close_queue
remove-close id q = (
  ground (arith, remove_all-first_valid id q.task_queue),
  ground (arith, remove_all-count_valid id q.task_queue),
  refl,
  refl,
  valid_ids-length q.task_queue,
)
