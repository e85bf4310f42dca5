-- ===== src/Retry/OneTask.antt =====
-- With a policy of no concurrency a call has one valid attempt at a time, whatever the order of steps.
use go_framework.Base.{ℕ, ◌≤◌, true, false, List, ◌≡◌, refl, arith}
use go_framework.Retry.{count_valid, close_queue, remove_task}
use go_framework.Retry.Queue.{remove_all-count_valid, add_task-count_valid}
use go_framework.Retry.Threads.{OnSome, SameCall, reached}
use go_framework.Retry.Schedule.{
  task_canceled, deadline_exceeded, timeout_exceeded, other, TaskContext, Options, Signal,
  signal_done, signal_error, signal_retry, signal_timeout, signal_quit, Code, finished, if_valid,
  if_open, send_signal, closing, send_finish, removing, retrying, numbering, adding, Machine, Event,
  start, next_context, retry_or_finish, run, handle, advance, steps,
}

module _ {V E : Type 0} where
  -- An attempt that the code adds evicts another one, unless none is valid.
  abbrev Evicts : Code V E → ℕ → Type 0
  Evicts (if_open k) n = Evicts k n
  Evicts (if_valid id k) n = Evicts k n
  Evicts (send_signal s k) n = Evicts k n
  Evicts (closing k) n = Evicts k n
  Evicts (send_finish k) n = Evicts k n
  Evicts (removing id k) n = Evicts k n
  Evicts (numbering true c) n = Unit
  Evicts (numbering false c) n = n ≡ 0
  Evicts (adding id true c) n = Unit
  Evicts (adding id false c) n = n ≡ 0
  Evicts finished n = Unit
  Evicts (retrying e) n = Unit

  OneValid : Machine V E → Type 0
  OneValid m =
      (count_valid m.queue.task_queue ≤ 1) × Evicts m.caller (count_valid m.queue.task_queue)

  Evicts-below : (k : Code V E) (n o : ℕ) → o ≤ n → Evicts k n → Evicts k o
  Evicts-below (if_open k) n o l h = Evicts-below k n o l h
  Evicts-below (if_valid id k) n o l h = Evicts-below k n o l h
  Evicts-below (send_signal s k) n o l h = Evicts-below k n o l h
  Evicts-below (closing k) n o l h = Evicts-below k n o l h
  Evicts-below (send_finish k) n o l h = Evicts-below k n o l h
  Evicts-below (removing id k) n o l h = Evicts-below k n o l h
  Evicts-below (numbering true c) n o l h = tt
  Evicts-below (numbering false c) n o l h = omega arith
  Evicts-below (adding id true c) n o l h = tt
  Evicts-below (adding id false c) n o l h = omega arith
  Evicts-below finished n o l h = tt
  Evicts-below (retrying e) n o l h = tt

  OneValid-SameCall : (m n : Machine V E) → OneValid m → SameCall m n → OneValid n
  unfolding OneValid
  OneValid-SameCall m n (l, h) (e, _, _, le) =
      (omega arith, rw e (Evicts-below m.caller _ (count_valid n.queue.task_queue) le h))

  abbrev pub AtMostOne : Machine V E → Type 0
  AtMostOne m = count_valid m.queue.task_queue ≤ 1

start-OneValid :
    (V : Type 0) {E : Type 0} (opts : Options E) (now : ℕ) → OneValid (start {V = V} opts now)
unfolding start OneValid count_valid
start-OneValid V opts now = (omega arith, refl)

module _ {V E : Type 0} (opts : Options E)
    (never : (c : TaskContext E) → opts.concurrency_policy c ≡ false) where
  run-OneValid :
      (k : Code V E) (m : Machine V E)
      → count_valid m.queue.task_queue ≤ 1
      → Evicts k (count_valid m.queue.task_queue)
      → OnSome OneValid (advance opts (run opts k m))
  unfolding run advance OneValid retry_or_finish close_queue remove_task count_valid
  run-OneValid finished m l h = tt
  run-OneValid (if_valid id k) m l h = ground arith
  run-OneValid (if_open k) m l h = ground arith
  run-OneValid (send_signal s k) m l h = ground arith
  run-OneValid (closing k) m l h = (omega arith, Evicts-below k _ 0 (omega arith) h)
  run-OneValid (send_finish k) m l h = ground arith
  run-OneValid (removing id k) m l h =
      let le = remove_all-count_valid id m.queue.task_queue in
      (omega arith, Evicts-below k _ _ le h)
  run-OneValid (retrying e) m l h = ground (arith, never (next_context opts e m))
  run-OneValid (numbering true c) m l h = (l, tt)
  run-OneValid (numbering false c) m l h = (l, h)
  run-OneValid (adding id true c) m l h = (ground (arith, add_task-count_valid id m.queue), tt)
  run-OneValid (adding id false c) m l h = (ground (arith, add_task-count_valid id m.queue), tt)

  handle-OneValid :
      (s : Signal V E) (m : Machine V E)
      → OneValid m
      → m.caller ≡ finished
      → OneValid (handle opts s m)
  unfolding handle OneValid
  handle-OneValid (signal_done v) m h e = h
  handle-OneValid (signal_error task_canceled) m h e = h
  handle-OneValid (signal_error (deadline_exceeded d)) m h e = h
  handle-OneValid (signal_error (timeout_exceeded d)) m h e = h
  handle-OneValid (signal_error (other x)) m h e = h
  handle-OneValid (signal_retry x) m h e = (h.0, tt)
  handle-OneValid (signal_timeout d) m h e = (h.0, tt)
  handle-OneValid signal_quit m h e = h

  -- With a policy that never allows concurrency, at most one attempt of a call is valid in every state
  -- that steps of the call, its attempts, its timers and its cancellers lead to, in any order.
  pub steps-AtMostOne :
      (es : List (Event V E)) (now : ℕ) → OnSome AtMostOne (steps opts es (start opts now))
  unfolding OneValid
  steps-AtMostOne es now =
      reached opts OneValid OneValid-SameCall (λ m h. run-OneValid m.caller m h.0 h.1)
        handle-OneValid AtMostOne es now (start-OneValid V opts now) (λ m h. h.0)
