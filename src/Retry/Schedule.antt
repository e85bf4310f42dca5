-- ===== src/Retry/Schedule.antt =====
-- internal/retry/task_scheduler.go and the body of Invoke in retry_controller.go: a call as threads
-- that run in any order. A thread is the code that it has left. One step of it is one operation of the
-- queue, of the counter or of a channel, and a send waits while its channel is full. Time is in
-- nanoseconds, and the timers may fire at any moment.
use go_framework.Base.{
  ℕ, zero, suc, ◌+◌, ◌%◌, ◌^◌, Bool, true, false, not, List, [], ◌∷◌, ◌++◌, Option, none, some,
  if◌then◌else◌, is_empty, get_elem?, ◌==◌, ◌&&◌,
}
use go_framework.Retry.{
  TaskQueue, new_task_queue, add_task, remove_task, close_queue, is_task_valid, task_count,
}

-- `E` is what errors the tasks give.
pub data Error (E : Type 0) : Type 0 where
  task_canceled : Error E
  deadline_exceeded : ℕ → Error E
  timeout_exceeded : ℕ → Error E
  other : E → Error E

pub record TaskContext (E : Type 0) : Type 0 where
  pub retry_num : ℕ
  pub concurrency_num : ℕ
  pub start_time : ℕ
  pub total_limit : ℕ
  pub last_error : Option (Error E)

-- `timeout_err` is `timeoutErrGenerator`.
pub record Options (E : Type 0) : Type 0 where
  pub time_limit : ℕ
  pub timeout_policy : TaskContext E → ℕ
  pub interval_policy : TaskContext E → ℕ
  pub retry_policy : TaskContext E → Bool
  pub concurrency_policy : TaskContext E → Bool
  pub timeout_err : ℕ → Error E
  pub cancel_error : Error E

pub data Signal (V E : Type 0) : Type 0 where
  signal_done : V → Signal V E
  signal_error : Error E → Signal V E
  signal_retry : Error E → Signal V E
  signal_timeout : ℕ → Signal V E
  signal_quit : Signal V E

-- The code that a thread has left. The first two go on only under their condition, the last three are
-- of the calling thread alone.
pub data Code (V E : Type 0) : Type 0 where
  finished : Code V E
  if_valid : ℕ → Code V E → Code V E
  if_open : Code V E → Code V E
  send_signal : Signal V E → Code V E → Code V E
  closing : Code V E → Code V E
  send_finish : Code V E → Code V E
  removing : ℕ → Code V E → Code V E
  retrying : Error E → Code V E
  numbering : Bool → TaskContext E → Code V E
  adding : ℕ → Bool → TaskContext E → Code V E

-- An attempt that was started: its id, the context that it was given, and the delay before it.
pub record Attempt (E : Type 0) : Type 0 where
  pub id : ℕ
  pub context : TaskContext E
  pub delay : ℕ

-- The timer of an attempt with a timeout.
pub record Timer : Type 0 where
  pub id : ℕ
  pub timeout : ℕ

unfoldable pub put {ℓ} : {A : Type ℓ} → ℕ → A → List A → List A
put n a [] = []
put zero a (x ∷ xs) = a ∷ xs
put (suc n) a (x ∷ xs) = x ∷ put n a xs

unfoldable pub drop_at {ℓ} : {A : Type ℓ} → ℕ → List A → List A
drop_at n [] = []
drop_at zero (x ∷ xs) = xs
drop_at (suc n) (x ∷ xs) = x ∷ drop_at n xs

abbrev pub is_started : {E : Type 0} → ℕ → List (Attempt E) → Bool
is_started id [] = false
is_started id (a ∷ bs) = if a.id == id then true else is_started id bs

-- `limiter` says that the goroutine that reads the finish channel has not ended; the channel itself
-- has one place, as the channel of signals has.
pub record Machine (V E : Type 0) : Type 0 where
  pub id : ℕ
  pub queue : TaskQueue
  pub signal_chan : List (Signal V E)
  pub finish_full : Bool
  pub limiter : Bool
  pub context : TaskContext E
  pub result : Option V
  pub error : Option (Error E)
  pub caller : Code V E
  pub threads : List (Code V E)
  pub attempts : List (Attempt E)
  pub timers : List Timer
  pub cancelled : List ℕ
  pub returned : Bool

-- What a task may tell its callback.
pub data Callback (V E : Type 0) : Type 0 where
  on_success : V → Callback V E
  on_error : Error E → Callback V E
  retry : Error E → Callback V E

pub data Event (V E : Type 0) : Type 0 where
  caller_runs : Event V E
  caller_receives : Event V E
  thread_runs : ℕ → Event V E
  calls_back : ℕ → Callback V E → Event V E
  times_out : ℕ → Event V E
  limit_passes : Event V E
  cancels : Event V E
  finish_is_read : Event V E

unfoldable pub with_timer : ℕ → ℕ → List Timer → List Timer
with_timer id timeout ts =
    if timeout == 0 then ts else ts ++ record { id = id; timeout = timeout } ∷ []

module _ {V E : Type 0} where
  abbrev pub finish : Code V E
  finish = if_open (closing (send_finish (send_signal signal_quit finished)))

  abbrev pub cancel : Code V E
  cancel = if_open (send_signal (signal_error task_canceled) finish)

  abbrev pub call_back : ℕ → Callback V E → Code V E
  call_back id (on_success v) = if_valid id (send_signal (signal_done v) finish)
  call_back id (on_error e) = if_valid id (send_signal (signal_error e) finish)
  call_back id (retry e) = if_valid id (send_signal (signal_retry e) (removing id finished))

  abbrev pub invoke : Bool → TaskContext E → Code V E
  invoke evict_oldest_one c = if_open (numbering evict_oldest_one c)

abbrev pub first_context : {E : Type 0} → Options E → ℕ → TaskContext E
first_context opts now = record {
  retry_num = 0;
  concurrency_num = 0;
  start_time = now;
  total_limit = opts.time_limit;
  last_error = none;
}

module _ {V E : Type 0} (opts : Options E) where
  -- The machine as `Invoke` enters `Wait`, before the first attempt is queued.
  unfoldable pub start : ℕ → Machine V E
  start now = record {
    id = 0;
    queue = new_task_queue;
    signal_chan = [];
    finish_full = false;
    limiter = true;
    context = first_context opts now;
    result = none;
    error = none;
    caller = invoke false (first_context opts now);
    threads = [];
    attempts = [];
    timers = [];
    cancelled = [];
    returned = false;
  }

  abbrev pub next_context : Error E → Machine V E → TaskContext E
  next_context e m = record m.context {
    retry_num = suc m.context.retry_num;
    concurrency_num = task_count m.queue;
    last_error = some e;
  }

  -- The function `retry` inside `Invoke`.
  unfoldable pub retry_or_finish : Error E → Machine V E → Machine V E × Code V E
  retry_or_finish e m =
      let c = next_context e m in
      if opts.retry_policy c
      then (record m { context = c }, invoke (not (opts.concurrency_policy c)) c)
      else (record m { context = c; error = some e }, finish)

  -- One step of a thread, and the code that is left; none while it waits. A new attempt runs in a
  -- goroutine of its own, which the events of its id stand for.
  unfoldable pub run : Code V E → Machine V E → Option (Machine V E × Code V E)
  run finished m = none
  run (if_valid id k) m = some (m, if is_task_valid id m.queue then k else finished)
  run (if_open k) m = some (m, if m.queue.closed then finished else k)
  run (send_signal s k) m =
      if is_empty m.signal_chan then some (record m { signal_chan = s ∷ [] }, k) else none
  run (closing k) m =
      let (q, ids) = close_queue m.queue in
      some (record m { queue = q; cancelled = ids ++ m.cancelled }, k)
  run (send_finish k) m = if m.finish_full then none else some (record m { finish_full = true }, k)
  run (removing id k) m =
      let (q, ids) = remove_task id m.queue in
      some (record m { queue = q; cancelled = ids ++ m.cancelled }, k)
  run (retrying e) m = some (retry_or_finish e m)
  run (numbering evict c) m =
      let id = (m.id + 1) % 2 ^ 32 in some (record m { id = id }, adding id evict c)
  run (adding id evict c) m =
      let (q, ids) = add_task id evict m.queue in
      some (
        record m {
          queue = q;
          cancelled = ids ++ m.cancelled;
          attempts =
              m.attempts ++ record { id = id; context = c; delay = opts.interval_policy c } ∷ [];
          timers = with_timer id (opts.timeout_policy c) m.timers;
        },
        finished,
      )

  -- What `Wait` does with a signal.
  unfoldable pub handle : Signal V E → Machine V E → Machine V E
  handle (signal_done v) m = record m { result = some v }
  handle (signal_error task_canceled) m = record m { error = some opts.cancel_error }
  handle (signal_error e) m = record m { error = some e }
  handle (signal_retry e) m = record m { caller = retrying e }
  handle (signal_timeout d) m = record m { caller = retrying (opts.timeout_err d) }
  handle signal_quit m = record m { returned = true }

  -- The caller's thread takes a signal when it has no code left.
  unfoldable pub receive : Code V E → List (Signal V E) → Machine V E → Option (Machine V E)
  receive finished (s ∷ ss) m =
      if m.returned then none else some (handle s (record m { signal_chan = ss }))
  receive _ _ m = none

  unfoldable pub advance : Option (Machine V E × Code V E) → Option (Machine V E)
  advance none = none
  advance (some (m, k)) = some (record m { caller = k })

  -- The thread with the number takes a step.
  unfoldable pub advance_thread : ℕ → Option (Machine V E × Code V E) → Option (Machine V E)
  advance_thread n none = none
  advance_thread n (some (m, k)) = some (record m { threads = put n k m.threads })

  abbrev pub spawn : Code V E → Machine V E → Machine V E
  spawn k m = record m { threads = m.threads ++ k ∷ [] }

  -- The timer of an attempt fires once.
  unfoldable pub fire : ℕ → Option Timer → Machine V E → Option (Machine V E)
  fire n none m = none
  fire n (some t) m = some (record m {
    timers = drop_at n m.timers;
    threads = m.threads ++ if_valid t.id (send_signal (signal_timeout t.timeout) finished) ∷ [];
  })

  unfoldable pub step_thread : ℕ → Option (Code V E) → Machine V E → Option (Machine V E)
  step_thread n none m = none
  step_thread n (some k) m = advance_thread n (run k m)

  unfoldable pub step : Event V E → Machine V E → Option (Machine V E)
  step caller_runs m = advance (run m.caller m)
  step caller_receives m = receive m.caller m.signal_chan m
  step (thread_runs n) m = step_thread n (get_elem? m.threads n) m
  step (calls_back id cb) m =
      if is_started id m.attempts then some (spawn (call_back id cb) m) else none
  step (times_out n) m = fire n (get_elem? m.timers n) m
  step limit_passes m =
      if m.limiter && not (opts.time_limit == 0)
      then some (
          spawn (if_open (send_signal (signal_error (deadline_exceeded opts.time_limit)) finish))
            (record m { limiter = false }))
      else none
  step cancels m = some (spawn cancel m)
  step finish_is_read m =
      if m.finish_full && m.limiter
      then some (record m { finish_full = false; limiter = false })
      else none

  unfoldable pub steps : List (Event V E) → Machine V E → Option (Machine V E)
  steps [] m = some m
  steps (e ∷ es) m = elim (step e m) [ none ↦ none | some m' ↦ steps es m' ]
