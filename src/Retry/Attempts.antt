-- ===== src/Retry/Attempts.antt =====
-- internal/retry/retry_policy.go with the scheduler: how many attempts a call makes at most.
use go_framework.Base.{
  ℕ, suc, ◌+◌, ◌≤◌, ◌<◌, true, List, [], ◌∷◌, ◌≡◌, arith, length, length-append, ltb, if◌then◌else◌,
}
use go_framework.Retry.Threads.{OnSome, SameCall, reached}
use go_framework.Retry.Schedule.{
  task_canceled, deadline_exceeded, timeout_exceeded, other, TaskContext, Options, Signal,
  signal_done, signal_error, signal_retry, signal_timeout, signal_quit, Code, finished, if_valid,
  if_open, send_signal, closing, send_finish, removing, retrying, numbering, adding, Machine, Event,
  start, next_context, retry_or_finish, run, handle, advance, steps,
}

abbrev pub max_attempts : ℕ → ℕ
max_attempts n = if ltb n 1 then 1 else n

module _ {V E : Type 0} where
  -- How many attempts the code is about to add.
  abbrev pending : Code V E → ℕ
  pending (if_open k) = pending k
  pending (if_valid id k) = pending k
  pending (send_signal s k) = pending k
  pending (closing k) = pending k
  pending (send_finish k) = pending k
  pending (removing id k) = pending k
  pending (numbering e c) = 1
  pending (adding id e c) = 1
  pending finished = 0
  pending (retrying e) = 0

  -- There are no more attempts than retries and the first one, and no more than are allowed.
  Allowed : ℕ → Machine V E → Type 0
  Allowed n m =
      (length m.attempts + pending m.caller ≤ suc m.context.retry_num)
      × (length m.attempts + pending m.caller ≤ max_attempts n)

  Allowed-SameCall : (n : ℕ) (m o : Machine V E) → Allowed n m → SameCall m o → Allowed n o
  unfolding Allowed
  Allowed-SameCall n m o h (e, a, c, _) = rw (e, a, c) h

  abbrev pub MadeAtMost : ℕ → Machine V E → Type 0
  MadeAtMost n m = length m.attempts ≤ n

start-Allowed :
    (V : Type 0) {E : Type 0} (opts : Options E) (n now : ℕ) → Allowed n (start {V = V} opts now)
unfolding start Allowed
start-Allowed V opts n now = ground arith

module _ {V E : Type 0} (opts : Options E) (n : ℕ)
    (counts : (c : TaskContext E) → opts.retry_policy c ≡ true → c.retry_num < n) where
  run-Allowed :
      (k : Code V E) (m : Machine V E)
      → length m.attempts + pending k ≤ suc m.context.retry_num
      → length m.attempts + pending k ≤ max_attempts n
      → OnSome (Allowed n) (advance opts (run opts k m))
  unfolding run advance Allowed retry_or_finish
  run-Allowed finished m h l = tt
  run-Allowed (if_valid id k) m h l = ground arith
  run-Allowed (if_open k) m h l = ground arith
  run-Allowed (send_signal s k) m h l = ground arith
  run-Allowed (closing k) m h l = (h, l)
  run-Allowed (send_finish k) m h l = ground arith
  run-Allowed (removing id k) m h l = (h, l)
  run-Allowed (retrying e) m h l = ground (arith, counts (next_context opts e m))
  run-Allowed (numbering e c) m h l = (h, l)
  run-Allowed (adding id e c) m h l = ground (
    arith,
    length-append m.attempts (record { id = id; context = c; delay = opts.interval_policy c } ∷ []),
  )

  handle-Allowed :
      (s : Signal V E) (m : Machine V E)
      → Allowed n m
      → m.caller ≡ finished
      → Allowed n (handle opts s m)
  unfolding handle Allowed
  handle-Allowed (signal_done v) m h e = h
  handle-Allowed (signal_error task_canceled) m h e = h
  handle-Allowed (signal_error (deadline_exceeded d)) m h e = h
  handle-Allowed (signal_error (timeout_exceeded d)) m h e = h
  handle-Allowed (signal_error (other x)) m h e = h
  handle-Allowed (signal_retry x) m h e = rw e at h
  handle-Allowed (signal_timeout d) m h e = rw e at h
  handle-Allowed signal_quit m h e = h

  -- When the retry policy allows a retry only while the number of retries is below `n`, a call makes
  -- at most `n` attempts (at most one for `n` zero), in every state that steps lead to.
  pub steps-MadeAtMost :
      (es : List (Event V E)) (now : ℕ)
      → OnSome (MadeAtMost (max_attempts n)) (steps opts es (start opts now))
  unfolding Allowed
  steps-MadeAtMost es now =
      reached opts (Allowed n) (Allowed-SameCall n) (λ m h. run-Allowed m.caller m h.0 h.1)
        handle-Allowed (MadeAtMost (max_attempts n)) es now (start-Allowed V opts n now)
        (λ m h. omega (arith, h.1))
