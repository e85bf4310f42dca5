-- ===== src/Retry/Threads.antt =====
-- What a step of a call leaves alone when a goroutine takes it, and induction on the steps.
use mathlib.Core.Path.{subst}
use go_framework.Base.{
  ℕ, suc, ◌≤◌, zero, Bool, true, false, List, [], ◌∷◌, Option, none, some, ◌≡◌, refl, arith, All,
  All-append, Option-cases, inl, inr, get_elem?, if◌then◌else◌, not, ◌&&◌, ◌==◌,
}
use go_framework.Retry.{count_valid, close_queue, remove_task}
use go_framework.Retry.Queue.{remove_all-count_valid}
use go_framework.Retry.Schedule.{
  task_canceled, deadline_exceeded, timeout_exceeded, other, Options, Signal, signal_done,
  signal_error, signal_retry, signal_timeout, signal_quit, Code, finished, if_valid, if_open,
  send_signal, closing, send_finish, removing, retrying, numbering, adding, Timer, put, is_started,
  Machine, Callback, on_success, on_error, retry, Event, caller_runs, caller_receives, thread_runs,
  calls_back, times_out, limit_passes, cancels, finish_is_read, cancel, call_back, start,
  retry_or_finish, run, handle, receive, advance, advance_thread, spawn, fire, step_thread, step,
  steps,
}

module _ {V E : Type 0} where
  -- Code that starts no attempt, as a goroutine's.
  abbrev pub is_thread : Code V E → Bool
  is_thread finished = true
  is_thread (if_valid id k) = is_thread k
  is_thread (if_open k) = is_thread k
  is_thread (send_signal s k) = is_thread k
  is_thread (closing k) = is_thread k
  is_thread (send_finish k) = is_thread k
  is_thread (removing id k) = is_thread k
  is_thread (retrying e) = false
  is_thread (numbering evict c) = false
  is_thread (adding id evict c) = false

  pub IsThread : Code V E → Type 0
  IsThread k = is_thread k ≡ true

  -- The call itself is as it was, and no attempt became valid.
  abbrev pub SameCall : Machine V E → Machine V E → Type 0
  SameCall m n =
      (n.caller ≡ m.caller)
      × (n.attempts ≡ m.attempts)
      × (n.context ≡ m.context)
      × (count_valid n.queue.task_queue ≤ count_valid m.queue.task_queue)

  pub call_refl : (m : Machine V E) → SameCall m m
  call_refl m = (refl, refl, refl, omega arith)

  abbrev pub ThreadRuns : Machine V E → Option (Machine V E × Code V E) → Type 0
  ThreadRuns m none = Unit
  ThreadRuns m (some (n, k)) = IsThread k × (n.threads ≡ m.threads) × SameCall m n

  abbrev pub OnSome : (Machine V E → Type 0) → Option (Machine V E) → Type 0
  OnSome P none = Unit
  OnSome P (some m) = P m

  abbrev pub SameThreads : Machine V E → Option (Machine V E × Code V E) → Type 0
  SameThreads m none = Unit
  SameThreads m (some (n, k)) = n.threads ≡ m.threads

  OnSome-cases :
      (P Q : Machine V E → Type 0) (o : Option (Machine V E))
      → OnSome P o
      → ((m : Machine V E) → P m → Q m)
      → OnSome Q o
  OnSome-cases P Q none h f = tt
  OnSome-cases P Q (some m) h f = f m h

  All-get_elem? :
      (P : Code V E → Type 0) (ks : List (Code V E)) (n : ℕ) (k : Code V E)
      → All P ks
      → get_elem? ks n ≡ some k
      → P k
  All-get_elem? P [] n k h e = absurd (ground arith)
  All-get_elem? P (x ∷ xs) zero k h e = ground arith
  All-get_elem? P (x ∷ xs) (suc n) k h e = All-get_elem? P xs n k h.1 e

  call_back-IsThread : (id : ℕ) (cb : Callback V E) → IsThread (call_back id cb)
  unfolding IsThread
  call_back-IsThread id (on_success v) = refl
  call_back-IsThread id (on_error e) = refl
  call_back-IsThread id (retry e) = refl

  All-put :
      (P : Code V E → Type 0) (n : ℕ) (k : Code V E) (ks : List (Code V E))
      → P k
      → All P ks
      → All P (put n k ks)
  unfolding put
  All-put P n k [] p h = tt
  All-put P zero k (x ∷ xs) p h = (p, h.1)
  All-put P (suc n) k (x ∷ xs) p h = (h.0, All-put P n k xs p h.1)

module _ {V E : Type 0} (opts : Options E) where
  pub run-ThreadRuns : (k : Code V E) (m : Machine V E) → IsThread k → ThreadRuns m (run opts k m)
  unfolding run IsThread close_queue remove_task count_valid
  run-ThreadRuns finished m h = tt
  run-ThreadRuns (if_valid id k) m h = ground arith
  run-ThreadRuns (if_open k) m h = ground arith
  run-ThreadRuns (send_signal s k) m h = ground arith
  run-ThreadRuns (closing k) m h = ground arith
  run-ThreadRuns (send_finish k) m h = ground arith
  run-ThreadRuns (removing id k) m h = ground (arith, remove_all-count_valid id m.queue.task_queue)
  run-ThreadRuns (retrying e) m h = absurd (ground arith)
  run-ThreadRuns (numbering evict c) m h = absurd (ground arith)
  run-ThreadRuns (adding id evict c) m h = absurd (ground arith)

  run-threads : (k : Code V E) (m : Machine V E) → SameThreads m (run opts k m)
  unfolding run retry_or_finish
  run-threads finished m = tt
  run-threads (if_valid id k) m = refl
  run-threads (if_open k) m = refl
  run-threads (send_signal s k) m = ground arith
  run-threads (closing k) m = refl
  run-threads (send_finish k) m = ground arith
  run-threads (removing id k) m = refl
  run-threads (retrying e) m = ground arith
  run-threads (numbering evict c) m = refl
  run-threads (adding id evict c) m = refl

  handle-threads : (s : Signal V E) (m : Machine V E) → (handle opts s m).threads ≡ m.threads
  unfolding handle
  handle-threads (signal_done v) m = refl
  handle-threads (signal_error task_canceled) m = refl
  handle-threads (signal_error (deadline_exceeded d)) m = refl
  handle-threads (signal_error (timeout_exceeded d)) m = refl
  handle-threads (signal_error (other e)) m = refl
  handle-threads (signal_retry e) m = refl
  handle-threads (signal_timeout d) m = refl
  handle-threads signal_quit m = refl

  -- A property of the call that the calling thread and its handlers keep is kept by every step.
  module _ (P : Machine V E → Type 0) (same : (m n : Machine V E) → P m → SameCall m n → P n)
      (caller_step : (m : Machine V E) → P m → OnSome P (advance opts (run opts m.caller m)))
      (signal_step : (s : Signal V E) (m : Machine V E)
        → P m
        → m.caller ≡ finished
        → P (handle opts s m)) where
    Holds : Machine V E → Type 0
    Holds m = P m × All IsThread m.threads

    if_some : (b : Bool) (n : Machine V E) → Holds n → OnSome Holds (if b then some n else none)
    if_some true n h = h
    if_some false n h = tt

    if_none : (b : Bool) (n : Machine V E) → Holds n → OnSome Holds (if b then none else some n)
    if_none true n h = tt
    if_none false n h = h

    spawn-Holds :
        (k : Code V E) (m n : Machine V E)
        → Holds m
        → IsThread k
        → n.threads ≡ m.threads
        → SameCall m n
        → Holds (spawn opts k n)
    unfolding Holds
    spawn-Holds k m n h t e c =
        (same m (spawn opts k n) h.0 c, rw e (All-append IsThread m.threads (k ∷ []) h.1 (t, tt)))

    advance_thread-Holds :
        (n : ℕ) (m : Machine V E) (o : Option (Machine V E × Code V E))
        → Holds m
        → ThreadRuns m o
        → OnSome Holds (advance_thread opts n o)
    unfolding Holds advance_thread
    advance_thread-Holds n m none h r = tt
    advance_thread-Holds n m (some (m', k)) h (t, e, c) = (
      same m (record m' { threads = put n k m'.threads }) h.0 c,
      rw e (All-put IsThread n k m.threads t h.1),
    )

    step_thread-Holds :
        (n : ℕ) (o : Option (Code V E)) (m : Machine V E)
        → get_elem? m.threads n ≡ o
        → Holds m
        → OnSome Holds (step_thread opts n o m)
    unfolding step_thread Holds
    step_thread-Holds n none m e h = tt
    step_thread-Holds n (some k) m e h =
        advance_thread-Holds n m (run opts k m) h
          (run-ThreadRuns k m (All-get_elem? IsThread m.threads n k h.1 e))

    advance-Holds :
        (m : Machine V E) (o : Option (Machine V E × Code V E))
        → Holds m
        → SameThreads m o
        → OnSome P (advance opts o)
        → OnSome Holds (advance opts o)
    unfolding Holds advance
    advance-Holds m none h e p = tt
    advance-Holds m (some (n, k)) h e p = (p, rw e h.1)

    receive-Holds :
        (k : Code V E) (ss : List (Signal V E)) (m : Machine V E)
        → m.caller ≡ k
        → Holds m
        → OnSome Holds (receive opts k ss m)
    unfolding Holds receive
    receive-Holds finished [] m e h = tt
    receive-Holds finished (s ∷ ss) m e h = if_none m.returned _ (
      signal_step s (record m { signal_chan = ss }) (same m _ h.0 (call_refl m)) e,
      rw (handle-threads s (record m { signal_chan = ss })) h.1,
    )
    receive-Holds (if_valid id k) ss m e h = tt
    receive-Holds (if_open k) ss m e h = tt
    receive-Holds (send_signal s k) ss m e h = tt
    receive-Holds (closing k) ss m e h = tt
    receive-Holds (send_finish k) ss m e h = tt
    receive-Holds (removing id k) ss m e h = tt
    receive-Holds (retrying x) ss m e h = tt
    receive-Holds (numbering evict c) ss m e h = tt
    receive-Holds (adding id evict c) ss m e h = tt

    fire-Holds :
        (n : ℕ) (t : Option Timer) (m : Machine V E) → Holds m → OnSome Holds (fire opts n t m)
    unfolding fire Holds IsThread
    fire-Holds n none m h = tt
    fire-Holds n (some t) m h =
        (same m _ h.0 (call_refl m), All-append IsThread m.threads _ h.1 (refl, tt))

    step-Holds : (e : Event V E) (m : Machine V E) → Holds m → OnSome Holds (step opts e m)
    unfolding step Holds IsThread
    step-Holds caller_runs m h = advance-Holds m _ h (run-threads m.caller m) (caller_step m h.0)
    step-Holds caller_receives m h = receive-Holds m.caller m.signal_chan m refl h
    step-Holds (thread_runs n) m h = step_thread-Holds n _ m refl h
    step-Holds (calls_back id cb) m h =
        if_some (is_started id m.attempts) _
          (spawn-Holds (call_back id cb) m m h (call_back-IsThread id cb) refl (call_refl m))
    step-Holds (times_out n) m h = fire-Holds n _ m h
    step-Holds limit_passes m h =
        if_some (m.limiter && not (opts.time_limit == 0)) _
          (spawn-Holds _ m (record m { limiter = false }) h refl refl (call_refl m))
    step-Holds cancels m h = spawn-Holds cancel m m h refl refl (call_refl m)
    step-Holds finish_is_read m h =
        if_some (m.finish_full && m.limiter) _ (same m _ h.0 (call_refl m), h.1)

    steps-Holds :
        (es : List (Event V E)) (m : Machine V E) → Holds m → OnSome Holds (steps opts es m)
    unfolding steps
    steps-Holds [] m h = h
    steps-Holds (e ∷ es) m h = elim (Option-cases (step opts e m)) [
      | inl n ↦ rw (n, steps) tt
      | inr (m', n) ↦ rw (n, steps) (steps-Holds es m' (subst (OnSome Holds) n (step-Holds e m h)))
    ]

    -- So it holds in every state that steps of a call lead to.
    pub reached :
        (Q : Machine V E → Type 0) (es : List (Event V E)) (now : ℕ)
        → P (start opts now)
        → ((m : Machine V E) → P m → Q m)
        → OnSome Q (steps opts es (start opts now))
    unfolding Holds start
    reached Q es now p f =
        OnSome-cases Holds Q _ (steps-Holds es (start opts now) (p, tt)) (λ m h. f m h.0)
