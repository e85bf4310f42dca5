-- ===== src/Retry/Stuck.antt =====
-- A call that waits to send on its own full channel of signals: it is the only receiver.
use mathlib.Core.Path.{subst}
use go_framework.Base.{
  ℕ, Bool, true, false, List, [], ◌∷◌, Option, none, some, ◌≡◌, refl, arith, is_empty, Option-cases,
  inl, inr,
}
use go_framework.Retry.Threads.{OnSome}
use go_framework.Retry.Schedule.{
  Options, Signal, Code, finished, if_valid, if_open, send_signal, closing, send_finish, removing,
  retrying, numbering, adding, Timer, Machine, Event, caller_runs, caller_receives, thread_runs,
  calls_back, times_out, limit_passes, cancels, finish_is_read, retry_or_finish, run, receive,
  advance, advance_thread, fire, step_thread, step, steps,
}

module _ {V E : Type 0} where
  abbrev pub is_sending : Code V E → Bool
  is_sending (send_signal s k) = true
  is_sending _ = false

  -- The calling thread waits to send a signal, and the channel has one.
  abbrev pub IsStuck : Machine V E → Type 0
  IsStuck m = (is_sending m.caller ≡ true) × (is_empty m.signal_chan ≡ false) × (m.returned ≡ false)

  -- The channel stays full.
  abbrev KeepsFull : Machine V E → Option (Machine V E × Code V E) → Type 0
  KeepsFull m none = Unit
  KeepsFull m (some (n, k)) =
      (n.caller ≡ m.caller) × (is_empty n.signal_chan ≡ false) × (n.returned ≡ m.returned)

  abbrev pub HasNotReturned : Machine V E → Type 0
  HasNotReturned m = m.returned ≡ false

module _ {V E : Type 0} (opts : Options E) where
  run-KeepsFull :
      (k : Code V E) (m : Machine V E) → is_empty m.signal_chan ≡ false → KeepsFull m (run opts k m)
  unfolding run retry_or_finish
  run-KeepsFull finished m h = tt
  run-KeepsFull (if_valid id k) m h = (refl, h, refl)
  run-KeepsFull (if_open k) m h = (refl, h, refl)
  run-KeepsFull (send_signal s k) m h = rw h tt
  run-KeepsFull (closing k) m h = (refl, h, refl)
  run-KeepsFull (send_finish k) m h = ground arith
  run-KeepsFull (removing id k) m h = (refl, h, refl)
  run-KeepsFull (retrying e) m h = ground arith
  run-KeepsFull (numbering evict c) m h = (refl, h, refl)
  run-KeepsFull (adding id evict c) m h = (refl, h, refl)

  -- A sender takes no step while the channel is full.
  run-waits :
      (k : Code V E) (m : Machine V E)
      → is_sending k ≡ true
      → is_empty m.signal_chan ≡ false
      → run opts k m ≡ none
  unfolding run
  run-waits (send_signal s k) m e h = rw h refl
  run-waits finished m e h = absurd (ground arith)
  run-waits (if_valid id k) m e h = absurd (ground arith)
  run-waits (if_open k) m e h = absurd (ground arith)
  run-waits (closing k) m e h = absurd (ground arith)
  run-waits (send_finish k) m e h = absurd (ground arith)
  run-waits (removing id k) m e h = absurd (ground arith)
  run-waits (retrying x) m e h = absurd (ground arith)
  run-waits (numbering evict c) m e h = absurd (ground arith)
  run-waits (adding id evict c) m e h = absurd (ground arith)

  receive-waits :
      (k : Code V E) (ss : List (Signal V E)) (m : Machine V E)
      → is_sending k ≡ true
      → receive opts k ss m ≡ none
  unfolding receive
  receive-waits (send_signal s k) ss m e = refl
  receive-waits finished ss m e = absurd (ground arith)
  receive-waits (if_valid id k) ss m e = refl
  receive-waits (if_open k) ss m e = refl
  receive-waits (closing k) ss m e = refl
  receive-waits (send_finish k) ss m e = refl
  receive-waits (removing id k) ss m e = refl
  receive-waits (retrying x) ss m e = refl
  receive-waits (numbering evict c) ss m e = refl
  receive-waits (adding id evict c) ss m e = refl

  advance_thread-IsStuck :
      (n : ℕ) (m : Machine V E) (o : Option (Machine V E × Code V E))
      → IsStuck m
      → KeepsFull m o
      → OnSome IsStuck (advance_thread opts n o)
  unfolding advance_thread
  advance_thread-IsStuck n m none h k = tt
  advance_thread-IsStuck n m (some (o, c)) h k = rw (k.0, k.2) (h.0, k.1, h.2)

  step_thread-IsStuck :
      (n : ℕ) (o : Option (Code V E)) (m : Machine V E)
      → IsStuck m
      → OnSome IsStuck (step_thread opts n o m)
  unfolding step_thread
  step_thread-IsStuck n none m h = tt
  step_thread-IsStuck n (some k) m h = advance_thread-IsStuck n m _ h (run-KeepsFull k m h.1)

  fire-IsStuck :
      (n : ℕ) (t : Option Timer) (m : Machine V E) → IsStuck m → OnSome IsStuck (fire opts n t m)
  unfolding fire
  fire-IsStuck n none m h = tt
  fire-IsStuck n (some t) m h = h

  step-IsStuck : (e : Event V E) (m : Machine V E) → IsStuck m → OnSome IsStuck (step opts e m)
  unfolding step advance
  step-IsStuck caller_runs m h = rw (run-waits m.caller m h.0 h.1) tt
  step-IsStuck caller_receives m h = rw (receive-waits m.caller m.signal_chan m h.0) tt
  step-IsStuck (thread_runs n) m h = step_thread-IsStuck n _ m h
  step-IsStuck (calls_back id cb) m h = ground arith
  step-IsStuck (times_out n) m h = fire-IsStuck n _ m h
  step-IsStuck limit_passes m h = ground arith
  step-IsStuck cancels m h = h
  step-IsStuck finish_is_read m h = ground arith

  -- A call whose thread waits to send on its own full channel of signals never returns.
  pub steps-HasNotReturned :
      (es : List (Event V E)) (m : Machine V E)
      → IsStuck m
      → OnSome HasNotReturned (steps opts es m)
  unfolding steps
  steps-HasNotReturned [] m h = h.2
  steps-HasNotReturned (e ∷ es) m h = elim (Option-cases (step opts e m)) [
    | inl n ↦ rw (n, steps) tt
    | inr (m', n) ↦
        rw (n, steps) (steps-HasNotReturned es m' (subst (OnSome IsStuck) n (step-IsStuck e m h)))
  ]
