-- ===== src/Retry/Hang.antt =====
-- A run of a call in which its thread comes to wait on its own full channel of signals.
use mathlib.Core.Path.{subst}
use go_framework.Base.{
  ℕ, suc, true, false, List, [], ◌∷◌, ◌++◌, none, some, ◌≡◌, ◌≢◌, refl, sym, ◌∙◌, arith,
  Option-cases, inl, inr, ap, drop,
}
use go_framework.Retry.{
  add_task, close_queue, valid_ids, is_task_valid, first_valid, task_count, count_valid,
}
use go_framework.Retry.Threads.{OnSome}
use go_framework.Retry.Stuck.{HasNotReturned, steps-HasNotReturned}
use go_framework.Retry.Schedule.{
  Options, other, signal_error, signal_quit, finished, send_signal, Machine, on_error, Event,
  caller_runs, caller_receives, thread_runs, calls_back, times_out, finish, first_context, start,
  retry_or_finish, run, handle, receive, advance, advance_thread, fire, step_thread, step, steps,
  with_timer, put, drop_at, Timer,
}

-- A single attempt is started and times out. The caller takes the signal; in the meantime the attempt
-- calls back with an error and fills the channel again, and then the caller finishes.
abbrev pub stuck_run : {V E : Type 0} → E → List (Event V E)
stuck_run e =
    caller_runs
    ∷ caller_runs
    ∷ caller_runs
    ∷ times_out 0
    ∷ thread_runs 0
    ∷ thread_runs 0
    ∷ caller_receives
    ∷ calls_back 1 (on_error (other e))
    ∷ thread_runs 1
    ∷ thread_runs 1
    ∷ caller_runs
    ∷ caller_runs
    ∷ caller_runs
    ∷ caller_runs
    ∷ []

-- The options with a fixed timeout of an attempt, and no retries.
abbrev pub once_with_timeout : {E : Type 0} → ℕ → Options E → Options E
once_with_timeout t opts = record opts { timeout_policy = λ c. suc t; retry_policy = λ c. false }

-- The machine after that run.
abbrev pub stuck_machine : {V E : Type 0} → Options E → ℕ → ℕ → E → Machine V E
stuck_machine opts now t e =
    let o = once_with_timeout t opts in
    record {
      id = 1;
      queue = record { task_queue = []; closed = true };
      signal_chan = signal_error (other e) ∷ [];
      finish_full = true;
      limiter = true;
      context = record (first_context o now) {
        retry_num = 1;
        concurrency_num = 1;
        last_error = some (opts.timeout_err (suc t));
      };
      result = none;
      error = some (opts.timeout_err (suc t));
      caller = send_signal signal_quit finished;
      threads = finished ∷ finish ∷ [];
      attempts =
          record {
            id = 1;
            context = first_context o now;
            delay = opts.interval_policy (first_context o now);
          }
          ∷ [];
      timers = [];
      cancelled = 1 ∷ [];
      returned = false;
    }

-- The machine after the attempt was queued, with the timers that this leaves.
abbrev launched : {V E : Type 0} → Options E → ℕ → List Timer → Machine V E
launched o now ts = record (start o now) {
  id = 1;
  queue = record { task_queue = record { id = 1; valid = true } ∷ []; closed = false };
  caller = finished;
  attempts =
      record {
        id = 1;
        context = first_context o now;
        delay = o.interval_policy (first_context o now);
      }
      ∷ [];
  timers = ts;
}

stuck_run_ends :
    {V E : Type 0} (opts : Options E) (now t : ℕ) (e : E)
    → steps (once_with_timeout t opts) (stuck_run {V = V} e) (start (once_with_timeout t opts) now)
      ≡ some (stuck_machine opts now t e)
unfolding steps step start run advance handle receive advance_thread step_thread retry_or_finish
    add_task close_queue valid_ids is_task_valid first_valid task_count count_valid with_timer put
    fire drop_at
stuck_run_ends {V = V} opts now t e =
    let o = once_with_timeout t opts in
    ap (λ ts. steps o (drop 3 (stuck_run {V = V} e)) (launched o now ts))
      {x = with_timer 1 (suc t) []} {y = record { id = 1; timeout = suc t } ∷ []} (ground arith)

steps-append :
    {V E : Type 0} (opts : Options E) (xs ys : List (Event V E)) (m n : Machine V E)
    → steps opts xs m ≡ some n
    → steps opts (xs ++ ys) m ≡ steps opts ys n
unfolding steps
steps-append opts [] ys m n h = ground arith
steps-append opts (x ∷ xs) ys m n h = elim (Option-cases (step opts x m)) [
  | inl e ↦ absurd (ground (arith, rw (e, steps) at h))
  | inr (k, e) ↦ rw (e, steps) (steps-append opts xs ys k n (rw (e, steps) at h))
]

-- With a timeout of an attempt and without retries there is an order of the steps of a call after
-- which the call never returns, whatever its attempts, its timers and its cancellers do: the attempt
-- times out, and calls back with an error before the caller has finished.
pub stuck_run-never_returns :
    {V E : Type 0} (opts : Options E) (now t : ℕ) (e : E) (es : List (Event V E))
    → let o = once_with_timeout t opts in
      (steps o (stuck_run {V = V} e) (start o now) ≢ none)
      × OnSome {V = V} {E = E} HasNotReturned (steps o (stuck_run e ++ es) (start o now))
stuck_run-never_returns opts now t e es =
    let o = once_with_timeout t opts in
    (
      (λ h.
          let k : some (stuck_machine opts now t e) ≡ none =
            sym (stuck_run_ends opts now t e) ∙ h in
          cc),
      subst (OnSome HasNotReturned)
          (sym (
            steps-append o (stuck_run e) es (start o now) (stuck_machine opts now t e)
              (stuck_run_ends opts now t e)))
          (steps-HasNotReturned o es (stuck_machine opts now t e) (refl, refl, refl)),
    )
