-- ===== src/Retry/Tests.antt =====
-- Runs of the retry controller on concrete calls, and the theorems at them.
use text.Mathlib.TextEquality.{eq_iff}
use go_framework.Base.{
  ℕ, Bool, true, false, List, [], ◌∷◌, ◌++◌, Option, none, some, ◌≡◌, refl, arith, String, GoMap,
  insert, lookup, text_discrete, ◌≢◌, ℕ_discrete, ◌<◌, length,
}
use go_framework.Retry.{
  TaskQueue, add_task, evict_oldest, remove_task, remove_all, close_queue, valid_ids, is_task_valid,
  first_valid, task_count, count_valid,
}
use go_framework.Retry.OneTask.{steps-AtMostOne, AtMostOne}
use go_framework.Retry.Attempts.{steps-MadeAtMost, MadeAtMost, max_attempts}
use go_framework.Retry.Stuck.{HasNotReturned}
use go_framework.Retry.Hang.{once_with_timeout, stuck_run, stuck_run-never_returns}
use go_framework.Retry.Threads.{OnSome}
use go_framework.Retry.Policy.{inner_retry_count, RetryPolicy, Wrapper, new_wrapper}
use go_framework.Retry.Wrappers.{IsNews}
use go_framework.Retry.Controller.{Controller, entered, enter}
use go_framework.Retry.Schedule.{
  Error, task_canceled, timeout_exceeded, other, TaskContext, Options, put, drop_at, Machine,
  on_success, retry, Event, caller_runs, caller_receives, thread_runs, calls_back, cancels,
  finish_is_read, with_timer, start, retry_or_finish, run, handle, receive, advance, advance_thread,
  fire, step_thread, step, steps,
}

abbrev options : Options ℕ
options = record {
  time_limit = 0;
  timeout_policy = λ _. 5;
  interval_policy = λ _. 0;
  retry_policy = inner_retry_count 2;
  concurrency_policy = λ _. false;
  timeout_err = timeout_exceeded;
  cancel_error = task_canceled;
}

-- The call queues its first attempt, or the next one.
abbrev launch : List (Event ℕ ℕ)
launch = caller_runs ∷ caller_runs ∷ caller_runs ∷ []

-- The attempt asks for a retry, and the call hears of it.
abbrev fails : ℕ → ℕ → List (Event ℕ ℕ)
fails id n =
    calls_back id (retry (other 7))
    ∷ thread_runs n
    ∷ thread_runs n
    ∷ caller_receives
    ∷ thread_runs n
    ∷ caller_runs
    ∷ []

-- The attempt succeeds, and the call ends.
abbrev succeeds : ℕ → ℕ → List (Event ℕ ℕ)
succeeds id n =
    calls_back id (on_success 42)
    ∷ thread_runs n
    ∷ thread_runs n
    ∷ caller_receives
    ∷ thread_runs n
    ∷ thread_runs n
    ∷ thread_runs n
    ∷ thread_runs n
    ∷ caller_receives
    ∷ []

abbrev outcome : Option (Machine ℕ ℕ) → Option (Option ℕ × Option (Error ℕ) × Bool × ℕ)
outcome none = none
outcome (some m) = some (m.result, m.error, m.returned, length m.attempts)

-- A retry and then a success: the result is the second attempt's.
retry_then_success :
    outcome (steps options (launch ++ fails 1 0 ++ launch ++ succeeds 2 1) (start options 0))
    ≡ some (some 42, none, true, 2)
unfolding steps step start run advance handle receive advance_thread step_thread retry_or_finish
    add_task evict_oldest remove_task remove_all close_queue valid_ids is_task_valid first_valid
    task_count count_valid with_timer put inner_retry_count fire drop_at
retry_then_success = refl

stuck_run-never_returns_example :
    (steps {V = ℕ}
        (once_with_timeout 4 options)
        (stuck_run 7)
        (start (once_with_timeout 4 options) 0)
      ≢ none)
    × OnSome {V = ℕ} HasNotReturned (
        steps
          (once_with_timeout 4 options)
          (stuck_run 7 ++ finish_is_read ∷ thread_runs 1 ∷ cancels ∷ [])
          (start (once_with_timeout 4 options) 0))
stuck_run-never_returns_example =
    stuck_run-never_returns options 0 4 7 (finish_is_read ∷ thread_runs 1 ∷ cancels ∷ [])

steps-AtMostOne_example :
    OnSome AtMostOne (steps options (launch ++ fails 1 0 ++ launch) (start options 0))
steps-AtMostOne_example = steps-AtMostOne options (λ _. refl) (launch ++ fails 1 0 ++ launch) 0

options_count : (c : TaskContext ℕ) → options.retry_policy c ≡ true → c.retry_num < 2
unfolding inner_retry_count
options_count c h = ground arith

steps-MadeAtMost_example :
    OnSome
      (MadeAtMost (max_attempts 2))
      (steps options (launch ++ fails 1 0 ++ launch ++ succeeds 2 1) (start options 0))
steps-MadeAtMost_example =
    steps-MadeAtMost options 2 options_count (launch ++ fails 1 0 ++ launch ++ succeeds 2 1) 0

abbrev two_tasks : TaskQueue
two_tasks = record {
  task_queue = record { id = 1; valid = false } ∷ record { id = 2; valid = true } ∷ [];
  closed = false;
}

abbrev one_running : Controller
one_running = record { task_map = ("a", 1) ∷ [] }

abbrev two_running : Controller
two_running = record { task_map = ("a", 1) ∷ ("b", 2) ∷ [] }

enter_b : enter text_discrete "b" 2 one_running ≡ entered two_running
unfolding enter lookup insert text_discrete
enter_b = refl

b_not_empty : ◌≢◌ {A = String} "b" ""
b_not_empty = ground (arith, eq_iff "b" "")

b_not_a : ◌≢◌ {A = String} "b" "a"
b_not_a = ground (arith, eq_iff "b" "a")

abbrev policy : RetryPolicy ℕ
policy = record {
  version = 1;
  enabled = true;
  num_of_retries = 2;
  per_try_timeout = 5;
  overlap = false;
  backoff_duration = 3;
  backoff_jitter = 0;
  backoff_exponential = true;
}

abbrev held : GoMap (Wrapper ℕ ℕ)
held = ("b", new_wrapper ℕ_discrete (λ _ d. d) "b" policy) ∷ []

abbrev newer : RetryPolicy ℕ
newer = record policy { version = 2; num_of_retries = 4 }

newer-IsNews : IsNews ℕ_discrete (λ _ d. d) newer (lookup "b" held)
unfolding lookup text_discrete new_wrapper
newer-IsNews = (ground arith, refl)
