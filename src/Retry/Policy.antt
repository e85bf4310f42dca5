-- ===== src/Retry/Policy.antt =====
-- internal/retry/retry_policy.go, concurrency_policy.go, retry_interval_policy.go and
-- timeout_policy.go, and retry/retry.go: the policies that a retry controller is made with, and the
-- wrapper that classifies errors and exchanges policies.
use go_framework.Base.{
  ℕ, ◌*◌, ◌/◌, ◌%◌, ◌^◌, Bool, true, false, List, [], ◌∷◌, Option, none, some, ltb, leb, ◌==◌, ◌&&◌,
  if◌then◌else◌, ◌-◌, String, ite, not, GoMap, lookup, insert,
}
use go_framework.Retry.Schedule.{
  task_canceled, timeout_exceeded, other, TaskContext, Options, Callback, on_success, on_error,
  retry,
}

-- The policy of a fixed number of retries in internal/retry; it is asked with the number of the retry
-- that would be next.
unfoldable pub inner_retry_count : {E : Type 0} → ℕ → TaskContext E → Bool
inner_retry_count retry_times c = ltb c.retry_num retry_times

-- The one of retry/retry.go.
unfoldable pub fixed_retry_count : {E : Type 0} → ℕ → TaskContext E → Bool
fixed_retry_count retry_times c = leb c.retry_num retry_times

unfoldable pub fixed_retry_interval : {E : Type 0} → ℕ → TaskContext E → ℕ
fixed_retry_interval interval c = if c.retry_num == 0 then 0 else interval

-- `(1 << attempt) >> 1` on int64, as the 64 bits of the result.
unfoldable pub half_shift : ℕ → ℕ
half_shift attempt =
    if ltb attempt 63 then 2 ^ attempt / 2 else if attempt == 63 then 2 ^ 64 - 2 ^ 62 else 0

unfoldable pub exponent_base2 : Bool → ℕ → ℕ → ℕ
exponent_base2 exponential duration attempt =
    if exponential then (duration * half_shift attempt) % 2 ^ 64 else duration

-- `control.RetryPolicy`; `J` is the type of the jitter.
pub record RetryPolicy (J : Type 0) : Type 0 where
  pub version : ℕ
  pub enabled : Bool
  pub num_of_retries : ℕ
  pub per_try_timeout : ℕ
  pub overlap : Bool
  pub backoff_duration : ℕ
  pub backoff_jitter : J
  pub backoff_exponential : Bool

pub record Wrapper (J E : Type 0) : Type 0 where
  pub name : String
  pub controller : Options E
  pub policy : RetryPolicy J

abbrev pub same_bool : Bool → Bool → Bool
same_bool true b = b
same_bool false b = not b

abbrev pub same_policy : {J : Type 0} → Discrete J → RetryPolicy J → RetryPolicy J → Bool
same_policy jitter_eq p q =
    same_bool p.enabled q.enabled
    && (p.num_of_retries == q.num_of_retries)
    && (p.per_try_timeout == q.per_try_timeout)
    && same_bool p.overlap q.overlap
    && (p.backoff_duration == q.backoff_duration)
    && ite (jitter_eq p.backoff_jitter q.backoff_jitter) true false
    && same_bool p.backoff_exponential q.backoff_exponential

-- `jitter_up` is the random change of a delay.
module _ {J E : Type 0} (jitter_eq : Discrete J) (jitter_up : J → ℕ → ℕ) where
  unfoldable pub backoff : RetryPolicy J → TaskContext E → ℕ
  backoff p c =
      if c.retry_num == 0
      then 0
      else jitter_up p.backoff_jitter
          (exponent_base2 p.backoff_exponential p.backoff_duration c.retry_num)

  unfoldable pub new_retry_controller : RetryPolicy J → Options E
  new_retry_controller p = record {
    time_limit = 0;
    timeout_policy = λ _. p.per_try_timeout;
    interval_policy = backoff p;
    retry_policy = fixed_retry_count p.num_of_retries;
    concurrency_policy = λ _. p.overlap;
    timeout_err = timeout_exceeded;
    cancel_error = task_canceled;
  }

  unfoldable pub update_policy : RetryPolicy J → Wrapper J E → Wrapper J E
  update_policy p w =
      if p.version == w.policy.version
      then w
      else if same_policy jitter_eq p w.policy
      then w
      else record w { policy = p; controller = new_retry_controller p }

  unfoldable pub new_wrapper : String → RetryPolicy J → Wrapper J E
  new_wrapper name p = record { name = name; controller = new_retry_controller p; policy = p }

  -- `RetryControlByPolicy` on the map of the manager.
  unfoldable pub retry_control_by_policy :
      String → RetryPolicy J → GoMap (Wrapper J E) → Wrapper J E × GoMap (Wrapper J E)
  retry_control_by_policy name p ws = elim (lookup name ws) [
    | none ↦ (new_wrapper name p, insert name (new_wrapper name p) ws)
    | some w ↦ let w' = update_policy p w in (w', insert name w' ws)
  ]

-- An error of the invoker: a status with its code, or another error.
pub data Failure (F : Type 0) : Type 0 where
  status : ℕ → F → Failure F
  plain : F → Failure F

abbrev pub is_retriable : ℕ → List ℕ → Bool
is_retriable code [] = false
is_retriable code (c ∷ cs) =
    let later = is_retriable code cs in if c % 2 ^ 32 == code % 2 ^ 32 then true else later

-- What the task of `Invoke` of the wrapper tells its callback; none is success.
unfoldable pub report : {F : Type 0} → List ℕ → Option (Failure F) → Callback (Unit {0}) (Failure F)
report codes none = on_success tt
report codes (some (status code f)) =
    if is_retriable code codes
    then retry (other (status code f))
    else on_error (other (status code f))
report codes (some (plain f)) = on_error (other (plain f))
