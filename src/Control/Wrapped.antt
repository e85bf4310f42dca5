-- ===== src/Control/Wrapped.antt =====
-- control/wrapper.go: the defaults that the wrapper of a control plane puts into an enabled policy.
use go_framework.Base.{Bool, false, List, [], ◌∷◌, if◌then◌else◌, ◌==◌, ◌*◌, ◌^◌}
use go_framework.Control.Ints.{ℤ, pos, negsuc, not_positive, is_zero, sort_ints}
use go_framework.Control.Policies.{RetryPolicy, CircuitBreakerPolicy, RateLimitPolicy}

unfoldable pub or_default : (ℤ → Bool) → ℤ → ℤ → ℤ
or_default unset default i = if unset i then default else i

unfoldable pub codes_or : List ℤ → List ℤ → List ℤ
codes_or default [] = default
codes_or default (i ∷ is) = i ∷ is

-- `clientControlPlaneWrapper.RetryPolicy`.
unfoldable pub wrap_retry : {F : Type 0} → RetryPolicy F → RetryPolicy F
unfolding codes_or or_default
wrap_retry p =
    if p.enabled
    then if p.num_of_retries == 0 then record p { enabled = false } else record p {
      retriable_status_codes = codes_or (pos 4 ∷ []) p.retriable_status_codes;
      backoff_duration = or_default is_zero (pos (500 * 10 ^ 6)) p.backoff_duration;
    }
    else p

-- `serverControlPlaneWrapper.CircuitBreakerPolicy`.
unfoldable pub wrap_circuit_breaker : CircuitBreakerPolicy → CircuitBreakerPolicy
unfolding codes_or or_default sort_ints
wrap_circuit_breaker p =
    if p.enabled
    then record p {
      error_percent_threshold = or_default not_positive (pos 50) p.error_percent_threshold;
      request_volume_threshold = or_default not_positive (pos 20) p.request_volume_threshold;
      sleep_window = or_default not_positive (pos (5 * 10 ^ 9)) p.sleep_window;
      max_concurrent_requests = or_default is_zero (negsuc 0) p.max_concurrent_requests;
      rolling_duration_in_sec = or_default not_positive (pos 10) p.rolling_duration_in_sec;
      failure_status_code =
          sort_ints (codes_or (pos 2 ∷ pos 4 ∷ pos 8 ∷ pos 13 ∷ pos 14 ∷ []) p.failure_status_code);
    }
    else p

-- `serverControlPlaneWrapper.RateLimitPolicy`.
unfoldable pub wrap_rate_limit : RateLimitPolicy → RateLimitPolicy
unfolding or_default
wrap_rate_limit p =
    if p.enabled
    then record p {
      max_request_per_unit = or_default is_zero (negsuc 0) p.max_request_per_unit;
      max_send_msg_per_unit = or_default is_zero (negsuc 0) p.max_send_msg_per_unit;
      max_recv_msg_per_unit = or_default is_zero (negsuc 0) p.max_recv_msg_per_unit;
      unit = or_default is_zero (pos (10 ^ 9)) p.unit;
    }
    else p
