-- ===== src/Control/Tests.antt =====
-- The theorems on the policies of a control plane at concrete inputs, and runs.
use go_framework.Base.{
  text_discrete, lookup, ℕ, true, List, [], ◌∷◌, String, GoMap, ◌≡◌, refl, arith, ◌||◌,
  if◌then◌else◌,
}
use go_framework.Control.{ConfigReader, PolicyCall, PolicyKind, call_policies, policy_of_call}
use go_framework.Control.Ints.{ℤ, pos}
use go_framework.Control.Policies.{
  retry_policy, circuit_breaker_policy, CircuitBreakerPolicy, RetryPolicy,
}
use go_framework.Control.Wrapped.{wrap_retry, wrap_circuit_breaker}
use go_framework.Control.Kinds.{retry_kind}
use go_framework.Control.Fresh.{Fresh, policy_of_call-Fresh}
use go_framework.Control.Normal.{IsUsable, wrap_circuit_breaker-IsUsable}
use text.Mathlib.Text.{◌==◌}

-- A service that retries, whose method `Get` has its own number of retries.
abbrev retrying_service : ConfigReader ℕ
retrying_service = record {
  has = λ key.
      (key == "retry.num_of_retries")
      || (key == "Get.retry.num_of_retries")
      || (key == "retry.retriable_status");
  bool = λ key. (key == "retry.enable") || (key == "circuit_breaker.enable");
  duration = λ key. pos 0;
  int = λ key. pos 0;
  uint = λ key. if key == "Get.retry.num_of_retries" then 5 else 2;
  float64 = λ key. 0;
  int_list = λ key. [];
  string_list = λ key. "unavailable" ∷ "no such" ∷ [];
}

abbrev known_statuses : GoMap ℤ
known_statuses = ("unavailable", pos 14) ∷ []

abbrev call_at : String → ℕ → PolicyCall (ConfigReader ℕ)
call_at m t = record { config = retrying_service; method_name = m; tested = t; built = t }

abbrev retry_plane : PolicyKind (ConfigReader ℕ) (RetryPolicy ℕ)
retry_plane = retry_kind known_statuses 0 2

abbrev earlier_calls : List (PolicyCall (ConfigReader ℕ))
earlier_calls = call_at "Put" 3 ∷ call_at "Get" 1 ∷ []

policy_of_call-Fresh_example :
    Fresh retry_plane
      (call_at "Get" 20)
      earlier_calls
      (policy_of_call retry_plane (call_at "Get" 20) (call_policies retry_plane earlier_calls))
policy_of_call-Fresh_example =
    policy_of_call-Fresh retry_plane (call_at "Get" 20) earlier_calls (omega arith)

get_retries :
    (wrap_retry (retry_policy retrying_service "Get" known_statuses 0 2 1)).num_of_retries ≡ 5
unfolding wrap_retry retry_policy
get_retries = refl

put_retries :
    (wrap_retry (retry_policy retrying_service "Put" known_statuses 0 2 1)).retriable_status_codes
    ≡ pos 14 ∷ []
unfolding wrap_retry retry_policy lookup text_discrete
put_retries = refl

abbrev wrapped_breaker : CircuitBreakerPolicy
wrapped_breaker =
    wrap_circuit_breaker (circuit_breaker_policy retrying_service "Get" known_statuses 1)

breaker_enabled : (circuit_breaker_policy retrying_service "Get" known_statuses 1).enabled ≡ true
unfolding circuit_breaker_policy
breaker_enabled = refl

wrap_circuit_breaker-IsUsable_example :
    IsUsable wrapped_breaker × (wrap_circuit_breaker wrapped_breaker ≡ wrapped_breaker)
wrap_circuit_breaker-IsUsable_example =
    wrap_circuit_breaker-IsUsable retrying_service "Get" known_statuses 1 breaker_enabled
