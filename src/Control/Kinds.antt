-- ===== src/Control/Kinds.antt =====
-- The five kinds of policy of the control plugin, with the laws by which a plane keeps them.
use go_framework.Base.{ℕ, String, GoMap, ◌≡◌, refl, arith}
use go_framework.Control.{ConfigReader, PolicyKind}
use go_framework.Control.Ints.{ℤ}
use go_framework.Control.Policies.{
  ClientTimeoutPolicy, ServerTimeoutPolicy, RetryPolicy, CircuitBreakerPolicy, RateLimitPolicy,
  client_timeout_policy, server_timeout_policy, retry_policy, circuit_breaker_policy,
  rate_limit_policy,
}
use go_framework.Control.Wrapped.{wrap_retry, wrap_circuit_breaker, wrap_rate_limit}
use go_framework.Control.Normal.{
  wrap_retry_again, wrap_circuit_breaker_again, wrap_rate_limit_again,
}

pub wrap_retry-version : {F : Type 0} (p : RetryPolicy F) → (wrap_retry p).version ≡ p.version
unfolding wrap_retry
wrap_retry-version p = ground arith

pub wrap_circuit_breaker-version :
    (p : CircuitBreakerPolicy) → (wrap_circuit_breaker p).version ≡ p.version
unfolding wrap_circuit_breaker
wrap_circuit_breaker-version p = ground arith

pub wrap_rate_limit-version : (p : RateLimitPolicy) → (wrap_rate_limit p).version ≡ p.version
unfolding wrap_rate_limit
wrap_rate_limit-version p = ground arith

module _ {F : Type 0} (c : ConfigReader F) (m : String) (t : ℕ) where
  pub client_timeout_policy-version : (client_timeout_policy c m t).version ≡ t
  unfolding client_timeout_policy
  client_timeout_policy-version = ground arith

  pub server_timeout_policy-version : (server_timeout_policy c m t).version ≡ t
  unfolding server_timeout_policy
  server_timeout_policy-version = ground arith

  pub rate_limit_policy-version : (rate_limit_policy c m t).version ≡ t
  unfolding rate_limit_policy
  rate_limit_policy-version = ground arith

  module _ (statuses : GoMap ℤ) where
    pub circuit_breaker_policy-version : (circuit_breaker_policy c m statuses t).version ≡ t
    unfolding circuit_breaker_policy
    circuit_breaker_policy-version = ground arith

    pub retry_policy-version : (z f : F) → (retry_policy c m statuses z f t).version ≡ t
    unfolding retry_policy
    retry_policy-version z f = ground arith

module _ {F : Type 0} (statuses : GoMap ℤ) (zero_float fifth : F) where
  unfoldable pub retry_kind : PolicyKind (ConfigReader F) (RetryPolicy F)
  retry_kind = record {
    version = λ p. p.version;
    from_config = λ c m. retry_policy c m statuses zero_float fifth;
    complete = wrap_retry;
    version-from_config = λ c m t. retry_policy-version c m t statuses zero_float fifth;
    version-complete = wrap_retry-version;
    complete-complete = wrap_retry_again;
  }

module _ {F : Type 0} where
  unfoldable pub circuit_breaker_kind : GoMap ℤ → PolicyKind (ConfigReader F) CircuitBreakerPolicy
  circuit_breaker_kind statuses = record {
    version = λ p. p.version;
    from_config = λ c m. circuit_breaker_policy c m statuses;
    complete = wrap_circuit_breaker;
    version-from_config = λ c m t. circuit_breaker_policy-version c m t statuses;
    version-complete = wrap_circuit_breaker-version;
    complete-complete = wrap_circuit_breaker_again;
  }

  unfoldable pub rate_limit_kind : PolicyKind (ConfigReader F) RateLimitPolicy
  rate_limit_kind = record {
    version = λ p. p.version;
    from_config = rate_limit_policy;
    complete = wrap_rate_limit;
    version-from_config = rate_limit_policy-version;
    version-complete = wrap_rate_limit-version;
    complete-complete = wrap_rate_limit_again;
  }

  -- The wrapper passes the policies of a timeout on.
  unfoldable pub client_timeout_kind : PolicyKind (ConfigReader F) ClientTimeoutPolicy
  client_timeout_kind = record {
    version = λ p. p.version;
    from_config = client_timeout_policy;
    complete = λ p. p;
    version-from_config = client_timeout_policy-version;
    version-complete = λ p. refl;
    complete-complete = λ p. refl;
  }

  unfoldable pub server_timeout_kind : PolicyKind (ConfigReader F) ServerTimeoutPolicy
  server_timeout_kind = record {
    version = λ p. p.version;
    from_config = server_timeout_policy;
    complete = λ p. p;
    version-from_config = server_timeout_policy-version;
    version-complete = λ p. refl;
    complete-complete = λ p. refl;
  }
