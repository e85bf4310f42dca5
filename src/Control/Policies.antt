-- ===== src/Control/Policies.antt =====
-- How control_plugins/config.go reads the policies of a method. A setting of the method comes before
-- the one of its service. `range` over the set of codes has no order; here it is the order in which
-- the codes were put in. The spellings of a code's name, of third-party libraries, are a parameter.
use go_framework.Base.{
  ℕ, Bool, true, false, not, ◌&&◌, List, [], ◌∷◌, none, some, if◌then◌else◌, String, GoMap, lookup,
  insert, ite, ◌^◌,
}
use go_framework.Control.{ConfigReader, with_method}
use go_framework.Control.Ints.{ℤ, pos, negsuc, ℤ-discrete}

pub record ClientTimeoutPolicy : Type 0 where
  pub enabled : Bool
  pub version : ℕ
  pub timeout : ℤ
  pub conn_timeout : ℤ

pub record ServerTimeoutPolicy : Type 0 where
  pub enabled : Bool
  pub version : ℕ
  pub timeout : ℤ

pub record RetryPolicy (F : Type 0) : Type 0 where
  pub enabled : Bool
  pub version : ℕ
  pub num_of_retries : ℕ
  pub per_try_timeout : ℤ
  pub retriable_status_codes : List ℤ
  pub overlap : Bool
  pub backoff_duration : ℤ
  pub backoff_jitter : F
  pub backoff_exponential : Bool

pub record CircuitBreakerPolicy : Type 0 where
  pub enabled : Bool
  pub version : ℕ
  pub timeout : ℤ
  pub max_concurrent_requests : ℤ
  pub request_volume_threshold : ℤ
  pub sleep_window : ℤ
  pub error_percent_threshold : ℤ
  pub failure_status_code : List ℤ
  pub rolling_duration_in_sec : ℤ

pub record RateLimitPolicy : Type 0 where
  pub enabled : Bool
  pub version : ℕ
  pub max_request_per_unit : ℤ
  pub max_send_msg_per_unit : ℤ
  pub max_recv_msg_per_unit : ℤ
  pub unit : ℤ

-- `statusMap`.
module _ (spellings : ℕ → List String) where
  unfoldable pub fill_spellings : ℤ → List String → GoMap ℤ → GoMap ℤ
  fill_spellings code [] m = m
  fill_spellings code (s ∷ ss) m = fill_spellings code ss (insert s code m)

  unfoldable pub fill_status_map : List ℕ → GoMap ℤ → GoMap ℤ
  unfolding fill_spellings
  fill_status_map [] m = m
  fill_status_map (code ∷ cs) m = fill_status_map cs (fill_spellings (pos code) (spellings code) m)

-- The codes that `init` fills in, from `codes.OK`.
abbrev pub filled_codes : List ℕ
filled_codes = 0 ∷ 1 ∷ 2 ∷ 3 ∷ 4 ∷ 5 ∷ 6 ∷ 7 ∷ 8 ∷ 9 ∷ 10 ∷ 11 ∷ 12 ∷ 13 ∷ 14 ∷ 15 ∷ 16 ∷ []

-- `c[code] = struct{}{}`.
unfoldable pub add_code : ℤ → List ℤ → List ℤ
add_code i [] = i ∷ []
add_code i (j ∷ js) = ite (ℤ-discrete i j) (j ∷ js) (j ∷ add_code i js)

unfoldable pub add_codes : List ℤ → List ℤ → List ℤ
unfolding add_code
add_codes [] c = c
add_codes (i ∷ is) c = add_codes is (add_code i c)

unfoldable pub add_statuses : GoMap ℤ → List String → List ℤ → List ℤ
unfolding add_code
add_statuses m [] c = c
add_statuses m (s ∷ ss) c =
    add_statuses m ss (elim (lookup s m) [ none ↦ c | some i ↦ add_code i c ])

module _ {F : Type 0} (cfg : ConfigReader F) (method : String) where
  -- A setting under the method's key, else under the service's, else the default.
  unfoldable pub layered : {A : Type 0} → (String → A) → A → String → A
  unfolding with_method
  layered get default key =
      if cfg.has (with_method method key)
      then get (with_method method key)
      else if cfg.has key
      then get key
      else default

  unfoldable pub is_enabled : String → Bool
  unfolding with_method
  is_enabled key = not (not (cfg.bool (with_method method key)) && not (cfg.bool key))

  unfoldable pub read_codes : GoMap ℤ → String → String → List ℤ
  unfolding layered add_codes add_statuses
  read_codes m codes_key status_key =
      add_statuses m (layered cfg.string_list [] status_key)
        (add_codes (layered cfg.int_list [] codes_key) [])

  unfoldable pub client_timeout_policy : ℕ → ClientTimeoutPolicy
  unfolding is_enabled layered
  client_timeout_policy now =
      if is_enabled "client_timeout.enable"
      then record {
        enabled = true;
        version = now;
        timeout = layered cfg.duration (pos 0) "client_timeout.request_timeout";
        conn_timeout = layered cfg.duration (pos 0) "client_timeout.conn_timeout";
      }
      else record { enabled = false; version = now; timeout = pos 0; conn_timeout = pos 0 }

  unfoldable pub server_timeout_policy : ℕ → ServerTimeoutPolicy
  unfolding is_enabled layered
  server_timeout_policy now =
      if is_enabled "server_timeout.enable"
      then record {
        enabled = true;
        version = now;
        timeout = layered cfg.duration (pos 0) "server_timeout.request_timeout";
      }
      else record { enabled = false; version = now; timeout = pos 0 }

  -- `zero` and `fifth` are the floating-point numbers 0 and 0.2.
  unfoldable pub retry_policy : GoMap ℤ → F → F → ℕ → RetryPolicy F
  unfolding is_enabled layered read_codes
  retry_policy statuses zero fifth now =
      if is_enabled "retry.enable"
      then record {
        enabled = true;
        version = now;
        num_of_retries = layered cfg.uint 0 "retry.num_of_retries";
        per_try_timeout = layered cfg.duration (pos 0) "retry.per_try_timeout";
        retriable_status_codes =
            read_codes statuses "retry.retriable_status_codes" "retry.retriable_status";
        overlap = layered cfg.bool false "retry.overlap";
        backoff_duration = layered cfg.duration (pos 0) "retry.backoff_duration";
        backoff_jitter = layered cfg.float64 fifth "retry.backoff_jitter";
        backoff_exponential = layered cfg.bool true "retry.backoff_exponential";
      }
      else record {
        enabled = false;
        version = now;
        num_of_retries = 0;
        per_try_timeout = pos 0;
        retriable_status_codes = [];
        overlap = false;
        backoff_duration = pos 0;
        backoff_jitter = zero;
        backoff_exponential = false;
      }

  unfoldable pub circuit_breaker_policy : GoMap ℤ → ℕ → CircuitBreakerPolicy
  unfolding is_enabled layered read_codes
  circuit_breaker_policy statuses now =
      if is_enabled "circuit_breaker.enable"
      then record {
        enabled = true;
        version = now;
        timeout = layered cfg.duration (pos 0) "circuit_breaker.timeout";
        max_concurrent_requests =
            layered cfg.int (negsuc 0) "circuit_breaker.max_concurrent_requests";
        request_volume_threshold =
            layered cfg.int (pos 0) "circuit_breaker.request_volume_threshold";
        sleep_window = layered cfg.duration (pos 0) "circuit_breaker.sleep_window";
        error_percent_threshold = layered cfg.int (pos 0) "circuit_breaker.error_percent_threshold";
        failure_status_code =
            read_codes statuses "circuit_breaker.failure_status_codes"
              "circuit_breaker.failure_status";
        rolling_duration_in_sec = layered cfg.int (pos 0) "circuit_breaker.rolling_duration";
      }
      else record {
        enabled = false;
        version = now;
        timeout = pos 0;
        max_concurrent_requests = pos 0;
        request_volume_threshold = pos 0;
        sleep_window = pos 0;
        error_percent_threshold = pos 0;
        failure_status_code = [];
        rolling_duration_in_sec = pos 0;
      }

  unfoldable pub rate_limit_policy : ℕ → RateLimitPolicy
  unfolding is_enabled layered
  rate_limit_policy now =
      if is_enabled "rate_limit.enable"
      then record {
        enabled = true;
        version = now;
        max_request_per_unit = layered cfg.int (negsuc 0) "rate_limit.max_request_per_unit";
        max_send_msg_per_unit = layered cfg.int (negsuc 0) "rate_limit.max_send_msg_per_unit";
        max_recv_msg_per_unit = layered cfg.int (negsuc 0) "rate_limit.max_recv_msg_per_unit";
        unit = layered cfg.duration (pos (10 ^ 9)) "rate_limit.unit";
      }
      else record {
        enabled = false;
        version = now;
        max_request_per_unit = pos 0;
        max_send_msg_per_unit = pos 0;
        max_recv_msg_per_unit = pos 0;
        unit = pos 0;
      }
