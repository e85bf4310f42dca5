-- ===== src/Control/Normal.antt =====
-- An enabled policy of the wrapper can be used, wrapping it again changes nothing, and the five kinds
-- of policy with these laws.
use go_framework.Base.{
  ℕ, Bool, true, false, List, [], ◌∷◌, if◌then◌else◌, ◌*◌, ◌^◌, String, GoMap, ◌≡◌, ◌≢◌, refl,
  arith, ap, ◌∙◌, Bool-cases, inl, inr,
}
use go_framework.Control.{ConfigReader}
use go_framework.Control.Ints.{
  ℤ, pos, negsuc, leb_int, not_positive, is_zero, insert_int, sort_ints,
}
use go_framework.Control.Policies.{
  RetryPolicy, CircuitBreakerPolicy, RateLimitPolicy, circuit_breaker_policy,
}
use go_framework.Control.Wrapped.{
  or_default, codes_or, wrap_retry, wrap_circuit_breaker, wrap_rate_limit,
}

abbrev pub IsSorted : List ℤ → Type 0
IsSorted [] = Unit
IsSorted (i ∷ []) = Unit
IsSorted (i ∷ j ∷ js) = (leb_int i j ≡ true) × IsSorted (j ∷ js)

leb_int_total : (i j : ℤ) → leb_int i j ≡ false → leb_int j i ≡ true
leb_int_total (pos a) (pos b) h = ground arith
leb_int_total (pos a) (negsuc b) h = refl
leb_int_total (negsuc a) (pos b) h = cc
leb_int_total (negsuc a) (negsuc b) h = ground arith

insert_int-IsSorted : (i : ℤ) (js : List ℤ) → IsSorted js → IsSorted (insert_int i js)
unfolding insert_int
insert_int-IsSorted i [] h = tt
insert_int-IsSorted i (j ∷ []) h = elim (Bool-cases (leb_int i j)) [
  | inl e ↦ rw e (e, tt)
  | inr e ↦ rw e (leb_int_total i j e, tt)
]
insert_int-IsSorted i (j ∷ k ∷ ks) h = elim (Bool-cases (leb_int i j)) [
  | inl e ↦ rw e (e, h)
  | inr e ↦
      rw e (between (leb_int i k) refl (leb_int_total i j e) (insert_int-IsSorted i (k ∷ ks) h.1))
]
  where
    between :
        (b : Bool)
        → leb_int i k ≡ b
        → leb_int j i ≡ true
        → IsSorted (if b then i ∷ k ∷ ks else k ∷ insert_int i ks)
        → IsSorted (j ∷ (if b then i ∷ k ∷ ks else k ∷ insert_int i ks))
    between true e f r = (f, r)
    between false e f r = (h.0, r)

sort_ints-IsSorted : (is : List ℤ) → IsSorted (sort_ints is)
unfolding sort_ints
sort_ints-IsSorted [] = tt
sort_ints-IsSorted (i ∷ is) = insert_int-IsSorted i (sort_ints is) (sort_ints-IsSorted is)

sort_ints_sorted : (is : List ℤ) → IsSorted is → sort_ints is ≡ is
unfolding sort_ints insert_int
sort_ints_sorted [] h = refl
sort_ints_sorted (i ∷ []) h = refl
sort_ints_sorted (i ∷ j ∷ js) h = ap (insert_int i) (sort_ints_sorted (j ∷ js) h.1) ∙ rw h.0 refl

abbrev IsFilled : List ℤ → Type 0
IsFilled [] = ⊥
IsFilled (i ∷ is) = Unit

codes_or_filled : (d is : List ℤ) → IsFilled is → codes_or d is ≡ is
unfolding codes_or
codes_or_filled d [] h = absurd h
codes_or_filled d (i ∷ is) h = refl

insert_int-IsFilled : (i : ℤ) (is : List ℤ) → IsFilled (insert_int i is)
unfolding insert_int
insert_int-IsFilled i [] = tt
insert_int-IsFilled i (j ∷ js) = elim (Bool-cases (leb_int i j)) [
  | inl e ↦ rw e tt
  | inr e ↦ rw e tt
]

sort_codes-IsFilled : (i : ℤ) (d is : List ℤ) → IsFilled (sort_ints (codes_or (i ∷ d) is))
unfolding sort_ints codes_or
sort_codes-IsFilled i d [] = insert_int-IsFilled i (sort_ints d)
sort_codes-IsFilled i d (j ∷ js) = insert_int-IsFilled j (sort_ints js)

sort_codes_again :
    (i : ℤ) (d is : List ℤ)
    → sort_ints (codes_or (i ∷ d) (sort_ints (codes_or (i ∷ d) is)))
      ≡ sort_ints (codes_or (i ∷ d) is)
sort_codes_again i d is =
    ap sort_ints (codes_or_filled (i ∷ d) _ (sort_codes-IsFilled i d is))
    ∙ sort_ints_sorted _ (sort_ints-IsSorted (codes_or (i ∷ d) is))

or_default_again :
    (f : ℤ → Bool) (d i : ℤ)
    → f d ≡ false
    → (f (or_default f d i) ≡ false) × (or_default f d (or_default f d i) ≡ or_default f d i)
unfolding or_default
or_default_again f d i h = ground arith

codes_or_again :
    (i : ℤ) (d is : List ℤ) → codes_or (i ∷ d) (codes_or (i ∷ d) is) ≡ codes_or (i ∷ d) is
unfolding codes_or
codes_or_again i d [] = refl
codes_or_again i d (j ∷ js) = refl

pub wrap_retry_again : {F : Type 0} (p : RetryPolicy F) → wrap_retry (wrap_retry p) ≡ wrap_retry p
unfolding wrap_retry
wrap_retry_again p = ground (
  arith,
  codes_or_again (pos 4) [] p.retriable_status_codes,
  or_default_again is_zero (pos (500 * 10 ^ 6)) p.backoff_duration refl,
)

pub wrap_circuit_breaker_again :
    (p : CircuitBreakerPolicy)
    → wrap_circuit_breaker (wrap_circuit_breaker p) ≡ wrap_circuit_breaker p
unfolding wrap_circuit_breaker
wrap_circuit_breaker_again p = ground (
  arith,
  sort_codes_again (pos 2) (pos 4 ∷ pos 8 ∷ pos 13 ∷ pos 14 ∷ []) p.failure_status_code,
  or_default_again not_positive (pos 50) p.error_percent_threshold refl,
  or_default_again not_positive (pos 20) p.request_volume_threshold refl,
  or_default_again not_positive (pos (5 * 10 ^ 9)) p.sleep_window refl,
  or_default_again is_zero (negsuc 0) p.max_concurrent_requests refl,
  or_default_again not_positive (pos 10) p.rolling_duration_in_sec refl,
)

pub wrap_rate_limit_again :
    (p : RateLimitPolicy) → wrap_rate_limit (wrap_rate_limit p) ≡ wrap_rate_limit p
unfolding wrap_rate_limit
wrap_rate_limit_again p = ground (
  arith,
  or_default_again is_zero (negsuc 0) p.max_request_per_unit refl,
  or_default_again is_zero (negsuc 0) p.max_send_msg_per_unit refl,
  or_default_again is_zero (negsuc 0) p.max_recv_msg_per_unit refl,
  or_default_again is_zero (pos (10 ^ 9)) p.unit refl,
)

-- What a circuit breaker needs.
pub record IsUsable (p : CircuitBreakerPolicy) : Type 0 where
  pub error_percent : not_positive p.error_percent_threshold ≡ false
  pub volume : not_positive p.request_volume_threshold ≡ false
  pub window : not_positive p.sleep_window ≡ false
  pub requests : is_zero p.max_concurrent_requests ≡ false
  pub rolling : not_positive p.rolling_duration_in_sec ≡ false
  pub codes : IsSorted p.failure_status_code
  pub filled : p.failure_status_code ≢ []

filled_ne : (is : List ℤ) → IsFilled is → is ≢ []
filled_ne [] h e = absurd h
filled_ne (i ∷ is) h e = cc

wrapped-IsUsable : (p : CircuitBreakerPolicy) → p.enabled ≡ true → IsUsable (wrap_circuit_breaker p)
unfolding wrap_circuit_breaker
wrapped-IsUsable p h = rw h (record {
  error_percent = (or_default_again not_positive (pos 50) p.error_percent_threshold refl).0;
  volume = (or_default_again not_positive (pos 20) p.request_volume_threshold refl).0;
  window = (or_default_again not_positive (pos (5 * 10 ^ 9)) p.sleep_window refl).0;
  requests = (or_default_again is_zero (negsuc 0) p.max_concurrent_requests refl).0;
  rolling = (or_default_again not_positive (pos 10) p.rolling_duration_in_sec refl).0;
  codes =
      sort_ints-IsSorted
        (codes_or (pos 2 ∷ pos 4 ∷ pos 8 ∷ pos 13 ∷ pos 14 ∷ []) p.failure_status_code);
  filled =
      filled_ne _
        (sort_codes-IsFilled (pos 2) (pos 4 ∷ pos 8 ∷ pos 13 ∷ pos 14 ∷ []) p.failure_status_code);
})

-- Whatever the configuration sets, an enabled policy for a circuit breaker, wrapped, has positive
-- thresholds, a positive window and rolling, a limit of requests that is not zero, and failure
-- codes, which are sorted; wrapping it again changes nothing.
pub wrap_circuit_breaker-IsUsable :
    {F : Type 0} (c : ConfigReader F) (m : String) (statuses : GoMap ℤ) (t : ℕ)
    → (circuit_breaker_policy c m statuses t).enabled ≡ true
    → let p = wrap_circuit_breaker (circuit_breaker_policy c m statuses t) in
      IsUsable p × (wrap_circuit_breaker p ≡ p)
wrap_circuit_breaker-IsUsable c m statuses t h =
    (wrapped-IsUsable _ h, wrap_circuit_breaker_again _)
