-- ===== src/RateLimit/Tests.antt =====
-- The theorem on limiters at a concrete input, and runs.
use go_framework.Base.{
  ℕ, ◌-◌, true, false, Bool-cases, inl, inr, Option, none, List, [], ◌∷◌, some, ◌≡◌, refl, arith,
  lookup, insert, ltb, if◌then◌else◌, text_discrete,
}
use go_framework.Control.Ints.{ℤ, pos, not_positive, ℤ-discrete}
use go_framework.Control.Policies.{RateLimitPolicy}
use go_framework.RateLimit.{
  Buckets, request_limiter, limiter_name, LimiterWrapper, exhausted, limit_call, limit_calls,
  capacity_of, per_unit, take_one, is_limited, panics, same_settings, same_int, same_flag, quotient,
}
use go_framework.RateLimit.Follows.{rate_of, Takes, IsFillable, limit_call-rate, limit_call-panics}

-- A bucket that is never filled again.
pub record Bucket : Type 0 where
  pub interval : ℤ
  pub room : ℕ
  pub tokens : ℕ

abbrev dry_take : ℕ → ℕ → Bucket → Bucket × ℕ
dry_take t n b =
    if ltb b.tokens n
    then (record b { tokens = 0 }, b.tokens)
    else (record b { tokens = b.tokens - n }, n)

abbrev dry_rate : Bucket → ℤ × ℕ
dry_rate b = (b.interval, b.room)

dry_rate-dry_take : (t n : ℕ) (b : Bucket) → dry_rate (dry_take t n b).0 ≡ dry_rate b
dry_rate-dry_take t n b = ground arith

abbrev dry_bucket : ℤ → ℕ → Option Bucket
dry_bucket i c =
    if not_positive i then none else some (record { interval = i; room = c; tokens = c })

dry_bucket-rate :
    (i : ℤ) (c : ℕ)
    → not_positive i ≡ false
    → ltb 0 c ≡ true
    → (b : Bucket) × (dry_bucket i c ≡ some b) × (dry_rate b ≡ (i, c))
dry_bucket-rate i c h k = rw h (_, refl, refl)

dry_bucket_panics : (i : ℤ) (c : ℕ) → not_positive i ≡ true → dry_bucket i c ≡ none
dry_bucket_panics i c h = rw h refl

abbrev dry_buckets : Buckets Bucket
dry_buckets = record {
  new_bucket = dry_bucket;
  take_available = dry_take;
  rate = dry_rate;
  new_bucket-panics = dry_bucket_panics;
  rate-new_bucket = dry_bucket-rate;
  rate-take_available = dry_rate-dry_take;
}

abbrev limit_at : ℕ → RateLimitPolicy
limit_at v = record {
  enabled = true;
  version = v;
  max_request_per_unit = pos (if ltb v 5 then 1 else 2);
  max_send_msg_per_unit = pos 0;
  max_recv_msg_per_unit = pos 0;
  unit = pos 1000;
}

abbrev two_calls : List (RateLimitPolicy × ℕ)
two_calls = (limit_at 4, 20) ∷ (limit_at 3, 10) ∷ []

second_rejected :
    (limit_call dry_buckets request_limiter "s/M"
      (limit_at 4)
      20
      (limit_calls dry_buckets request_limiter "s/M" ((limit_at 3, 10) ∷ []))).1
    ≡ exhausted
unfolding limit_call limit_calls lookup insert text_discrete ℤ-discrete
second_rejected = refl

limit_at-limited : is_limited request_limiter (limit_at 6) ≡ true
unfolding is_limited
limit_at-limited = refl

fillable : (v : ℕ) → IsFillable dry_buckets request_limiter "s/M" limit_at (limit_at v)
unfolding is_limited quotient capacity_of
fillable v = elim (Bool-cases (ltb v 5)) [ inl e ↦ rw e refl | inr n ↦ rw n refl ]

limit_call-rate_example : Takes dry_buckets request_limiter "s/M" limit_at (limit_at 6) 30 (
    limit_call dry_buckets request_limiter "s/M"
      (limit_at 6)
      30
      (limit_calls dry_buckets request_limiter "s/M" two_calls))
limit_call-rate_example =
    limit_call-rate dry_buckets request_limiter "s/M" limit_at (limit_at 6) 30 two_calls
      ((refl, fillable 6), ((refl, fillable 4), ((refl, fillable 3), tt))) limit_at-limited

-- A limit of one request in no time at all.
abbrev no_unit : RateLimitPolicy
no_unit = record (limit_at 7) { unit = pos 0 }

abbrev one_limiter : LimiterWrapper Bucket
one_limiter = record {
  rate_limiter = record { interval = pos 1000; room = 1; tokens = 1 };
  limiter_policy = limit_at 3;
}

no_unit-limited : is_limited request_limiter no_unit ≡ true
unfolding is_limited
no_unit-limited = refl

no_unit-interval : not_positive (rate_of request_limiter no_unit).0 ≡ true
unfolding quotient capacity_of per_unit
no_unit-interval = refl

no_unit_differs : same_settings no_unit one_limiter.limiter_policy ≡ false
unfolding same_settings same_int same_flag ℤ-discrete
no_unit_differs = refl

limit_call-panics_example :
    let (m', v) =
      limit_call dry_buckets request_limiter "s/M" no_unit 40 (("s/M0", one_limiter) ∷ []) in
    let kept : LimiterWrapper Bucket = record one_limiter { limiter_policy = no_unit } in
    (v ≡ panics)
    × ((limit_call dry_buckets request_limiter "s/M" no_unit 50 m').1
        ≡ (take_one dry_buckets request_limiter 50 kept).1)
unfolding lookup text_discrete limiter_name
limit_call-panics_example =
    limit_call-panics dry_buckets request_limiter "s/M" no_unit 40 50 one_limiter
      (("s/M0", one_limiter) ∷ []) no_unit-limited no_unit-interval refl refl no_unit_differs
