-- ===== src/RateLimit.antt =====
-- rate_limit/rate_limit.go and export.go: the limiter of requests and messages, by service, method and
-- kind, which follows the policy that Control returns. The token bucket is third-party code: a record
-- of what the package relies on.
pub mod Follows
mod Tests
use Prim.Native.String.{◌++◌}
use go_framework.Base.{
  ℕ, zero, suc, ◌/◌, Bool, true, false, not, ◌&&◌, ◌||◌, ◌==◌, List, [], ◌∷◌, Option, none, some,
  if◌then◌else◌, String, GoMap, lookup, insert, ltb, ite, ◌≡◌,
}
use go_framework.Control.Ints.{ℤ, pos, negsuc, not_positive, ℤ-discrete}
use go_framework.Control.Policies.{RateLimitPolicy}

-- A bucket that is made with the interval between two tokens and its capacity, and gives as many
-- tokens as it has at a time, at most those asked for. Making one panics, here none, where the interval
-- is not positive. Taking leaves the rate as it is.
pub record Buckets (B : Type 0) : Type 0 where
  pub new_bucket : ℤ → ℕ → Option B
  pub take_available : ℕ → ℕ → B → B × ℕ
  pub rate : B → ℤ × ℕ
  pub new_bucket-panics : (i : ℤ) (c : ℕ) → not_positive i ≡ true → new_bucket i c ≡ none
  pub rate-new_bucket :
      (i : ℤ) (c : ℕ)
      → not_positive i ≡ false
      → ltb 0 c ≡ true
      → (b : B) × (new_bucket i c ≡ some b) × (rate b ≡ (i, c))
  pub rate-take_available : (t n : ℕ) (b : B) → rate (take_available t n b).0 ≡ rate b

pub data LimiterType : Type 0 where
  request_limiter : LimiterType
  send_msg_limiter : LimiterType
  recv_msg_limiter : LimiterType

-- `requestPerUnit`, by the kind of limiter.
unfoldable pub per_unit : LimiterType → RateLimitPolicy → ℤ
per_unit request_limiter p = p.max_request_per_unit
per_unit send_msg_limiter p = p.max_send_msg_per_unit
per_unit recv_msg_limiter p = p.max_recv_msg_per_unit

unfoldable pub limiter_name : LimiterType → String → String
limiter_name request_limiter key = key ++ "0"
limiter_name send_msg_limiter key = key ++ "1"
limiter_name recv_msg_limiter key = key ++ "2"

unfoldable pub negated : ℕ → ℤ
negated zero = pos 0
negated (suc n) = negsuc n

-- `/` of a signed number by one that is not negative: towards zero.
unfoldable pub quotient : ℤ → ℕ → ℤ
unfolding negated
quotient (pos u) n = pos (u / n)
quotient (negsuc u) n = negated (suc u / n)

-- `int64` of a number that is positive.
unfoldable pub capacity_of : ℤ → ℕ
capacity_of (pos n) = n
capacity_of (negsuc n) = 0

unfoldable pub same_flag : Bool → Bool → Bool
same_flag true b = b
same_flag false b = not b

unfoldable pub same_int : ℤ → ℤ → Bool
same_int i j = ite (ℤ-discrete i j) true false

-- What `UpdatePolicy` compares.
unfoldable pub same_settings : RateLimitPolicy → RateLimitPolicy → Bool
unfolding same_flag same_int
same_settings p q =
    same_flag p.enabled q.enabled
    && same_int p.max_request_per_unit q.max_request_per_unit
    && same_int p.max_send_msg_per_unit q.max_send_msg_per_unit
    && same_int p.max_recv_msg_per_unit q.max_recv_msg_per_unit
    && same_int p.unit q.unit

pub record LimiterWrapper (B : Type 0) : Type 0 where
  pub rate_limiter : B
  pub limiter_policy : RateLimitPolicy

-- What a call of the handler does: it passes the message on, rejects it, or panics.
pub data Verdict : Type 0 where
  passes : Verdict
  exhausted : Verdict
  panics : Verdict

-- The wrapper for a policy, or the one that a panic leaves behind.
pub data Limiter (B : Type 0) : Type 0 where
  ready : LimiterWrapper B → Limiter B
  panicked : Option (LimiterWrapper B) → Limiter B

unfoldable pub is_limited : LimiterType → RateLimitPolicy → Bool
unfolding per_unit
is_limited typ p = p.enabled && not (not_positive (per_unit typ p))

unfoldable pub store_taken :
    {B : Type 0}
    → String
    → LimiterWrapper B × Verdict
    → GoMap (LimiterWrapper B)
    → GoMap (LimiterWrapper B) × Verdict
store_taken name (w, v) m = (insert name w m, v)

module _ {B : Type 0} (bs : Buckets B) (typ : LimiterType) where
  unfoldable pub bucket_for : RateLimitPolicy → Option B
  unfolding per_unit quotient capacity_of
  bucket_for p =
      bs.new_bucket (quotient p.unit (capacity_of (per_unit typ p))) (capacity_of (per_unit typ p))

  unfoldable pub new_limiter_wrapper : RateLimitPolicy → Option B → Limiter B
  new_limiter_wrapper p none = panicked none
  new_limiter_wrapper p (some b) = ready (record { rate_limiter = b; limiter_policy = p })

  -- The end of `UpdatePolicy`: the policy is exchanged before the bucket.
  unfoldable pub renew : RateLimitPolicy → LimiterWrapper B → Option B → Limiter B
  renew p w none = panicked (some (record w { limiter_policy = p }))
  renew p w (some b) = ready (record { rate_limiter = b; limiter_policy = p })

  -- `rateLimiterWrapper.UpdatePolicy`.
  unfoldable pub update_limiter : RateLimitPolicy → LimiterWrapper B → Limiter B
  unfolding same_settings renew bucket_for
  update_limiter p w =
      if (p.version == w.limiter_policy.version) || same_settings p w.limiter_policy
      then ready w
      else renew p w (bucket_for p)

  -- `RateLimiterWithPolicy`: the wrapper whose bucket it returns.
  unfoldable pub limiter_with_policy : RateLimitPolicy → Option (LimiterWrapper B) → Limiter B
  unfolding update_limiter new_limiter_wrapper bucket_for
  limiter_with_policy p none = new_limiter_wrapper p (bucket_for p)
  limiter_with_policy p (some w) = update_limiter p w

  -- `TakeAvailable(1) > 0` on the bucket at a time, with the wrapper after it.
  unfoldable pub take_one : ℕ → LimiterWrapper B → LimiterWrapper B × Verdict
  take_one now w =
      let (b, n) = bs.take_available now 1 w.rate_limiter in
      (record w { rate_limiter = b }, if ltb 0 n then passes else exhausted)

  unfoldable pub take_from :
      String → ℕ → Limiter B → GoMap (LimiterWrapper B) → GoMap (LimiterWrapper B) × Verdict
  unfolding take_one store_taken
  take_from name now (ready w) m = store_taken name (take_one now w) m
  take_from name now (panicked none) m = (m, panics)
  take_from name now (panicked (some w)) m = (insert name w m, panics)

  -- `requestRateLimitHandler`, and `SendMsg` and `RecvMsg` of the stream, before what they pass on to.
  unfoldable pub limit_call :
      String → RateLimitPolicy → ℕ → GoMap (LimiterWrapper B) → GoMap (LimiterWrapper B) × Verdict
  unfolding limiter_name is_limited limiter_with_policy take_from
  limit_call key p now m =
      if is_limited typ p
      then take_from (limiter_name typ key) now
          (limiter_with_policy p (lookup (limiter_name typ key) m)) m
      else (m, passes)

  -- Calls with their policies and times, the latest first.
  unfoldable pub limit_calls : String → List (RateLimitPolicy × ℕ) → GoMap (LimiterWrapper B)
  unfolding limit_call
  limit_calls key [] = []
  limit_calls key ((p, now) ∷ cs) = (limit_call key p now (limit_calls key cs)).0
