-- ===== src/RateLimit/Follows.antt =====
-- The bucket of a limiter has the rate of the policy that its last call had.
use mathlib.Core.Path.{subst}
use go_framework.Base.{
  ℕ, zero, suc, ltb, Bool, true, false, List, [], ◌∷◌, Option, none, some, ◌≡◌, refl, sym, ap, ◌∙◌,
  arith, String, GoMap, lookup, lookup-insert_self, ite, ◌&&◌, ◌==◌, Bool-cases, inl, inr,
}
use go_framework.Control.Ints.{ℤ, pos, negsuc, not_positive, ℤ-discrete}
use go_framework.Control.Policies.{RateLimitPolicy}
use go_framework.RateLimit.{
  Buckets, LimiterType, request_limiter, send_msg_limiter, recv_msg_limiter, per_unit, limiter_name,
  quotient, capacity_of, same_int, same_settings, LimiterWrapper, bucket_for, new_limiter_wrapper,
  update_limiter, Limiter, ready, panicked, Verdict, panics, renew, take_from, limiter_with_policy,
  take_one, is_limited, limit_call, limit_calls, store_taken,
}

same_int_eq : (i j : ℤ) → same_int i j ≡ true → i ≡ j
unfolding same_int
same_int_eq i j h = decided (ℤ-discrete i j) h
  where
    decided : (d : Dec (i ≡ j)) → ite d true false ≡ true → i ≡ j
    decided (yes e) h = e
    decided (no n) h = absurd (cc)

-- The interval and the capacity that a policy asks for.
abbrev pub rate_of : LimiterType → RateLimitPolicy → ℤ × ℕ
rate_of typ p = (quotient p.unit (capacity_of (per_unit typ p)), capacity_of (per_unit typ p))

and_left : (a b : Bool) → (a && b) ≡ true → a ≡ true
and_left true b h = refl
and_left false b h = h

and_right : (a b : Bool) → (a && b) ≡ true → b ≡ true
and_right true b h = h
and_right false b h = absurd (cc)

per_unit_eq :
    (typ : LimiterType) (p q : RateLimitPolicy)
    → p.max_request_per_unit ≡ q.max_request_per_unit
    → p.max_send_msg_per_unit ≡ q.max_send_msg_per_unit
    → p.max_recv_msg_per_unit ≡ q.max_recv_msg_per_unit
    → per_unit typ p ≡ per_unit typ q
unfolding per_unit
per_unit_eq request_limiter p q a b c = a
per_unit_eq send_msg_limiter p q a b c = b
per_unit_eq recv_msg_limiter p q a b c = c

same_settings-rate_of :
    (typ : LimiterType) (p q : RateLimitPolicy)
    → same_settings p q ≡ true
    → rate_of typ p ≡ rate_of typ q
unfolding same_settings
same_settings-rate_of typ p q h =
    let a : p.max_request_per_unit ≡ q.max_request_per_unit = same_int_eq _ _ (ground arith) in
    let b : p.max_send_msg_per_unit ≡ q.max_send_msg_per_unit = same_int_eq _ _ (ground arith) in
    let c : p.max_recv_msg_per_unit ≡ q.max_recv_msg_per_unit = same_int_eq _ _ (ground arith) in
    let u : p.unit ≡ q.unit = same_int_eq _ _ (ground arith) in
    ap (λ n. (quotient p.unit (capacity_of n), capacity_of n)) (per_unit_eq typ p q a b c)
    ∙ ap (λ i. (quotient i (capacity_of (per_unit typ q)), capacity_of (per_unit typ q))) u

module _ {B : Type 0} (bs : Buckets B) (typ : LimiterType) (key : String)
    (policy_at : ℕ → RateLimitPolicy) where
  -- The version of a policy determines it.
  abbrev pub IsVersioned : RateLimitPolicy → Type 0
  IsVersioned p = p ≡ policy_at p.version

  abbrev HasItsRate : LimiterWrapper B → Type 0
  HasItsRate w =
      (bs.rate w.rate_limiter ≡ rate_of typ w.limiter_policy) × IsVersioned w.limiter_policy

  -- The bucket has the rate of the policy.
  abbrev HasRate : RateLimitPolicy → LimiterWrapper B → Type 0
  HasRate p w = (bs.rate w.rate_limiter ≡ rate_of typ p) × HasItsRate w

  -- The policy does not limit, or the interval between two tokens is positive.
  abbrev pub IsFillable : RateLimitPolicy → Type 0
  IsFillable p = (is_limited typ p && not_positive (rate_of typ p).0) ≡ false

  -- The limiter is there, and its bucket has the rate of the policy.
  abbrev IsReady : RateLimitPolicy → Limiter B → Type 0
  IsReady p (ready w) = HasRate p w
  IsReady p (panicked o) = ⊥

  limited-capacity : (i : ℤ) → not_positive i ≡ false → ltb 0 (capacity_of i) ≡ true
  unfolding capacity_of
  limited-capacity (pos zero) h = absurd (cc)
  limited-capacity (pos (suc n)) h = ground arith
  limited-capacity (negsuc n) h = absurd (cc)

  -- A limiting policy with a positive interval has its bucket.
  bucket_for-rate :
      (p : RateLimitPolicy)
      → is_limited typ p ≡ true
      → IsFillable p
      → (b : B) × (bucket_for bs typ p ≡ some b) × (bs.rate b ≡ rate_of typ p)
  unfolding bucket_for
  bucket_for-rate p l h =
      bs.rate-new_bucket _ _ (ground arith)
        (limited-capacity (per_unit typ p) (unfold is_limited in ground arith))

  renew-IsReady :
      (p : RateLimitPolicy) (w : LimiterWrapper B)
      → IsVersioned p
      → is_limited typ p ≡ true
      → IsFillable p
      → IsReady p (renew bs typ p w (bucket_for bs typ p))
  unfolding renew
  renew-IsReady p w h l k = let (b, e, r) = bucket_for-rate p l k in rw e (r, (r, h))

  same_version :
      (p q : RateLimitPolicy) → IsVersioned p → IsVersioned q → p.version ≡ q.version → q ≡ p
  same_version p q h k e = k ∙ ap policy_at (sym e) ∙ sym h

  update_limiter-IsReady :
      (p : RateLimitPolicy) (w : LimiterWrapper B)
      → IsVersioned p
      → is_limited typ p ≡ true
      → IsFillable p
      → HasItsRate w
      → IsReady p (update_limiter bs typ p w)
  unfolding update_limiter
  update_limiter-IsReady p w h l f k = elim (Bool-cases (p.version == w.limiter_policy.version)) [
    | inl e ↦
        rw e (k.0 ∙ ap (rate_of typ) (same_version p w.limiter_policy h k.1 (ground arith)), k)
    | inr n ↦ rw n (elim (Bool-cases (same_settings p w.limiter_policy)) [
      | inl e ↦ rw e (k.0 ∙ sym (same_settings-rate_of typ p w.limiter_policy e), k)
      | inr d ↦ rw d (renew-IsReady p w h l f)
    ])
  ]

  abbrev Kept : Option (LimiterWrapper B) → Type 0
  Kept none = Unit
  Kept (some w) = HasItsRate w

  limiter_with_policy-IsReady :
      (p : RateLimitPolicy) (o : Option (LimiterWrapper B))
      → IsVersioned p
      → is_limited typ p ≡ true
      → IsFillable p
      → Kept o
      → IsReady p (limiter_with_policy bs typ p o)
  unfolding limiter_with_policy new_limiter_wrapper
  limiter_with_policy-IsReady p none h l f k =
      let (b, e, r) = bucket_for-rate p l f in rw e (r, (r, h))
  limiter_with_policy-IsReady p (some w) h l f k = update_limiter-IsReady p w h l f k

  take_one-HasRate :
      (p : RateLimitPolicy) (now : ℕ) (w : LimiterWrapper B)
      → HasRate p w
      → HasRate p (take_one bs typ now w).0
  unfolding take_one
  take_one-HasRate p now w h = (
    bs.rate-take_available now 1 w.rate_limiter ∙ h.0,
    (bs.rate-take_available now 1 w.rate_limiter ∙ h.1.0, h.1.1),
  )

  -- A token is taken from a bucket of the right rate, and this bucket is kept.
  abbrev pub Takes : RateLimitPolicy → ℕ → GoMap (LimiterWrapper B) × Verdict → Type 0
  Takes p now r =
      (w : LimiterWrapper B) × (bs.rate w.rate_limiter ≡ rate_of typ p)
      × (lookup (limiter_name typ key) r.0 ≡ some (take_one bs typ now w).0)
      × (r.1 ≡ (take_one bs typ now w).1)

  abbrev TakesAndKeeps : RateLimitPolicy → ℕ → GoMap (LimiterWrapper B) × Verdict → Type 0
  TakesAndKeeps p now r = Takes p now r × Kept (lookup (limiter_name typ key) r.0)

  take_from-TakesAndKeeps :
      (p : RateLimitPolicy) (now : ℕ) (x : Limiter B) (m : GoMap (LimiterWrapper B))
      → IsReady p x
      → TakesAndKeeps p now (take_from bs typ (limiter_name typ key) now x m)
  unfolding take_from store_taken
  take_from-TakesAndKeeps p now (panicked o) m h = absurd h
  take_from-TakesAndKeeps p now (ready w) m h =
      let e = lookup-insert_self (limiter_name typ key) (take_one bs typ now w).0 m in
      ((w, h.0, e, refl), subst Kept (sym e) (take_one-HasRate p now w h).1)

  limit_call-TakesAndKeeps :
      (p : RateLimitPolicy) (now : ℕ) (m : GoMap (LimiterWrapper B))
      → IsVersioned p
      → is_limited typ p ≡ true
      → IsFillable p
      → Kept (lookup (limiter_name typ key) m)
      → TakesAndKeeps p now (limit_call bs typ key p now m)
  unfolding limit_call
  limit_call-TakesAndKeeps p now m h l f k = rw l (
      take_from-TakesAndKeeps p now _ m
        (limiter_with_policy-IsReady p (lookup (limiter_name typ key) m) h l f k))

  limit_call_passes :
      (p : RateLimitPolicy) (now : ℕ) (m : GoMap (LimiterWrapper B))
      → is_limited typ p ≡ false
      → (limit_call bs typ key p now m).0 ≡ m
  unfolding limit_call
  limit_call_passes p now m h = rw h refl

  -- Their versions determine the policies, and those that limit have a positive interval.
  abbrev pub AreVersioned : List (RateLimitPolicy × ℕ) → Type 0
  AreVersioned [] = Unit
  AreVersioned ((p, now) ∷ cs) = (IsVersioned p × IsFillable p) × AreVersioned cs

  limit_calls-Kept :
      (cs : List (RateLimitPolicy × ℕ))
      → AreVersioned cs
      → Kept (lookup (limiter_name typ key) (limit_calls bs typ key cs))
  unfolding limit_calls lookup
  limit_calls-Kept [] h = tt
  limit_calls-Kept ((p, now) ∷ cs) h = elim (Bool-cases (is_limited typ p)) [
    | inl e ↦
        (limit_call-TakesAndKeeps p now (limit_calls bs typ key cs) h.0.0 e h.0.1
          (limit_calls-Kept cs h.1)).1
    | inr n ↦
        subst (λ m. Kept (lookup (limiter_name typ key) m))
          (sym (limit_call_passes p now (limit_calls bs typ key cs) n)) (limit_calls-Kept cs h.1)
  ]

  -- After any calls for one service, method and kind, a call whose policy is enabled with a positive
  -- limit takes its token from a bucket that has the rate of this policy, whatever the policies before
  -- it were, keeps that bucket, and does not panic; provided that the versions of the policies determine
  -- them, and that for those that limit the unit of time divided by the limit is at least 1.
  pub limit_call-rate :
      (p : RateLimitPolicy) (now : ℕ) (cs : List (RateLimitPolicy × ℕ))
      → AreVersioned ((p, now) ∷ cs)
      → is_limited typ p ≡ true
      → Takes p now (limit_call bs typ key p now (limit_calls bs typ key cs))
  limit_call-rate p now cs h e =
      (limit_call-TakesAndKeeps p now (limit_calls bs typ key cs) h.0.0 e h.0.1
        (limit_calls-Kept cs h.1)).0

module _ {B : Type 0} (bs : Buckets B) (typ : LimiterType) (key : String) where
  -- A call whose policy limits with an interval that is not positive panics where the limiter has a
  -- policy of another version and with other settings; then the old bucket stays with the new policy,
  -- and the next call under it takes from that bucket.
  pub limit_call-panics :
      (p : RateLimitPolicy) (now later : ℕ) (w : LimiterWrapper B) (m : GoMap (LimiterWrapper B))
      → is_limited typ p ≡ true
      → not_positive (rate_of typ p).0 ≡ true
      → lookup (limiter_name typ key) m ≡ some w
      → (p.version == w.limiter_policy.version) ≡ false
      → same_settings p w.limiter_policy ≡ false
      → let (m', v) = limit_call bs typ key p now m in
        let kept : LimiterWrapper B = record w { limiter_policy = p } in
        (v ≡ panics) × ((limit_call bs typ key p later m').1 ≡ (take_one bs typ later kept).1)
  unfolding limit_call limiter_with_policy update_limiter bucket_for renew take_from store_taken
  limit_call-panics p now later w m l n e d s =
      let kept : LimiterWrapper B = record w { limiter_policy = p } in
      let v : (p.version == p.version) ≡ true = ground arith in
      let x = lookup-insert_self (limiter_name typ key) kept m in
      rw (l, e) (rw (d, s) (rw (bs.new_bucket-panics _ _ n) (refl, rw x (rw v refl))))
