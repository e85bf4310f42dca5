-- ===== src/Retry/Wrappers.antt =====
-- The wrappers of retry/retry.go: a controller that follows its policy, and which errors are retried.
use mathlib.Core.Path.{subst}
use go_framework.Base.{
  ℕ, suc, ◌*◌, ◌/◌, ◌%◌, ◌^◌, ◌<◌, true, List, [], ◌∷◌, Option, none, some, ◌≡◌, refl, arith,
  String, GoMap, lookup, ◌≢◌, Option-cases, lookup-insert_self, lookup-insert_ne, ◌↔◌, In,
  ℕ_discrete, inl, inr,
}
use go_framework.Retry.Policy.{
  half_shift, exponent_base2, RetryPolicy, Wrapper, backoff, new_retry_controller, same_policy,
  update_policy, new_wrapper, retry_control_by_policy, is_retriable,
}

module _ {J E : Type 0} (jitter_eq : Discrete J) (jitter_up : J → ℕ → ℕ) where
  same_policy-new_retry_controller :
      (p q : RetryPolicy J)
      → same_policy jitter_eq p q ≡ true
      → new_retry_controller {E = E} jitter_eq jitter_up p
        ≡ new_retry_controller jitter_eq jitter_up q
  unfolding new_retry_controller backoff
  same_policy-new_retry_controller p q h =
      let e1 : p.num_of_retries ≡ q.num_of_retries = ground arith in
      let e2 : p.per_try_timeout ≡ q.per_try_timeout = ground arith in
      let e3 : p.overlap ≡ q.overlap = ground arith in
      let e4 : p.backoff_duration ≡ q.backoff_duration = ground arith in
      let e5 : p.backoff_jitter ≡ q.backoff_jitter = ground arith in
      let e6 : p.backoff_exponential ≡ q.backoff_exponential = ground arith in
      rw (e1, e2, e3, e4, e5, e6) refl

  -- The controller was made from a policy like the one that the wrapper has.
  abbrev pub Follows : Wrapper J E → Type 0
  Follows w = w.controller ≡ new_retry_controller jitter_eq jitter_up w.policy

  update_policy-Follows :
      (p : RetryPolicy J) (w : Wrapper J E)
      → Follows w
      → Follows (update_policy jitter_eq jitter_up p w)
  unfolding update_policy
  update_policy-Follows p w h = ground arith

  update_policy-controller :
      (p : RetryPolicy J) (w : Wrapper J E)
      → Follows w
      → p.version ≢ w.policy.version
      → (update_policy jitter_eq jitter_up p w).controller
        ≡ new_retry_controller jitter_eq jitter_up p
  unfolding update_policy
  update_policy-controller p w h v = ground (arith, same_policy-new_retry_controller p w.policy)

  -- The wrapper that is kept follows its policy, and the new policy has another version.
  abbrev pub IsNews : RetryPolicy J → Option (Wrapper J E) → Type 0
  IsNews p none = Unit
  IsNews p (some w) = (p.version ≢ w.policy.version) × Follows w

  -- When a name has no wrapper, or one that follows its policy, of another version, then the wrapper
  -- that is given for the name and a policy is the one that is kept under the name, its controller is
  -- the one of that policy (whether it was made anew or the policy changed nothing), and the wrapper of
  -- another name is as it was.
  pub retry_control_by_policy-lookup :
      (name o : String) (p : RetryPolicy J) (ws : GoMap (Wrapper J E))
      → name ≢ o
      → IsNews p (lookup name ws)
      → let (w, ws') = retry_control_by_policy jitter_eq jitter_up name p ws in
        (w.controller ≡ new_retry_controller jitter_eq jitter_up p)
        × (lookup name ws' ≡ some w)
        × (lookup o ws' ≡ lookup o ws)
  unfolding retry_control_by_policy new_wrapper
  retry_control_by_policy-lookup name o p ws n v = elim (Option-cases (lookup name ws)) [
    | inl e ↦
        rw (e, retry_control_by_policy)
          (refl, lookup-insert_self name _ ws, lookup-insert_ne name o _ ws n)
    | inr (w, e) ↦
        rw (e, retry_control_by_policy)
          (
            let (d, f) = subst (IsNews p) e v in update_policy-controller p w f d,
            lookup-insert_self name _ ws,
            lookup-insert_ne name o _ ws n,
          )
  ]

pow_half : (n : ℕ) → 2 ^ suc n / 2 ≡ 2 ^ n
pow_half n = ground arith

half_shift-pow : (n : ℕ) → n < 62 → half_shift (suc n) ≡ 2 ^ n
unfolding half_shift
half_shift-pow n l = ground (arith, pow_half n)

-- With exponential backoff the delay before the `n`th retry is the duration times 2 ^ (n - 1), as long
-- as the number of the retry is below 63 and the product below 2 ^ 64.
pub exponent_base2-doubles :
    (d n : ℕ) → n < 62 → d * 2 ^ n < 2 ^ 64 → exponent_base2 true d (suc n) ≡ d * 2 ^ n
unfolding exponent_base2 half_shift
exponent_base2-doubles d n l b = let h = half_shift-pow n l in rw h (ground arith)

is_retriable-In :
    (code : ℕ) (codes : List ℕ)
    → (is_retriable code codes ≡ true) ↔ ((c : ℕ) × In c codes × (c % 2 ^ 32 ≡ code % 2 ^ 32))
is_retriable-In code [] = ground arith
is_retriable-In code (c ∷ cs) =
    let (to, of) = is_retriable-In code cs in
    (
      λ h. elim (ℕ_discrete (c % 2 ^ 32) (code % 2 ^ 32)) [
        | yes e ↦ (c, inl refl, e)
        | no n ↦ let (d, i, e) = to (ground arith) in (d, inr i, e)
      ],
      λ (d, i, e). elim i [ inl q ↦ ground arith | inr j ↦ let r = of (d, j, e) in ground arith ],
    )
