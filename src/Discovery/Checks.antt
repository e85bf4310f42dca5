-- ===== src/Discovery/Checks.antt =====
-- How often an address of the down list of registry/discovery.go is checked.
use mathlib.Core.Path.{subst}
use go_framework.Base.{
  ℕ, suc, ◌+◌, ◌-◌, ◌≤◌, ◌<◌, String, text_discrete, lookup, insert, lookup-insert,
  lookup-insert_self, sym, lookup-delete, HasDistinctKeys, none_of_not-In, insert-HasDistinctKeys,
  delete-HasDistinctKeys, keys, In, Bool-cases, Bool, true, false, List, [], ◌∷◌, ◌++◌, Option,
  none, some, if◌then◌else◌, ite, ◌≡◌, refl, ap, arith, inl, inr,
}
use go_framework.Discovery.Down.{
  DownAddrInfo, DownList, max_retry_times, down, is_due, monitor, check_down_addr, Step, mark_down,
  tick, checked, flush, step, steps,
}

-- No step marks the address as down.
abbrev pub marks : String → Step → Bool
marks a (mark_down addr now) = ite (text_discrete addr a) true false
marks a (tick now) = false
marks a (checked addr reached) = false
marks a flush = false

abbrev pub never_marks : String → List Step → Bool
never_marks a [] = true
never_marks a (x ∷ xs) = if marks a x then false else never_marks a xs

unfoldable pub checks_of : String → List (String × ℕ) → ℕ
checks_of a [] = 0
checks_of a ((k, n) ∷ cs) = let later = checks_of a cs in ite (text_discrete k a) (suc later) later

-- The checks that an address still gets.
abbrev pub left : Option DownAddrInfo → ℕ
left none = 0
left (some v) = max_retry_times - v.retry_times

checks_of-append :
    (a : String) (xs ys : List (String × ℕ))
    → checks_of a (xs ++ ys) ≡ checks_of a xs + checks_of a ys
unfolding checks_of
checks_of-append a [] ys = omega arith
checks_of-append a ((k, n) ∷ xs) ys = ground (arith, checks_of-append a xs ys)

monitor-checks_none :
    (a : String) (now : ℕ) (s : DownList) → lookup a s ≡ none → checks_of a (monitor now s).1 ≡ 0
unfolding monitor checks_of lookup
monitor-checks_none a now [] e = refl
monitor-checks_none a now ((k, v) ∷ s) e =
    ground (arith, Bool-cases (is_due now v), monitor-checks_none a now s)

is_due-retry_times : (now : ℕ) (v : DownAddrInfo) → is_due now v ≡ true → v.retry_times < 5
unfolding is_due
is_due-retry_times now v e = ground arith

monitor-checks :
    (a : String) (now : ℕ) (s : DownList)
    → HasDistinctKeys s
    → checks_of a (monitor now s).1 + left (lookup a (monitor now s).0) ≤ left (lookup a s)
unfolding monitor checks_of lookup
monitor-checks a now [] d = omega arith
monitor-checks a now ((k, v) ∷ s) d = elim (text_discrete k a) [
  | yes p ↦
      let quiet : checks_of a (monitor now s).1 ≡ 0 =
        subst (λ b. checks_of b (monitor now s).1 ≡ 0) p
          (monitor-checks_none k now s (none_of_not-In k s d.0)) in
      elim (Bool-cases (is_due now v)) [
        | inl e ↦ ground (arith, is_due-retry_times now v e)
        | inr e ↦ ground arith
      ]
  | no p ↦ elim (Bool-cases (is_due now v)) [
    | inl e ↦ ground (arith, monitor-checks a now s d.1)
    | inr e ↦ ground (arith, monitor-checks a now s d.1)
  ]
]

keys-monitor : (now : ℕ) (s : DownList) → keys (monitor now s).0 ≡ keys s
unfolding monitor
keys-monitor now [] = refl
keys-monitor now ((k, v) ∷ s) = elim (Bool-cases (is_due now v)) [
  | inl e ↦ rw (e, monitor) (ap (λ r. k ∷ r) (keys-monitor now s))
  | inr e ↦ rw (e, monitor) (ap (λ r. k ∷ r) (keys-monitor now s))
]

monitor-HasDistinctKeys :
    (now : ℕ) (s : DownList) → HasDistinctKeys s → HasDistinctKeys (monitor now s).0
unfolding monitor
monitor-HasDistinctKeys now [] d = d
monitor-HasDistinctKeys now ((k, v) ∷ s) d =
    let fresh : ¬ In k (keys (monitor now s).0) =
      subst (λ l. ¬ In k l) (sym (keys-monitor now s)) d.0 in
    elim (Bool-cases (is_due now v)) [
      | inl e ↦ rw (e, monitor) (fresh, monitor-HasDistinctKeys now s d.1)
      | inr e ↦ rw (e, monitor) (fresh, monitor-HasDistinctKeys now s d.1)
    ]

step-HasDistinctKeys : (x : Step) (s : DownList) → HasDistinctKeys s → HasDistinctKeys (step x s).0
unfolding step down check_down_addr
step-HasDistinctKeys (mark_down addr now) s d = insert-HasDistinctKeys addr _ s d
step-HasDistinctKeys (tick now) s d = monitor-HasDistinctKeys now s d
step-HasDistinctKeys (checked addr true) s d = delete-HasDistinctKeys addr s d
step-HasDistinctKeys (checked addr false) s d = d
step-HasDistinctKeys flush s d = tt

step-checks :
    (a : String) (x : Step) (s : DownList)
    → HasDistinctKeys s
    → marks a x ≡ false
    → checks_of a (step x s).1 + left (lookup a (step x s).0) ≤ left (lookup a s)
unfolding step checks_of down check_down_addr lookup
step-checks a (mark_down addr now) s d m =
    ground (arith, lookup-insert addr a (record { t = now; retry_times = 0 }) s)
step-checks a (tick now) s d m = monitor-checks a now s d
step-checks a (checked addr true) s d m = ground (arith, lookup-delete addr a s)
step-checks a (checked addr false) s d m = omega arith
step-checks a flush s d m = omega arith

steps-checks_of :
    (a : String) (xs : List Step) (s : DownList)
    → HasDistinctKeys s
    → never_marks a xs ≡ true
    → checks_of a (steps xs s).1 ≤ left (lookup a s)
unfolding steps checks_of
steps-checks_of a [] s d m = omega arith
steps-checks_of a (x ∷ xs) s d m =
    let e : marks a x ≡ false = ground arith in
    let f : never_marks a xs ≡ true = ground arith in
    ground (
      arith,
      step-checks a x s d e,
      steps-checks_of a xs (step x s).0 (step-HasDistinctKeys x s d) f,
      checks_of-append a (step x s).1 (steps xs (step x s).0).1,
    )

-- After an address was marked as down it is checked five times at most, whatever happens then, until it
-- is marked again.
pub down-checks_of :
    (a : String) (now : ℕ) (xs : List Step) (s : DownList)
    → HasDistinctKeys s
    → never_marks a xs ≡ true
    → checks_of a (steps xs (down a now s)).1 ≤ max_retry_times
unfolding down
down-checks_of a now xs s d m =
    let v : DownAddrInfo = record { t = now; retry_times = 0 } in
    ground (
      arith,
      lookup-insert_self a v s,
      steps-checks_of a xs (insert a v s) (insert-HasDistinctKeys a v s d) m,
    )
