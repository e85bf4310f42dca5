-- ===== src/Pool/Slots.antt =====
-- The connections of a slot of dialer/internal/pool/pool.go over a sequence of calls.
use go_framework.Base.{
  ℕ, ◌+◌, Bool, true, false, List, [], ◌∷◌, ◌++◌, Option, none, some, All, ltb, ◌≡◌, refl, sym, ap,
  ◌∙◌, Bool-cases, inl, inr,
}
use go_framework.Pool.{
  Error, new_cc, State, Check, is_ready, failed, still_waiting, check_conn_state, redial_interval,
  Dialed, error, no_cc, new_cc, Observed, is_ready_state, Slot, may_redial, fail_at, record_fail,
  dial_new, run_checked, run_slot, dial_slot, open_ccs,
}

-- The calls for a slot, one after the other: the connection of the slot and its last failure at the
-- end, the connections that were closed and those that were made, in order.
abbrev pub Calls : Type 0 → Type 0
Calls C = (Option C × Option ℕ) × (List C × List C)

module _ {C : Type 0} where
  abbrev pub made_by : Dialed C → Bool → List C
  made_by (new_cc c) true = c ∷ []
  made_by _ _ = []

  -- The connection that a call made.
  abbrev pub made : Observed C → Slot C → List C
  made o r = made_by o.dialed r.has_dialed

  abbrev pub held : Option C → List C
  held slot = open_ccs (slot ∷ [])

  unfoldable pub calls : List (Observed C) → Option C → Option ℕ → Calls C
  calls [] slot fail = ((slot, fail), ([], []))
  calls (o ∷ os) slot fail =
      let r = dial_slot o slot fail in
      let (last, (closed, new)) = calls os r.cc r.fail in
      (last, (r.closed ++ closed, made o r ++ new))

  nothing_made : (d : Dialed C) → made_by d false ≡ []
  nothing_made error = refl
  nothing_made no_cc = refl
  nothing_made (new_cc c) = refl

  dial_new-made :
      (d : Dialed C) (rounds : List (State × Bool)) (closed : List C)
      → closed ++ made_by d (dial_new d rounds closed).has_dialed
        ≡ (dial_new d rounds closed).closed ++ held (dial_new d rounds closed).cc
  unfolding dial_new
  dial_new-made error rounds closed = refl
  dial_new-made no_cc rounds closed = refl
  dial_new-made (new_cc c) rounds closed = refl

  run_checked-made :
      (o : Observed C) (c : C) (fail : Option ℕ) (check : Check)
      → c ∷ made o (run_checked o c fail check)
        ≡ (run_checked o c fail check).closed ++ held (run_checked o c fail check).cc
  unfolding run_checked
  run_checked-made o c fail (failed e) = elim (Bool-cases (may_redial fail o.now)) [
    | inl b ↦ rw (b, run_checked) (dial_new-made o.dialed o.new_rounds (c ∷ []))
    | inr b ↦ rw (b, run_checked) (ap (λ l. c ∷ l) (nothing_made o.dialed))
  ]
  run_checked-made o c fail is_ready = ap (λ l. c ∷ l) (nothing_made o.dialed)
  run_checked-made o c fail still_waiting = ap (λ l. c ∷ l) (nothing_made o.dialed)

  dial_slot-made :
      (o : Observed C) (slot : Option C) (fail : Option ℕ)
      → held slot ++ made o (dial_slot o slot fail)
        ≡ (dial_slot o slot fail).closed ++ held (dial_slot o slot fail).cc
  unfolding dial_slot run_slot record_fail
  dial_slot-made o none fail = dial_new-made o.dialed o.new_rounds []
  dial_slot-made o (some c) fail = elim (Bool-cases (is_ready_state o.state)) [
    | inl b ↦ rw (b, dial_slot) (ap (λ l. c ∷ l) (nothing_made o.dialed))
    | inr b ↦ rw (b, dial_slot) (run_checked-made o c fail (check_conn_state o.rounds))
  ]

  append_assoc : (xs ys zs : List C) → (xs ++ ys) ++ zs ≡ xs ++ (ys ++ zs)
  append_assoc [] ys zs = refl
  append_assoc (x ∷ xs) ys zs = ap (λ r. x ∷ r) (append_assoc xs ys zs)

  -- No connection is lost, and none is closed twice: those that the slot had and those that the calls
  -- made are, in this order, those that the calls closed and the one that the slot still has.
  pub calls-made :
      (os : List (Observed C)) (slot : Option C) (fail : Option ℕ)
      → held slot ++ (calls os slot fail).1.1
        ≡ (calls os slot fail).1.0 ++ held (calls os slot fail).0.0
  unfolding calls
  calls-made [] none fail = refl
  calls-made [] (some c) fail = refl
  calls-made (o ∷ os) slot fail =
      let r = dial_slot o slot fail in
      sym (append_assoc (held slot) (made o r) (calls os r.cc r.fail).1.1)
      ∙ ap (λ l. l ++ (calls os r.cc r.fail).1.1) (dial_slot-made o slot fail)
      ∙ append_assoc r.closed (held r.cc) (calls os r.cc r.fail).1.1
      ∙ ap (λ l. r.closed ++ l) (calls-made os r.cc r.fail)
      ∙ sym (append_assoc r.closed (calls os r.cc r.fail).1.0 (held (calls os r.cc r.fail).0.0))

  -- The calls reach the test of the redial interval at this time at the latest.
  abbrev pub AreBefore : ℕ → List (Observed C) → Type 0
  AreBefore limit os = All (λ o. ltb limit o.now ≡ false) os

  abbrev IsKept : C → ℕ → Slot C → Type 0
  IsKept c t r = (r.cc ≡ some c) × ((r.fail ≡ some t) × ((r.closed ≡ []) × (r.has_dialed ≡ false)))

  run_checked-IsKept :
      (o : Observed C) (c : C) (t : ℕ) (check : Check)
      → ltb (t + redial_interval) o.now ≡ false
      → IsKept c t (record_fail o.end_time (run_checked o c (some t) check))
  unfolding run_checked record_fail may_redial fail_at
  run_checked-IsKept o c t (failed e) h = rw (h, run_checked) (refl, (refl, (refl, refl)))
  run_checked-IsKept o c t is_ready h = (refl, (refl, (refl, refl)))
  run_checked-IsKept o c t still_waiting h = (refl, (refl, (refl, refl)))

  dial_slot-IsKept :
      (o : Observed C) (c : C) (t : ℕ)
      → ltb (t + redial_interval) o.now ≡ false
      → IsKept c t (dial_slot o (some c) (some t))
  unfolding dial_slot run_slot
  dial_slot-IsKept o c t h = elim (Bool-cases (is_ready_state o.state)) [
    | inl b ↦ rw (b, dial_slot) (refl, (refl, (refl, refl)))
    | inr b ↦ rw (b, dial_slot) (run_checked-IsKept o c t (check_conn_state o.rounds) h)
  ]

  -- Until the redial interval after the failure that a slot with a connection has recorded has passed,
  -- calls leave the slot and that failure as they are.
  calls-AreBefore :
      (os : List (Observed C)) (c : C) (t : ℕ)
      → AreBefore (t + redial_interval) os
      → calls os (some c) (some t) ≡ ((some c, some t), ([], []))
  unfolding calls
  calls-AreBefore [] c t h = refl
  calls-AreBefore (o ∷ os) c t h =
      let (a, (b, (d, e))) = dial_slot-IsKept o c t h.0 in
      rw (a, b, d, e)
        (ap
            (λ l. (
              (calls os (some c) (some t)).0,
              ((calls os (some c) (some t)).1.0, l ++ (calls os (some c) (some t)).1.1),
            ))
            (nothing_made o.dialed)
          ∙ calls-AreBefore os c t h.1)

  -- A new connection whose first check fails is put into an empty slot and kept: until the redial
  -- interval after this failure has passed, the calls that follow neither close it nor dial, and do not
  -- move the time of the failure.
  pub calls-new_failed :
      (o : Observed C) (os : List (Observed C)) (c : C) (e : Error) (fail : Option ℕ)
      → o.dialed ≡ new_cc c
      → check_conn_state o.new_rounds ≡ failed e
      → AreBefore (o.end_time + redial_interval) os
      → calls (o ∷ os) none fail ≡ ((some c, some o.end_time), ([], c ∷ []))
  unfolding calls dial_slot run_slot dial_new record_fail fail_at
  calls-new_failed o os c e fail d k h = rw (d, k) (rw (calls-AreBefore os c o.end_time h) refl)
