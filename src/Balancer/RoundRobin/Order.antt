-- ===== src/Balancer/RoundRobin/Order.antt =====
-- The order in which the picker goes round.
use native.Mathlib.Nat.{mod-eq_of_lt, mod_self}
use go_framework.Base.{
  ℕ, zero, suc, ◌+◌, ◌%◌, ◌≤◌, ◌<◌, Bool, List, [], ◌∷◌, ◌++◌, Option, none, some, if◌then◌else◌,
  ◌==◌, get_elem?, length, arith, ◌≡◌, refl, sym, ◌∙◌, ap, Bool-cases, inl, inr, ==_iff, ◌≢◌,
  ℕ_discrete,
}
use go_framework.Balancer.RoundRobin.{Picked, picked, no_address, pick_next, pick_loop, pick}

-- One step round a list of `n`.
next_of : (i n : ℕ) → i < n → (i + 1) % n ≡ (if (i + 1) == n then 0 else i + 1)
next_of i n h = elim (Bool-cases ((i + 1) == n)) [
  | inl e ↦ let p : i + 1 ≡ n = ground arith in rw e (ap (λ k. k % n) p ∙ mod_self n)
  | inr e ↦ rw e (mod-eq_of_lt (ground arith))
]

mod_suc : (i n : ℕ) → suc i < n → (i + 1) % n ≡ suc i
mod_suc i n h = ground (arith, next_of i n (omega arith))

module _ {A : Type 0} where
  -- The list from a position on, and up to it.
  abbrev pub drop : ℕ → List A → List A
  drop zero xs = xs
  drop (suc n) [] = []
  drop (suc n) (x ∷ xs) = drop n xs

  abbrev pub take : ℕ → List A → List A
  take zero xs = []
  take (suc n) [] = []
  take (suc n) (x ∷ xs) = x ∷ take n xs

  -- The first available address.
  abbrev pub first : (A → Bool) → List A → Option A
  first available [] = none
  first available (x ∷ xs) = if available x then some x else first available xs

  abbrev pub choice : Picked A → Option A
  choice (picked a next) = some a
  choice _ = none

  get_elem?-lt : (xs : List A) (i : ℕ) → i < length xs → (a : A) × (get_elem? xs i ≡ some a)
  get_elem?-lt [] i h = elim h [ ]
  get_elem?-lt (x ∷ xs) zero h = (x, refl)
  get_elem?-lt (x ∷ xs) (suc i) h = get_elem?-lt xs i (omega arith)

  drop-get_elem? :
      (xs : List A) (i : ℕ) (a : A) → get_elem? xs i ≡ some a → drop i xs ≡ a ∷ drop (suc i) xs
  drop-get_elem? [] i a e = cc
  drop-get_elem? (x ∷ xs) zero a e = ground arith
  drop-get_elem? (x ∷ xs) (suc i) a e = drop-get_elem? xs i a e

  drop-take-get_elem? :
      (xs : List A) (i c : ℕ) (a : A)
      → get_elem? xs i ≡ some a
      → i < c
      → drop i (take c xs) ≡ a ∷ drop (suc i) (take c xs)
  drop-take-get_elem? [] i c a e h = cc
  drop-take-get_elem? (x ∷ xs) i zero a e h = elim h [ ]
  drop-take-get_elem? (x ∷ xs) zero (suc c) a e h = ground arith
  drop-take-get_elem? (x ∷ xs) (suc i) (suc c) a e h = drop-take-get_elem? xs i c a e (omega arith)

  drop-take : (c : ℕ) (xs : List A) → drop c (take c xs) ≡ []
  drop-take zero xs = refl
  drop-take (suc c) [] = refl
  drop-take (suc c) (x ∷ xs) = drop-take c xs

  drop-length : (xs : List A) → drop (length xs) xs ≡ []
  drop-length [] = refl
  drop-length (x ∷ xs) = drop-length xs

  -- What a result is when the scan finds the given address: the address with the index after its own,
  -- or the failure with the index where the scan began.
  abbrev pub Agrees : List A → ℕ → Option A → Picked A → Type 0
  Agrees addrs cur none r = r ≡ no_address cur
  Agrees addrs cur (some a) r =
      (i : ℕ) × (get_elem? addrs i ≡ some a)
      × (i < length addrs)
      × (r ≡ picked a ((i + 1) % length addrs))

  module _ (available : A → Bool) (addrs : List A) (cur : ℕ) (cur_lt : cur < length addrs) where
    -- One round of the loop, at an address that is there.
    pick_loop_step :
        (fuel next : ℕ) (a : A)
        → get_elem? addrs next ≡ some a
        → pick_loop available addrs cur (suc fuel) next ≡ (
            if available a
            then picked a ((next + 1) % length addrs)
            else if ((next + 1) % length addrs) == cur
            then no_address ((next + 1) % length addrs)
            else pick_loop available addrs cur fuel ((next + 1) % length addrs))
    unfolding pick_loop
    pick_loop_step fuel next a e = rw (e, pick_loop) refl

    -- The same, as a rule: the scan of the rest is that of the positions after `next`.
    pick_loop_rule :
        (fuel next i : ℕ) (a : A) (rest : List A)
        → get_elem? addrs next ≡ some a
        → next < length addrs
        → (next + 1) % length addrs ≡ i
        → (i ≡ cur → rest ≡ [])
        → (i ≢ cur → Agrees addrs cur (first available rest) (pick_loop available addrs cur fuel i))
        → Agrees addrs cur
            (first available (a ∷ rest))
            (pick_loop available addrs cur (suc fuel) next)
    pick_loop_rule fuel next i a rest e lt at_i ends goes =
        rw (pick_loop_step fuel next a e) (elim (Bool-cases (available a)) [
          | inl y ↦ rw y (next, e, lt, refl)
          | inr n ↦
              rw (n, at_i)
                (elim (Bool-cases (i == cur)) [
                  | inl back ↦
                      let p : i ≡ cur = (==_iff i cur).0 back in rw (back, ends p) (ap no_address p)
                  | inr on ↦ rw on (goes (λ p. ground arith))
                ])
        ])

    -- The part of the round before the index where it began.
    pick_loop_before :
        (fuel next : ℕ)
        → next < cur
        → cur ≤ fuel + next
        → Agrees addrs cur
            (first available (drop next (take cur addrs)))
            (pick_loop available addrs cur fuel next)
    pick_loop_before zero next lt enough = absurd (omega arith)
    pick_loop_before (suc fuel) next lt enough =
        let (a, e) = get_elem?-lt addrs next (omega arith) in
        rw (drop-take-get_elem? addrs next cur a e lt) (
          pick_loop_rule fuel next (suc next) a (drop (suc next) (take cur addrs)) e (omega arith)
            (mod_suc next (length addrs) (omega arith)) (λ p. rw p (drop-take cur addrs))
            (λ p. pick_loop_before fuel (suc next) (omega arith) (omega arith)))

    -- The part of the round from where it began, and what follows it.
    pick_loop_after :
        (fuel next : ℕ)
        → cur ≤ next
        → next < length addrs
        → length addrs + cur ≤ fuel + next
        → Agrees addrs cur
            (first available (drop next addrs ++ take cur addrs))
            (pick_loop available addrs cur fuel next)
    pick_loop_after zero next ge lt enough = absurd (omega arith)
    pick_loop_after (suc fuel) next ge lt enough =
        let (a, e) = get_elem?-lt addrs next lt in
        rw (drop-get_elem? addrs next a e) (elim (ℕ_discrete (suc next) (length addrs)) [
          | yes p ↦
              pick_loop_rule fuel next 0 a (drop (suc next) addrs ++ take cur addrs) e lt
                (ground (arith, next_of next (length addrs) lt))
                (λ q. rw (p, drop-length addrs, ← q) refl)
                (λ q.
                  rw (p, drop-length addrs) (pick_loop_before fuel 0 (omega arith) (omega arith)))
          | no p ↦
              pick_loop_rule fuel next (suc next) a (drop (suc next) addrs ++ take cur addrs) e lt
                (mod_suc next (length addrs) (omega arith)) (λ q. absurd (omega arith))
                (λ q. pick_loop_after fuel (suc next) (omega arith) (omega arith) (omega arith))
        ])

  -- With a filter the picker gives the first available address of the round that begins at its index,
  -- with the index after that address, and fails, back at its index, exactly when there is none; the
  -- loop always ends.
  pub pick-first :
      (available : A → Bool) (addrs : List A) (next : ℕ)
      → next < length addrs
      → Agrees addrs next
          (first available (drop next addrs ++ take next addrs))
          (pick (some available) addrs next)
  unfolding pick
  pick-first available [] next h = elim h [ ]
  pick-first available (a ∷ rest) next h =
      pick_loop_after available (a ∷ rest) next h (length (a ∷ rest)) next (omega arith) h
        (omega arith)

  -- The addresses that a picker without a filter gives in so many calls.
  abbrev pub picks : List A → ℕ → ℕ → List A
  picks addrs zero next = []
  picks addrs (suc k) next = elim (pick none addrs next) [
    | picked a next' ↦ a ∷ picks addrs k next'
    | _ ↦ []
  ]

  pick_none :
      (addrs : List A) (next : ℕ) (a : A)
      → get_elem? addrs next ≡ some a
      → pick none addrs next ≡ picked a ((next + 1) % length addrs)
  unfolding pick pick_next
  pick_none [] next a e = cc
  pick_none (x ∷ rest) next a e = rw (e, pick_next) refl

  picks_step :
      (addrs : List A) (k next i : ℕ) (a : A)
      → get_elem? addrs next ≡ some a
      → (next + 1) % length addrs ≡ i
      → picks addrs (suc k) next ≡ a ∷ picks addrs k i
  picks_step addrs k next i a e p = rw (pick_none addrs next a e, p, picks) refl

  picks-take :
      (addrs : List A) (m next : ℕ)
      → next + m ≤ length addrs
      → picks addrs m next ≡ take m (drop next addrs)
  picks-take addrs zero next h = refl
  picks-take addrs (suc zero) next h =
      let (a, e) = get_elem?-lt addrs next (omega arith) in
      picks_step addrs 0 next _ a e refl ∙ rw (drop-get_elem? addrs next a e) refl
  picks-take addrs (suc (suc m)) next h =
      let (a, e) = get_elem?-lt addrs next (omega arith) in
      picks_step addrs (suc m) next (suc next) a e (mod_suc next (length addrs) (omega arith))
      ∙ rw (drop-get_elem? addrs next a e)
          (ap (◌∷◌ a) (picks-take addrs (suc m) (suc next) (omega arith)))

  picks-drop :
      (addrs : List A) (t m next : ℕ)
      → next < length addrs
      → t + next ≡ length addrs + m
      → picks addrs t next ≡ drop next addrs ++ picks addrs m 0
  picks-drop addrs zero m next h p = absurd (omega arith)
  picks-drop addrs (suc t) m next h p =
      let (a, e) = get_elem?-lt addrs next h in
      rw (drop-get_elem? addrs next a e) (elim (ℕ_discrete (suc next) (length addrs)) [
        | yes q ↦
            let t_eq : t ≡ m = omega arith in
            picks_step addrs t next 0 a e (ground (arith, next_of next (length addrs) h))
            ∙ ap (◌∷◌ a) (
                ap (λ k. picks addrs k 0) t_eq
                ∙ sym
                    (ap (λ l. l ++ picks addrs m 0) (ap (λ n. drop n addrs) q ∙ drop-length addrs)))
        | no q ↦
            picks_step addrs t next (suc next) a e (mod_suc next (length addrs) (omega arith))
            ∙ ap (◌∷◌ a) (picks-drop addrs t m (suc next) (omega arith) (omega arith))
      ])

  -- Without a filter, as many calls as there are addresses give every one of them once, in the order
  -- of the round that begins at the index.
  pub picks-round :
      (addrs : List A) (next : ℕ)
      → next < length addrs
      → picks addrs (length addrs) next ≡ drop next addrs ++ take next addrs
  picks-round addrs next h =
      picks-drop addrs (length addrs) next next h refl
      ∙ ap (◌++◌ (drop next addrs)) (picks-take addrs next 0 (omega arith))
