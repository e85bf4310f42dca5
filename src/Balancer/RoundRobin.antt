-- ===== src/Balancer/RoundRobin.antt =====
-- balancer/roundrobin/balancer.go: the picker that goes round the addresses.
pub mod Order
use go_framework.Base.{
  ℕ, zero, suc, ◌+◌, ◌%◌, Bool, true, false, List, [], ◌∷◌, Option, none, some, if◌then◌else◌, ◌==◌,
  get_elem?, length,
}
use go_framework.Balancer.{AddressInfo, Picker}

-- What `Pick` gives, beside the next index; an index out of range is a panic.
pub data Picked (A : Type 0) : Type 0 where
  picked : A → ℕ → Picked A
  no_address : ℕ → Picked A
  out_of_range : Picked A
  ran_out : Picked A

module _ {A : Type 0} where
  -- `addr := s.addrs[s.next]; s.next = (s.next + 1) % len(s.addrs); return addr, nil`
  unfoldable pub pick_next : List A → ℕ → Picked A
  pick_next addrs next = elim (get_elem? addrs next) [
    | none ↦ out_of_range
    | some a ↦ picked a ((next + 1) % length addrs)
  ]

  -- The loop over the addresses, from `next` until it is back at `cur`.
  unfoldable pub pick_loop : (A → Bool) → List A → ℕ → ℕ → ℕ → Picked A
  pick_loop available addrs cur zero next = ran_out
  pick_loop available addrs cur (suc fuel) next = elim (get_elem? addrs next) [
    | none ↦ out_of_range
    | some a ↦
        let next' = (next + 1) % length addrs in
        let later = pick_loop available addrs cur fuel next' in
        if available a then picked a next' else if next' == cur then no_address next' else later
  ]

  -- A round passes every address once, so that their number is fuel enough.
  unfoldable pub pick : Option (A → Bool) → List A → ℕ → Picked A
  unfolding pick_next pick_loop
  pick available [] next = no_address next
  pick none (a ∷ rest) next = pick_next (a ∷ rest) next
  pick (some available) (a ∷ rest) next =
      pick_loop available (a ∷ rest) next (length (a ∷ rest)) next

-- `out_of_range` stands for a panic and `ran_out` for fuel that ends. Neither is a result of `Pick`, and
-- no address stands for both here.
unfoldable pub to_choice : {M : Type 0} → ℕ → Picked (AddressInfo M) → Option (AddressInfo M) × ℕ
to_choice next (picked a next') = (some a, next')
to_choice next (no_address next') = (none, next')
to_choice next out_of_range = (none, next)
to_choice next ran_out = (none, next)

-- The picker that `NewProvider` builds; `StateChanged` does nothing.
unfoldable pub round_robin : {M : Type 0} → Option (AddressInfo M → Bool) → Picker M ℕ
unfolding to_choice pick
round_robin available = record {
  build = 0;
  pick = λ next addrs. to_choice next (pick available addrs next);
  state_changed = λ next a. next;
}
