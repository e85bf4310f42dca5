-- ===== src/Balancer/Wakeup.antt =====
-- When callers that wait for an address are woken.
use mathlib.Core.Path.{subst}
use go_framework.Base.{
  ℕ, suc, zero, ◌+◌, Bool, true, false, List, [], ◌∷◌, Option, none, some, ite, if◌then◌else◌, ◌≡◌,
  refl, sym, ap, ◌∙◌, arith, inl, inr, Option-cases,
}
use go_framework.Balancer.{
  Address, AddressInfo, Balancer, Picker, Outcome, ok, up_one, up_all, wake, up_end, up, exists_in,
}
use go_framework.Balancer.Addresses.{AreDistinct}
use go_framework.Balancer.Safety.{IsSafe, WaitOk}

module _ {M : Type 0} where
  abbrev pub connected_count : List (AddressInfo M) → ℕ
  connected_count [] = 0
  connected_count (v ∷ vs) = if v.connected then suc (connected_count vs) else connected_count vs

module _ {M P : Type 0} (eq : Discrete (Address M)) (pk : Picker M P) where
  -- Is the first entry with the address connected?
  abbrev pub state_of : Address M → List (AddressInfo M) → Option Bool
  state_of a [] = none
  state_of a (v ∷ vs) = ite (eq v.address a) (some v.connected) (state_of a vs)

  state_of_absent :
      (a : Address M) (vs : List (AddressInfo M)) → exists_in eq a vs ≡ false → state_of a vs ≡ none
  state_of_absent a [] h = refl
  state_of_absent a (v ∷ vs) h = ground (arith, state_of_absent a vs)

  -- How `Up` ends, by the number of addresses that were connected before, the channel that callers
  -- wait on, if any, and the channels that were closed.
  abbrev pub EndsWith : ℕ → Option ℕ → List ℕ → Outcome Bool (Balancer M P) → Type 0
  EndsWith zero none woken (ok r s) = (s.wait_ch ≡ none) × (s.woken ≡ woken)
  EndsWith zero (some c) woken (ok r s) = (s.wait_ch ≡ none) × (s.woken ≡ c ∷ woken)
  EndsWith (suc k) wait woken (ok r s) = (s.wait_ch ≡ wait) × (s.woken ≡ woken)
  EndsWith k wait woken _ = ⊥

  up_all_absent :
      (a : Address M) (vs : List (AddressInfo M)) (p : P) (n : ℕ)
      → exists_in eq a vs ≡ false
      → up_all eq pk a vs p n ≡ (vs, p, some (n + connected_count vs))
  unfolding up_all up_one
  up_all_absent a [] p n h = ground arith
  up_all_absent a (v ∷ vs) p n h =
      ground (arith, up_all_absent a vs p (if v.connected then suc n else n))

  up_all_fresh :
      (a : Address M) (vs : List (AddressInfo M)) (p : P) (n : ℕ)
      → AreDistinct eq vs
      → state_of a vs ≡ some false
      → ((up_all eq pk a vs p n).2 ≡ some (suc (n + connected_count vs)))
        × (connected_count (up_all eq pk a vs p n).0 ≡ suc (connected_count vs))
        × (state_of a (up_all eq pk a vs p n).0 ≡ some true)
  unfolding up_all up_one
  up_all_fresh a [] p n d h = cc
  up_all_fresh a (v ∷ vs) p n d h = ground (
    arith,
    up_all_absent a vs (pk.state_changed p (record v { connected = true })) (suc n),
    up_all_fresh a vs p (if v.connected then suc n else n) d.1,
  )

  up_end-EndsWith :
      (k : ℕ) (t : Balancer M P)
      → WaitOk t.wait_ch t.next_ch t.woken t.done
      → EndsWith k t.wait_ch t.woken (up_end eq pk (some (suc k)) t)
  unfolding up_end wake
  up_end-EndsWith zero t w = elim (Option-cases t.wait_ch) [
    | inl e ↦ ground arith
    | inr (c, e) ↦ ground arith
  ]
  up_end-EndsWith (suc k) t w = ground arith

  -- An address comes up that a safe balancer knows as down. If no address was connected, the channel
  -- that callers wait on is closed; if one was, they are left waiting.
  pub up-EndsWith :
      (a : Address M) (s : Balancer M P) (p : P)
      → IsSafe s
      → AreDistinct eq s.addrs
      → state_of a s.addrs ≡ some false
      → s.picker ≡ some p
      → EndsWith (connected_count s.addrs) s.wait_ch s.woken (up eq pk a s)
  unfolding up
  up-EndsWith a s p v d h e =
      rw (e, up)
        (subst (λ r. EndsWith (connected_count s.addrs) s.wait_ch s.woken (up_end eq pk r after))
          (sym ((up_all_fresh a s.addrs p 0 d h).0 ∙ ap {B = Option ℕ} some (omega arith)))
          (up_end-EndsWith (connected_count s.addrs) after v.waiting))
    where
      after : Balancer M P
      after = record s {
        addrs = (up_all eq pk a s.addrs p 0).0;
        picker = some (up_all eq pk a s.addrs p 0).1;
      }
