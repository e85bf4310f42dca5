-- ===== src/Balancer/Tests.antt =====
-- The balancer's theorems at concrete inputs.
use text.Mathlib.TextEquality.{eq_iff}
use go_framework.Base.{
  ℕ, String, Bool, true, false, List, [], ◌∷◌, ◌++◌, none, some, ◌≡◌, refl, ◌≢◌, arith,
  text_discrete, ℕ_discrete, ap, ltb,
}
use go_framework.Registry.Memory.{has_instance}
use go_framework.Registry.Watcher.{add, delete, Update}
use go_framework.Registry.Watcher.Follow.{all_passed_on}
use go_framework.Registry.Watcher.Tracks.{run}
use go_framework.Balancer.{Address, AddressInfo, empty, Balancer, up, exists_in, apply_updates}
use go_framework.Balancer.Safety.{IsSafe, EndsSafe, perform, perform-EndsSafe, closes}
use go_framework.Balancer.Wakeup.{EndsWith, connected_count, up-EndsWith}
use go_framework.Balancer.Stale.{history, stale_address}
use go_framework.Balancer.RoundRobin.{pick, round_robin}
use go_framework.Balancer.RoundRobin.Order.{
  Agrees, first, drop, take, pick-first, picks, picks-round,
}

-- Addresses with numbers as metadata are compared by their fields.
address_discrete : Discrete (Address ℕ)
address_discrete = hlevel (text_discrete, ℕ_discrete)

abbrev at : String → ℕ → Address ℕ
at a x = record { addr = a; metadata = x }

abbrev down_at : String → AddressInfo ℕ
down_at a = record { address = at a 0; connected = false }

abbrev three : List ℕ
three = 4 ∷ 1 ∷ 2 ∷ []

abbrev is_big : ℕ → Bool
is_big n = ltb 3 n

pick-first_example :
    Agrees three 1 (first is_big (drop 1 three ++ take 1 three)) (pick (some is_big) three 1)
pick-first_example = pick-first is_big three 1 (omega arith)

picks-round_example : picks three 3 2 ≡ 2 ∷ 4 ∷ 1 ∷ []
picks-round_example = picks-round three 2 (omega arith)

abbrev updates : List (Update ℕ)
updates =
    record { op = add; addr = "b"; metadata = 0 }
    ∷ record { op = delete; addr = "a"; metadata = 0 }
    ∷ []

-- A caller waits on channel 0 for the one address, which is down.
abbrev waiting_for_a : Balancer ℕ ℕ
waiting_for_a = record {
  addrs = down_at "a" ∷ [];
  addr_ch = empty;
  wait_ch = some 0;
  next_ch = 1;
  woken = [];
  done = false;
  watching = true;
  picker = some 0;
  blind = false;
}

waiting_for_a-IsSafe : IsSafe waiting_for_a
waiting_for_a-IsSafe = record {
  chan = tt;
  waiting = (omega arith, refl, refl);
  old = tt;
  picks = refl;
}

perform-EndsSafe_example :
    EndsSafe (perform address_discrete (round_robin none) closes waiting_for_a)
perform-EndsSafe_example =
    perform-EndsSafe address_discrete (round_robin none) closes waiting_for_a waiting_for_a-IsSafe
      tt

-- The address comes up, and the channel is closed.
up-EndsWith_example :
    EndsWith address_discrete
      (round_robin none)
      (connected_count waiting_for_a.addrs)
      (some 0)
      []
      (up address_discrete (round_robin none) (at "a" 0) waiting_for_a)
up-EndsWith_example =
    up-EndsWith address_discrete (round_robin none) (at "a" 0) waiting_for_a 0 waiting_for_a-IsSafe
      (refl, tt) (ground arith) refl

a_is_not_empty : ◌≢◌ {A = String} "a" ""
a_is_not_empty = ground (arith, eq_iff "a" "")

stale_address_example :
    (has_instance (run [] (history address_discrete "svc" "a" 1 2)).0 "svc" "a" ≡ false)
    × (exists_in address_discrete (at "a" 1) (
          apply_updates address_discrete
            (all_passed_on "svc" (run [] (history address_discrete "svc" "a" 1 2)).1)
            [])
        ≡ true)
stale_address_example =
    stale_address address_discrete [] "svc" "a" 1 2 [] a_is_not_empty
      (λ e. absurd (omega (arith, ap (λ r. r.metadata) e))) tt
