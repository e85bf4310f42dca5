-- ===== src/Discovery/Down.antt =====
-- The list of addresses that are down, of registry/discovery.go, and the checks that bring them back.
-- Times are numbers of nanoseconds. The mutex makes each operation one step; a check runs in a goroutine
-- of its own, and its result is a step at any later time.

use go_framework.Base.{
  ℕ, suc, ◌-◌, String, GoMap, lookup, insert, delete, Bool, true, false, List, [], ◌∷◌, ◌++◌, none,
  some, if◌then◌else◌, ltb, leb, ◌&&◌,
}
use go_framework.Discovery.{AddressInfo}

pub record DownAddrInfo : Type 0 where
  pub t : ℕ
  pub retry_times : ℕ

abbrev pub DownList : Type 0
DownList = GoMap DownAddrInfo

abbrev pub minute : ℕ
minute = 60000000000

abbrev pub max_retry_times : ℕ
max_retry_times = 5

unfoldable pub down : String → ℕ → DownList → DownList
down addr now s = insert addr (record { t = now; retry_times = 0 }) s

unfoldable pub is_address_available : AddressInfo → DownList → Bool
is_address_available a s = elim (lookup a.addr s) [ none ↦ true | some _ ↦ false ]

unfoldable pub is_due : ℕ → DownAddrInfo → Bool
is_due now v = leb minute (now - v.t) && ltb v.retry_times max_retry_times

abbrev pub retried : DownAddrInfo → DownAddrInfo
retried v = record v { retry_times = suc v.retry_times }

-- A tick of `downListMonitor`: the list, and the checks that it starts, each with its number.
unfoldable pub monitor : ℕ → DownList → DownList × List (String × ℕ)
monitor now [] = ([], [])
monitor now ((k, v) ∷ s) =
    let (s', checks) = monitor now s in
    if is_due now v
    then ((k, retried v) ∷ s', (k, suc v.retry_times) ∷ checks)
    else ((k, v) ∷ s', checks)

-- `checkDownAddr`, by whether the address could be dialled.
unfoldable pub check_down_addr : String → Bool → DownList → DownList
check_down_addr addr reached s = if reached then delete addr s else s

-- What happens to the list: `flush` is the tick of `monitorHttpUpdate` that finds the flag set.
pub data Step : Type 0 where
  mark_down : String → ℕ → Step
  tick : ℕ → Step
  checked : String → Bool → Step
  flush : Step

unfoldable pub step : Step → DownList → DownList × List (String × ℕ)
step (mark_down addr now) s = (down addr now s, [])
step (tick now) s = monitor now s
step (checked addr reached) s = (check_down_addr addr reached s, [])
step flush s = ([], [])

unfoldable pub steps : List Step → DownList → DownList × List (String × ℕ)
steps [] s = (s, [])
steps (x ∷ xs) s =
    let (s', checks) = step x s in let (s'', later) = steps xs s' in (s'', checks ++ later)
