-- ===== src/Balancer.antt =====
-- balancer/internal/balancer.go and addr_info.go: the list of addresses that a balancer keeps, and
-- its life. The mutex makes each operation one step. A picker keeps the slice of addresses that it
-- was built with, so it sees connections come and go; here it is given the addresses of the state.
pub mod RoundRobin
pub mod Addresses
pub mod Safety
pub mod Wakeup
pub mod Stale
mod Tests
use go_framework.Base.{
  ℕ, suc, ◌+◌, String, Bool, true, false, List, [], ◌∷◌, ◌++◌, Option, none, some, ite, map,
  if◌then◌else◌, ◌==◌, is_empty,
}
use go_framework.Registry.Watcher.{Op, add, delete, Update}

-- `grpc.Address`, compared as a whole.
pub record Address (M : Type 0) : Type 0 where
  pub addr : String
  pub metadata : M

pub record AddressInfo (M : Type 0) : Type 0 where
  pub address : Address M
  pub connected : Bool

pub data Error : Type 0 where
  balancer_closed : Error
  client_conn_closing : Error
  no_address_available : Error
  context_done : Error
  not_resolved : Error
  watcher_stopped : Error

-- What `addrCh` has: nil, one place that is empty or full, or closed.
pub data AddrChan (M : Type 0) : Type 0 where
  unmade : AddrChan M
  empty : AddrChan M
  full : List (Address M) → AddrChan M
  shut : AddrChan M

-- `P` is the picker. `wait_ch` is the number of the channel that blocked callers wait on; those below
-- `next_ch` have been made, those of `woken` have been closed. `blind` says that the picker was built
-- with no address, as `Start` does.
pub record Balancer (M P : Type 0) : Type 0 where
  pub addrs : List (AddressInfo M)
  pub addr_ch : AddrChan M
  pub wait_ch : Option ℕ
  pub next_ch : ℕ
  pub woken : List ℕ
  pub done : Bool
  pub watching : Bool
  pub picker : Option P
  pub blind : Bool

-- `NewBalancerWithPicker`; the resolver and the picker's builder are parameters of the operations.
unfoldable pub new_balancer : {M P : Type 0} → Balancer M P
new_balancer = record {
  addrs = [];
  addr_ch = unmade;
  wait_ch = none;
  next_ch = 0;
  woken = [];
  done = false;
  watching = false;
  picker = none;
  blind = false;
}

-- What a picker builder gives: a new picker, a choice from the addresses that it was built with, and
-- its reaction to a change of one.
pub record Picker (M P : Type 0) : Type 0 where
  pub build : P
  pub pick : P → List (AddressInfo M) → Option (AddressInfo M) × P
  pub state_changed : P → AddressInfo M → P

-- What a call ends with, beside the state that it leaves; a fault is a panic or an endless wait.
pub data Fault : Type 0 where
  nil_channel : Fault
  nil_picker : Fault
  double_close : Fault
  send_on_closed : Fault

pub data Outcome (A B : Type 0) : Type 0 where
  ok : A → B → Outcome A B
  err : Error → B → Outcome A B
  fault : Fault → Outcome A B

-- `Get` gives an address, or waits on a channel.
pub data Got (M : Type 0) : Type 0 where
  got : Address M → Got M
  waits : ℕ → Got M

abbrev pub member : ℕ → List ℕ → Bool
member n [] = false
member n (m ∷ ms) = if m == n then true else member n ms

module _ {M : Type 0} (eq : Discrete (Address M)) where
  abbrev pub exists_in : Address M → List (AddressInfo M) → Bool
  exists_in a [] = false
  exists_in a (v ∷ vs) = ite (eq v.address a) true (exists_in a vs)

  -- The first entry with the address is cut out.
  unfoldable pub remove_first : Address M → List (AddressInfo M) → List (AddressInfo M)
  remove_first a [] = []
  remove_first a (v ∷ vs) = ite (eq v.address a) vs (v ∷ remove_first a vs)

  abbrev pub address_of : Update M → Address M
  address_of u = record { addr = u.addr; metadata = u.metadata }

  unfoldable pub apply_op : Op → Address M → List (AddressInfo M) → List (AddressInfo M)
  apply_op add a vs =
      if exists_in a vs then vs else vs ++ record { address = a; connected = false } ∷ []
  apply_op delete a vs = remove_first a vs

  unfoldable pub apply_updates : List (Update M) → List (AddressInfo M) → List (AddressInfo M)
  apply_updates [] vs = vs
  apply_updates (u ∷ us) vs = apply_updates us (apply_op u.op (address_of u) vs)

module _ {M P : Type 0} (eq : Discrete (Address M)) (pk : Picker M P) where
  abbrev pub open_addrs : List (AddressInfo M) → List (Address M)
  open_addrs = map (λ v. v.address)

  -- The old list, if it is still there, is taken out first.
  unfoldable pub publish : Balancer M P → Outcome (Unit {0}) (Balancer M P)
  publish s = elim s.addr_ch [
    | unmade ↦ fault nil_channel
    | empty ↦
        ok tt
          (record s { addr_ch = full (open_addrs s.addrs); picker = some pk.build; blind = false })
    | full _ ↦
        ok tt
          (record s { addr_ch = full (open_addrs s.addrs); picker = some pk.build; blind = false })
    | shut ↦ fault send_on_closed
  ]

  -- `none` is the watcher's error.
  unfoldable pub watch_addr_updates :
      Option (List (Update M)) → Balancer M P → Outcome (Unit {0}) (Balancer M P)
  watch_addr_updates none s = err watcher_stopped s
  watch_addr_updates (some us) s =
      let s' = record s { addrs = apply_updates eq us s.addrs } in
      if s.done then err client_conn_closing s' else publish s'

  -- `resolved` is none without a resolver, and else tells whether the name could be resolved.
  unfoldable pub start_internal :
      Option Bool → Address M → Balancer M P → Outcome (Unit {0}) (Balancer M P)
  start_internal resolved target s = if s.done then err client_conn_closing s else elim resolved [
    | none ↦ ok tt (record s {
      addrs = s.addrs ++ record { address = target; connected = false } ∷ [];
      picker = some pk.build;
      blind = false;
    })
    | some false ↦ err not_resolved s
    | some true ↦
        ok tt (record s { watching = true; addr_ch = empty; picker = some pk.build; blind = true })
  ]

  -- One round of the loop of `Up`; none is its early return.
  unfoldable pub up_one : Address M → AddressInfo M → P → Option (AddressInfo M × P)
  up_one a v p =
      ite (eq v.address a)
        (if v.connected
          then none
          else some
              (record v { connected = true }, pk.state_changed p (record v { connected = true })))
        (some (v, p))

  -- The loop of `Up`: the addresses, the picker, and the number of connected ones unless it returns.
  unfoldable pub up_all :
      Address M → List (AddressInfo M) → P → ℕ → List (AddressInfo M) × P × Option ℕ
  up_all a [] p cnt = ([], p, some cnt)
  up_all a (v ∷ vs) p cnt = elim (up_one a v p) [
    | none ↦ (v ∷ vs, p, none)
    | some (v', p') ↦
        let (vs', p'', r) = up_all a vs p' (if v'.connected then suc cnt else cnt) in
        (v' ∷ vs', p'', r)
  ]

  -- `close(s.waitCh); s.waitCh = nil`
  unfoldable pub wake : Balancer M P → Outcome (Unit {0}) (Balancer M P)
  wake s = elim s.wait_ch [
    | none ↦ ok tt s
    | some c ↦
        if member c s.woken
        then fault double_close
        else ok tt (record s { wait_ch = none; woken = c ∷ s.woken })
  ]

  abbrev pub then_ok :
      {A : Type 0} → A → Outcome (Unit {0}) (Balancer M P) → Outcome A (Balancer M P)
  then_ok a (ok _ s) = ok a s
  then_ok a (err e s) = err e s
  then_ok a (fault f) = fault f

  -- After the loop of `Up`: the waiting callers are woken when one address is connected.
  unfoldable pub up_end : Option ℕ → Balancer M P → Outcome Bool (Balancer M P)
  up_end none s = ok false s
  up_end (some cnt) s = if cnt == 1 then then_ok true (wake s) else ok true s

  -- There is a picker as soon as there are addresses. The result is whether a function that ends the
  -- connection was returned.
  unfoldable pub up : Address M → Balancer M P → Outcome Bool (Balancer M P)
  up a s = elim s.picker [
    | none ↦ if is_empty s.addrs then ok true s else fault nil_picker
    | some p ↦
        let (vs, p', r) = up_all a s.addrs p 0 in
        up_end r (record s { addrs = vs; picker = some p' })
  ]

  unfoldable pub down_all : Address M → List (AddressInfo M) → P → List (AddressInfo M) × P
  down_all a [] p = ([], p)
  down_all a (v ∷ vs) p =
      let v' = record v { connected = false } in
      let (vs', p') = down_all a vs p in
      ite (eq v.address a) (v' ∷ vs, pk.state_changed p v') (v ∷ vs', p')

  unfoldable pub down : Address M → Balancer M P → Outcome (Unit {0}) (Balancer M P)
  down a s = elim s.picker [
    | none ↦ if is_empty s.addrs then ok tt s else fault nil_picker
    | some p ↦
        let (vs, p') = down_all a s.addrs p in ok tt (record s { addrs = vs; picker = some p' })
  ]

  -- The channel to wait on, made if there is none.
  unfoldable pub wait_on : Balancer M P → Outcome (Got M) (Balancer M P)
  wait_on s = elim s.wait_ch [
    | none ↦ ok (waits s.next_ch) (record s { wait_ch = some s.next_ch; next_ch = suc s.next_ch })
    | some c ↦ ok (waits c) s
  ]

  -- `Get` with the address that the picker gave; before a wait a caller may decline to wait.
  unfoldable pub choose_found :
      Bool → Option (AddressInfo M) → Balancer M P → Outcome (Got M) (Balancer M P)
  choose_found may_wait none s = err no_address_available s
  choose_found may_wait (some v) s =
      if v.connected
      then ok (got v.address) s
      else if may_wait
      then wait_on s
      else if is_empty s.addrs
      then err no_address_available s
      else ok (got v.address) s

  -- What `Get` does under the lock, before a wait and after one.
  unfoldable pub choose : Bool → Balancer M P → Outcome (Got M) (Balancer M P)
  choose may_wait s = if s.done then err client_conn_closing s else elim s.picker [
    | none ↦ fault nil_picker
    | some p ↦
        let (found, p') = pk.pick p (if s.blind then [] else s.addrs) in
        choose_found may_wait found (record s { picker = some p' })
  ]

  unfoldable pub get : Bool → Balancer M P → Outcome (Got M) (Balancer M P)
  unfolding choose
  get blocking s = choose blocking s

  -- A caller that waits on `c` goes on when it has been closed, or when its context ends.
  unfoldable pub get_after_wait : ℕ → Bool → Balancer M P → Option (Outcome (Got M) (Balancer M P))
  unfolding choose
  get_after_wait c context_ended s =
      if member c s.woken
      then some (choose true s)
      else if context_ended
      then some (err context_done s)
      else none

  -- `close(s.addrCh)`, if it was made.
  unfoldable pub close_addrs : Outcome (Unit {0}) (Balancer M P) → Outcome (Unit {0}) (Balancer M P)
  close_addrs (ok _ s) = elim s.addr_ch [
    | unmade ↦ ok tt s
    | empty ↦ ok tt (record s { addr_ch = shut })
    | full _ ↦ ok tt (record s { addr_ch = shut })
    | shut ↦ fault double_close
  ]
  close_addrs (err e s) = err e s
  close_addrs (fault f) = fault f

  unfoldable pub close : Balancer M P → Outcome (Unit {0}) (Balancer M P)
  unfolding wake
  close s = if s.done then err balancer_closed s else close_addrs (wake (record s { done = true }))
