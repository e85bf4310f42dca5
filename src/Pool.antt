-- ===== src/Pool.antt =====
-- dialer/internal/pool/pool.go: the pool of connections of a target. Calls for the same slot share one
-- run of the dialling function, so that a run is one step. What a run observes, the states of the
-- connections, the clock and the dialler, is data of the step. Times are numbers of nanoseconds.
pub mod Slots
mod Tests
use go_framework.Base.{
  ℕ, zero, suc, ◌+◌, ◌%◌, ◌^◌, String, GoMap, lookup, insert, Bool, true, false, List, [], ◌∷◌,
  ◌++◌, Option, none, some, if◌then◌else◌, ltb, ◌==◌, get_elem?, replicate,
}

-- The states of connectivity.State; `unknown` stands for any other value.
pub data State : Type 0 where
  idle connecting ready transient_failure shutdown unknown : State

pub data Error : Type 0 where
  integer_divide_by_zero index_out_of_range is_shutdown invalid_state deadline_exceeded : Error
  dial_failed nil_cc : Error

pub data Check : Type 0 where
  is_ready : Check
  failed : Error → Check
  still_waiting : Check

-- What the loop sees in each round: the state, and whether it changed in time. Without further rounds
-- the loop still waits.
unfoldable pub check_conn_state : List (State × Bool) → Check
check_conn_state [] = still_waiting
check_conn_state ((ready, changed) ∷ rounds) = is_ready
check_conn_state ((shutdown, changed) ∷ rounds) = failed is_shutdown
check_conn_state ((unknown, changed) ∷ rounds) = failed invalid_state
check_conn_state ((_, changed) ∷ rounds) =
    if changed then check_conn_state rounds else failed deadline_exceeded

abbrev pub redial_interval : ℕ
redial_interval = 300000000000

-- A slot that is none has no connection; a last failure that is none is the zero time.
pub record CcPool (C : Type 0) : Type 0 where
  pub capacity : ℕ
  pub idx : ℕ
  pub ccs : List (Option C)
  pub last_fail : List (Option ℕ)

pub data Dialed (C : Type 0) : Type 0 where
  error : Dialed C
  no_cc : Dialed C
  new_cc : C → Dialed C

-- What a call of Dial observes: the state of the connection of its slot, the rounds of the check of
-- this connection, the time after it, the result of the dialler, the rounds of the check of the new
-- connection, and the time at the end.
pub record Observed (C : Type 0) : Type 0 where
  pub state : State
  pub rounds : List (State × Bool)
  pub now : ℕ
  pub dialed : Dialed C
  pub new_rounds : List (State × Bool)
  pub end_time : ℕ

-- A call may wait for as long as its context lives: `waiting` is no result yet.
pub data DialOutcome (C : Type 0) : Type 0 where
  connected : C → DialOutcome C
  not_connected : Error → DialOutcome C
  waiting : DialOutcome C

abbrev pub is_ready_state : State → Bool
is_ready_state ready = true
is_ready_state _ = false

module _ {A : Type 0} where
  unfoldable pub set : ℕ → A → List A → List A
  set n x [] = []
  set zero x (y ∷ ys) = x ∷ ys
  set (suc n) x (y ∷ ys) = y ∷ set n x ys

-- A slot, its last failure, the connections that the call closed, whether it dialled, and its result.
pub record Slot (C : Type 0) : Type 0 where
  pub cc : Option C
  pub fail : Option ℕ
  pub closed : List C
  pub has_dialed : Bool
  pub outcome : DialOutcome C

-- Before the current time: time.Time.Before of the last failure and the interval, where the zero time
-- is before every time.
unfoldable pub may_redial : Option ℕ → ℕ → Bool
may_redial none now = true
may_redial (some t) now = ltb (t + redial_interval) now

unfoldable pub fail_at : Option ℕ → ℕ → Option ℕ
fail_at none now = some now
fail_at (some t) now = some t

module _ {C : Type 0} where
  abbrev pub fail_after : DialOutcome C → Option ℕ → ℕ → Option ℕ
  fail_after (not_connected e) fail end_time = fail_at fail end_time
  fail_after (connected c) fail end_time = fail
  fail_after waiting fail end_time = fail

  -- The deferred function: the first failure is kept.
  unfoldable pub record_fail : ℕ → Slot C → Slot C
  record_fail end_time s = record s { fail = fail_after s.outcome s.fail end_time }

  abbrev pub outcome_of : C → Check → DialOutcome C
  outcome_of c is_ready = connected c
  outcome_of c (failed e) = not_connected e
  outcome_of c still_waiting = waiting

  -- A new connection, after the ones that were closed.
  unfoldable pub dial_new : Dialed C → List (State × Bool) → List C → Slot C
  dial_new error rounds closed = record {
    cc = none;
    fail = none;
    closed = closed;
    has_dialed = true;
    outcome = not_connected dial_failed;
  }
  dial_new no_cc rounds closed = record {
    cc = none;
    fail = none;
    closed = closed;
    has_dialed = true;
    outcome = not_connected nil_cc;
  }
  dial_new (new_cc c) rounds closed = record {
    cc = some c;
    fail = none;
    closed = closed;
    has_dialed = true;
    outcome = outcome_of c (check_conn_state rounds);
  }

  abbrev pub keep : C → Option ℕ → DialOutcome C → Slot C
  keep c fail outcome = record {
    cc = some c;
    fail = fail;
    closed = [];
    has_dialed = false;
    outcome = outcome;
  }

  -- What the check of the connection of the slot leads to.
  unfoldable pub run_checked : Observed C → C → Option ℕ → Check → Slot C
  run_checked o c fail (failed e) =
      if may_redial fail o.now
      then dial_new o.dialed o.new_rounds (c ∷ [])
      else keep c fail (not_connected e)
  run_checked o c fail check = keep c fail (outcome_of c check)

  -- The function that a slot runs once at a time.
  unfoldable pub run_slot : Observed C → Option C → Option ℕ → Slot C
  run_slot o none fail = dial_new o.dialed o.new_rounds []
  run_slot o (some c) fail = run_checked o c fail (check_conn_state o.rounds)

  -- A connection that is ready is given at once.
  unfoldable pub dial_slot : Observed C → Option C → Option ℕ → Slot C
  dial_slot o none fail = record_fail o.end_time (run_slot o none fail)
  dial_slot o (some c) fail =
      let run = record_fail o.end_time (run_slot o (some c) fail) in
      if is_ready_state o.state then keep c fail (connected c) else run

  abbrev pub put_slot : CcPool C → ℕ → Slot C → CcPool C × (DialOutcome C × List C)
  put_slot s i r = (
    record s { ccs = set i r.cc s.ccs; last_fail = set i r.fail s.last_fail },
    (r.outcome, r.closed),
  )

  -- The connections that the call closed stand beside its result.
  unfoldable pub dial : Observed C → CcPool C → CcPool C × (DialOutcome C × List C)
  dial o s =
      let next = (s.idx + 1) % 2 ^ 32 in
      let s' = record s { idx = next } in
      if s.capacity == 0
      then (s', (not_connected integer_divide_by_zero, []))
      else let i = next % s.capacity in
        elim (get_elem? s.ccs i) [
          | none ↦ (s', (not_connected index_out_of_range, []))
          | some slot ↦ elim (get_elem? s.last_fail i) [
            | none ↦ (s', (not_connected index_out_of_range, []))
            | some fail ↦ put_slot s' i (dial_slot o slot fail)
          ]
        ]

  abbrev pub open_ccs : List (Option C) → List C
  open_ccs [] = []
  open_ccs (none ∷ ccs) = open_ccs ccs
  open_ccs (some c ∷ ccs) = c ∷ open_ccs ccs

  -- `Clear` of a pool: the connections that it closes.
  abbrev pub clear : CcPool C → List C
  clear s = open_ccs s.ccs

-- The pool that `WithPool` makes, with the capacity as uint32.
abbrev pub new_pool : {C : Type 0} → ℕ → CcPool C
new_pool size = record {
  capacity = size % 2 ^ 32;
  idx = 0;
  ccs = replicate size none;
  last_fail = replicate size none;
}

-- `WithPool`: the pools and the one for the id; `size` is the pool size of PrepareDialOption, none at
-- its error. The target transformer that it sets in the options of the call is left out.
unfoldable pub with_pool :
    {C : Type 0} → String → Option ℕ → GoMap (CcPool C) → GoMap (CcPool C) × Option (CcPool C)
with_pool id size pools = elim (lookup id pools) [
  | some pool ↦ (pools, some pool)
  | none ↦ elim size [
    | none ↦ (pools, none)
    | some n ↦ (insert id (new_pool n) pools, some (new_pool n))
  ]
]

-- `Clear` of the package: the connections of every pool are closed, and there are no pools.
abbrev pub close_all : {C : Type 0} → GoMap (CcPool C) → List C
close_all [] = []
close_all ((id, pool) ∷ pools) = clear pool ++ close_all pools

abbrev pub clear_pools : {C : Type 0} → GoMap (CcPool C) → GoMap (CcPool C) × List C
clear_pools pools = ([], close_all pools)
