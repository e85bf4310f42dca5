-- ===== src/Stream.antt =====
-- One direction of an in-process gRPC stream, `_StreamInternal` of stream/grpc_stream.go: a channel
-- of `queueDepth` payloads, the flag `closed` under a read-write lock, and the goroutines in `Send`,
-- `Recv` and `Close`. A goroutine is the place in the code where it stands; each step runs one
-- statement of it on the shared state, and `none` says that it waits. The fields `sent` and `reads`
-- are histories: what was put on the channel, and what the calls of `Recv` returned.
mod Count
mod Steps
mod Subsequence
mod Flow
mod InOrder
mod NoPanic
mod Header
mod Calls
mod Tests
use go_framework.Base.{
  ℕ, zero, suc, ◌+◌, ◌-◌, Bool, true, false, List, [], ◌∷◌, ◌++◌, Option, none, some, ltb, length,
  get_elem?, if◌then◌else◌, ◌&&◌, not, ◌==◌,
}

abbrev pub queue_depth : ℕ
queue_depth = 16

-- `payload` with its type: `typeEOF`, `typeErr` with the error, `typeData` with the message.
pub data Payload (M E : Type 0) : Type 0 where
  type_eof : Payload M E
  type_err : E → Payload M E
  type_data : M → Payload M E

-- What a call returns. `illegal` is the status that a failing `Send` answers with.
pub data CallOutcome (M E : Type 0) : Type 0 where
  done : CallOutcome M E
  illegal : CallOutcome M E
  message : M → CallOutcome M E
  failed : E → CallOutcome M E
  eof : CallOutcome M E
  canceled : CallOutcome M E

-- Which ready case a `select` takes.
pub data Case : Type 0 where
  cancel_case : Case
  channel_case : Case
  close_case : Case

-- Where a goroutine stands: in `Send`, in `Close`, in `Recv`, or returned.
pub data Place (M E : Type 0) : Type 0 where
  sending : Payload M E → Place M E
  read_locking : Payload M E → Place M E
  rechecking : Payload M E → Place M E
  polling : Payload M E → Place M E
  selecting : Payload M E → Place M E
  read_unlocking : CallOutcome M E → Place M E
  closing : Place M E
  write_locking : Place M E
  close_checking : Place M E
  marking : Place M E
  closing_channel : Place M E
  write_unlocking : Place M E
  receiving : Place M E
  draining : Place M E
  returned : CallOutcome M E → Place M E

pub record StreamInternal (M E : Type 0) : Type 0 where
  pub queue : List (Payload M E)
  pub channel_closed : Bool
  pub closed : Bool
  pub readers : ℕ
  pub writing : Bool
  pub cancel_done : Bool
  pub close_done : Bool
  pub panicked : Bool
  pub sent : List (Payload M E)
  pub reads : List (CallOutcome M E)

module _ {M E : Type 0} where
  abbrev pub new_internal : StreamInternal M E
  new_internal = record {
    queue = [];
    channel_closed = false;
    closed = false;
    readers = 0;
    writing = false;
    cancel_done = false;
    close_done = false;
    panicked = false;
    sent = [];
    reads = [];
  }

  -- `s.sendCh <- m`: it waits while the buffer is full, and panics on a closed channel.
  pub put_payload : Payload M E → StreamInternal M E → Option (StreamInternal M E × Place M E)
  put_payload p s =
      if s.channel_closed
      then some (record s { panicked = true }, returned illegal)
      else if ltb (length s.queue) queue_depth
      then some
          (record s { queue = s.queue ++ p ∷ []; sent = s.sent ++ p ∷ [] }, read_unlocking done)
      else none

  -- The second `select` of `Send`.
  pub select_send :
      Case → Payload M E → StreamInternal M E → Option (StreamInternal M E × Place M E)
  unfolding put_payload
  select_send cancel_case p s = if s.cancel_done then some (s, read_unlocking illegal) else none
  select_send channel_case p s = put_payload p s
  select_send close_case p s = if s.close_done then some (s, read_unlocking illegal) else none

  -- `close(s.sendCh)` panics on a closed channel.
  pub close_channel : StreamInternal M E → StreamInternal M E
  close_channel s =
      if s.channel_closed then record s { panicked = true } else record s { channel_closed = true }

  -- What `Recv` makes of a payload.
  pub payload_outcome : Payload M E → CallOutcome M E
  payload_outcome type_eof = eof
  payload_outcome (type_err e) = failed e
  payload_outcome (type_data m) = message m

  -- What `Recv` makes of a payload that it finds after the context was cancelled.
  pub outcome_after_cancel : Payload M E → CallOutcome M E
  outcome_after_cancel type_eof = eof
  outcome_after_cancel (type_err e) = canceled
  outcome_after_cancel (type_data m) = canceled

  pub return_read :
      CallOutcome M E
      → List (Payload M E)
      → StreamInternal M E
      → Option (StreamInternal M E × Place M E)
  return_read o rest s = some (record s { queue = rest; reads = s.reads ++ o ∷ [] }, returned o)

  -- The channel case of the outer `select` of `Recv`. A closed channel gives nil once it is empty.
  pub take_payload :
      List (Payload M E) → StreamInternal M E → Option (StreamInternal M E × Place M E)
  unfolding payload_outcome return_read
  take_payload [] s = if s.channel_closed then return_read eof [] s else none
  take_payload (p ∷ rest) s = return_read (payload_outcome p) rest s

  -- The inner `select` of `Recv`, which has a default.
  pub drain_payload :
      List (Payload M E) → StreamInternal M E → Option (StreamInternal M E × Place M E)
  unfolding outcome_after_cancel return_read
  drain_payload [] s = if s.channel_closed then return_read eof [] s else return_read canceled [] s
  drain_payload (p ∷ rest) s = return_read (outcome_after_cancel p) rest s

  -- The outer `select` of `Recv`.
  pub select_recv : Case → StreamInternal M E → Option (StreamInternal M E × Place M E)
  unfolding take_payload
  select_recv cancel_case s = if s.cancel_done then some (s, draining) else none
  select_recv channel_case s = take_payload s.queue s
  select_recv close_case s = none

  -- One statement of a goroutine.
  pub run_statement :
      Case → Place M E → StreamInternal M E → Option (StreamInternal M E × Place M E)
  unfolding select_send close_channel select_recv drain_payload
  run_statement c (sending p) s =
      if s.closed then some (s, returned illegal) else some (s, read_locking p)
  run_statement c (read_locking p) s =
      if s.writing then none else some (record s { readers = s.readers + 1 }, rechecking p)
  run_statement c (rechecking p) s =
      if s.closed then some (s, read_unlocking illegal) else some (s, polling p)
  run_statement c (polling p) s =
      if s.cancel_done then some (s, read_unlocking illegal) else some (s, selecting p)
  run_statement c (selecting p) s = select_send c p s
  run_statement c (read_unlocking o) s = some (record s { readers = s.readers - 1 }, returned o)
  run_statement c closing s = if s.closed then some (s, returned done) else some (s, write_locking)
  run_statement c write_locking s =
      if not s.writing && s.readers == 0
      then some (record s { writing = true }, close_checking)
      else none
  run_statement c close_checking s =
      if s.closed then some (s, write_unlocking) else some (s, marking)
  run_statement c marking s = some (record s { closed = true }, closing_channel)
  run_statement c closing_channel s = some (close_channel s, write_unlocking)
  run_statement c write_unlocking s = some (record s { writing = false }, returned done)
  run_statement c receiving s = select_recv c s
  run_statement c draining s = drain_payload s.queue s
  run_statement c (returned o) s = none

-- The state with the goroutines that use it.
pub record System (M E : Type 0) : Type 0 where
  pub stream : StreamInternal M E
  pub places : List (Place M E)

-- What can happen: a call starts, a goroutine runs a statement, or one of the contexts ends.
pub data Event (M E : Type 0) : Type 0 where
  call_send : Payload M E → Event M E
  call_close : Event M E
  call_recv : Event M E
  run : ℕ → Case → Event M E
  cancel : Event M E
  server_close : Event M E

unfoldable pub put_place : {A : Type 0} → ℕ → A → List A → List A
put_place n p [] = []
put_place zero p (q ∷ qs) = p ∷ qs
put_place (suc n) p (q ∷ qs) = q ∷ put_place n p qs

module _ {M E : Type 0} where
  pub resume : ℕ → List (Place M E) → Option (StreamInternal M E × Place M E) → Option (System M E)
  unfolding put_place
  resume n ps none = none
  resume n ps (some (s, p)) = some (record { stream = s; places = put_place n p ps })

  pub run_place : ℕ → Case → Option (Place M E) → System M E → Option (System M E)
  unfolding resume run_statement
  run_place n c none y = none
  run_place n c (some p) y = resume n y.places (run_statement c p y.stream)

  unfoldable pub step : Event M E → System M E → Option (System M E)
  unfolding run_place
  step (call_send p) y = some (record y { places = sending p ∷ y.places })
  step call_close y = some (record y { places = closing ∷ y.places })
  step call_recv y = some (record y { places = receiving ∷ y.places })
  step (run n c) y = run_place n c (get_elem? y.places n) y
  step cancel y = let s = y.stream in some (record y { stream = record s { cancel_done = true } })
  step server_close y =
      let s = y.stream in some (record y { stream = record s { close_done = true } })

  -- A run: steps that cannot be taken leave the state as it is.
  unfoldable pub steps : List (Event M E) → System M E → System M E
  unfolding step
  steps [] y = y
  steps (e ∷ es) y = elim (step e y) [ none ↦ steps es y | some z ↦ steps es z ]

  abbrev pub new_system : System M E
  new_system = record { stream = new_internal; places = [] }
