-- ===== src/Stream/Header.antt =====
-- The header of a stream, `headerWrapper` of stream/grpc_stream.go: metadata that `SetHeader` joins
-- to, until `Send` marks it as sent and closes the channel for which `Header` waits. The goroutines
-- are at places as in the stream; the metadata, `metadata.Join` and the test for no entries are
-- parameters.
pub mod Fixed
use go_framework.Base.{
  ℕ, Bool, true, false, List, [], ◌∷◌, Option, none, some, get_elem?, if◌then◌else◌,
}
use go_framework.Stream.{put_place}

-- Where a goroutine stands: in `SetHeader`, in `Send`, in `Header`, or returned. `refused` is
-- `ErrIllegalHeaderWrite`.
pub data HeaderPlace (MD : Type 0) : Type 0 where
  setting : MD → HeaderPlace MD
  set_locking : MD → HeaderPlace MD
  set_checking : MD → HeaderPlace MD
  joining : MD → HeaderPlace MD
  set_unlocking : Bool → HeaderPlace MD
  set_returned : Bool → HeaderPlace MD
  send_starting : HeaderPlace MD
  send_locking : HeaderPlace MD
  send_checking : HeaderPlace MD
  send_marking : HeaderPlace MD
  send_closing : HeaderPlace MD
  send_unlocking : HeaderPlace MD
  send_returned : HeaderPlace MD
  awaiting : HeaderPlace MD
  reading : HeaderPlace MD
  header_returned : MD → HeaderPlace MD

pub record HeaderWrapper (MD : Type 0) : Type 0 where
  pub is_sent : Bool
  pub md : MD
  pub locked : Bool
  pub ch_closed : Bool
  pub ch_panicked : Bool

pub record HeaderSystem (MD : Type 0) : Type 0 where
  pub header : HeaderWrapper MD
  pub users : List (HeaderPlace MD)

pub data HeaderEvent (MD : Type 0) : Type 0 where
  call_set_header : MD → HeaderEvent MD
  call_send_header : HeaderEvent MD
  call_header : HeaderEvent MD
  run_user : ℕ → HeaderEvent MD

module _ {MD : Type 0} where
  -- `close(s.ch)`.
  unfoldable pub close_ch : HeaderWrapper MD → HeaderWrapper MD
  close_ch h =
      if h.ch_closed then record h { ch_panicked = true } else record h { ch_closed = true }

  unfoldable pub lock :
      HeaderPlace MD → HeaderWrapper MD → Option (HeaderWrapper MD × HeaderPlace MD)
  lock p h = if h.locked then none else some (record h { locked = true }, p)

  pub resume_user :
      ℕ → HeaderSystem MD → Option (HeaderWrapper MD × HeaderPlace MD) → HeaderSystem MD
  unfolding put_place
  resume_user n y none = y
  resume_user n y (some (h, p)) = record { header = h; users = put_place n p y.users }

module _ {MD : Type 0} (join : MD → MD → MD) (is_empty : MD → Bool) where
  -- One statement of a goroutine; `true` of a return of `SetHeader` means that it was refused.
  unfoldable pub advance_header :
      HeaderPlace MD → HeaderWrapper MD → Option (HeaderWrapper MD × HeaderPlace MD)
  unfolding close_ch lock
  advance_header (setting m) h =
      if h.is_sent then some (h, set_returned true) else some (h, set_locking m)
  advance_header (set_locking m) h = lock (set_checking m) h
  advance_header (set_checking m) h =
      if h.is_sent
      then some (h, set_unlocking true)
      else if is_empty m
      then some (h, set_unlocking false)
      else some (h, joining m)
  advance_header (joining m) h = some (record h { md = join h.md m }, set_unlocking false)
  advance_header (set_unlocking r) h = some (record h { locked = false }, set_returned r)
  advance_header (set_returned r) h = none
  advance_header send_starting h =
      if h.is_sent then some (h, send_returned) else some (h, send_locking)
  advance_header send_locking h = lock send_checking h
  advance_header send_checking h =
      if h.is_sent then some (h, send_unlocking) else some (h, send_marking)
  advance_header send_marking h = some (record h { is_sent = true }, send_closing)
  advance_header send_closing h = some (close_ch h, send_unlocking)
  advance_header send_unlocking h = some (record h { locked = false }, send_returned)
  advance_header send_returned h = none
  advance_header awaiting h = if h.ch_closed then some (h, reading) else none
  advance_header reading h = some (h, header_returned h.md)
  advance_header (header_returned m) h = none

  pub run_at : ℕ → Option (HeaderPlace MD) → HeaderSystem MD → HeaderSystem MD
  unfolding advance_header resume_user
  run_at n none y = y
  run_at n (some p) y = resume_user n y (advance_header p y.header)

  pub step_header : HeaderEvent MD → HeaderSystem MD → HeaderSystem MD
  unfolding run_at
  step_header (call_set_header m) y = record y { users = setting m ∷ y.users }
  step_header call_send_header y = record y { users = send_starting ∷ y.users }
  step_header call_header y = record y { users = awaiting ∷ y.users }
  step_header (run_user n) y = run_at n (get_elem? y.users n) y

  -- A run: a goroutine that waits stays where it is.
  unfoldable pub steps_header : List (HeaderEvent MD) → HeaderSystem MD → HeaderSystem MD
  unfolding step_header
  steps_header [] y = y
  steps_header (e ∷ es) y = steps_header es (step_header e y)

module _ {MD : Type 0} where
  -- The header of a new stream, whose metadata is the empty `nil`.
  abbrev pub new_header : MD → HeaderSystem MD
  new_header nil = record {
    header = record {
      is_sent = false;
      md = nil;
      locked = false;
      ch_closed = false;
      ch_panicked = false;
    };
    users = [];
  }
