-- ===== src/Stream/Tests.antt =====
-- The theorems on streams at concrete inputs, and runs of them.
use go_framework.Base.{ℕ, Bool, true, false, List, [], ◌∷◌, ◌++◌, some, ◌≡◌, refl, arith, All}
use go_framework.Stream.{
  type_data, message, failed, eof, channel_case, Event, call_send, call_close, call_recv, run,
  steps, new_system,
}
use go_framework.Stream.NoPanic.{steps-panicked}
use go_framework.Stream.InOrder.{steps-IsInOrder}
use go_framework.Stream.Flow.{IsInOrder}
use go_framework.Stream.Header.{
  HeaderSystem, HeaderEvent, call_set_header, call_send_header, call_header, run_user, steps_header,
  new_header,
}
use go_framework.Stream.Header.Fixed.{steps_header-md, Returned}
use go_framework.Stream.Calls.{◌>>=◌, GrpcStream, new_grpc_stream, write_status}
use go_framework.Stream.Calls.Status.{serve, read_times, write_status-read_times}

-- A message is sent while another call closes the channel, and is received.
abbrev closing_sender : List (Event ℕ ℕ)
closing_sender =
    call_send (type_data 7)
    ∷ run 0 channel_case
    ∷ run 0 channel_case
    ∷ call_close
    ∷ run 0 channel_case
    ∷ run 0 channel_case
    ∷ run 1 channel_case
    ∷ run 1 channel_case
    ∷ run 1 channel_case
    ∷ run 1 channel_case
    ∷ run 0 channel_case
    ∷ run 0 channel_case
    ∷ run 0 channel_case
    ∷ run 0 channel_case
    ∷ run 0 channel_case
    ∷ call_recv
    ∷ run 0 channel_case
    ∷ []

steps-panicked_example : (steps closing_sender new_system).stream.panicked ≡ false
steps-panicked_example = steps-panicked closing_sender

steps-IsInOrder_example : IsInOrder (steps closing_sender new_system).stream
steps-IsInOrder_example = steps-IsInOrder closing_sender

closing_sender_read : (steps closing_sender new_system).stream.reads ≡ message 7 ∷ []
unfolding steps
closing_sender_read = refl

closing_sender_closed : (steps closing_sender new_system).stream.channel_closed ≡ true
unfolding steps
closing_sender_closed = refl

-- Metadata as lists of numbers.
abbrev no_entries : List ℕ → Bool
no_entries [] = true
no_entries (x ∷ xs) = false

abbrev sending_header : List (HeaderEvent (List ℕ))
sending_header =
    call_set_header (3 ∷ [])
    ∷ run_user 0
    ∷ run_user 0
    ∷ run_user 0
    ∷ run_user 0
    ∷ run_user 0
    ∷ call_send_header
    ∷ run_user 0
    ∷ run_user 0
    ∷ run_user 0
    ∷ run_user 0
    ∷ run_user 0
    ∷ run_user 0
    ∷ call_header
    ∷ run_user 0
    ∷ run_user 0
    ∷ []

abbrev late_header : List (HeaderEvent (List ℕ))
late_header = call_set_header (4 ∷ []) ∷ run_user 0 ∷ run_user 0 ∷ []

abbrev sent_header : HeaderSystem (List ℕ)
sent_header = steps_header ◌++◌ no_entries sending_header (new_header [])

abbrev later_header : HeaderSystem (List ℕ)
later_header = steps_header ◌++◌ no_entries late_header sent_header

sent_header_closed : sent_header.header.ch_closed ≡ true
unfolding steps_header
sent_header_closed = refl

sent_header_md : sent_header.header.md ≡ 3 ∷ []
unfolding steps_header
sent_header_md = refl

steps_header-md_example :
    (later_header.header.md ≡ sent_header.header.md)
    × All (Returned sent_header.header.md) later_header.users
    × (later_header.header.ch_panicked ≡ false)
steps_header-md_example =
    steps_header-md ◌++◌ no_entries [] sending_header late_header sent_header_closed

abbrev two_messages : List ℕ
two_messages = 5 ∷ 6 ∷ []

abbrev fresh_stream : GrpcStream ℕ ℕ (List ℕ)
fresh_stream = new_grpc_stream []

write_status-read_times_example :
    (serve ◌++◌ no_entries [] two_messages fresh_stream
      >>= write_status ◌++◌ no_entries [] channel_case (some 9)
      >>= read_times 5)
    ≡ some (message 5 ∷ message 6 ∷ failed 9 ∷ eof ∷ eof ∷ [])
write_status-read_times_example =
    write_status-read_times ◌++◌ no_entries [] two_messages (some 9) 2 (omega arith)
