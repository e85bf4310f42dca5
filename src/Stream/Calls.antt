-- ===== src/Stream/Calls.antt =====
-- The calls of an in-process gRPC stream, `GrpcStream` with its client's and its server's half of
-- stream/grpc_stream.go, one at a time: each runs its goroutine alone on the directions and the
-- header, and `none` says that it would wait. `ch` is the case of `select` that it takes. What
-- `reflect` copies of a message is the message.
mod Alone
pub mod Status
use go_framework.Base.{
  ℕ, zero, suc, ◌+◌, Bool, true, false, not, ◌||◌, List, [], ◌∷◌, Option, none, some, if◌then◌else◌,
  length,
}
use go_framework.Stream.{
  Payload, type_eof, type_err, type_data, CallOutcome, done, illegal, message, failed, eof,
  canceled, Case, Place, sending, closing, receiving, returned, StreamInternal, new_internal,
  run_statement,
}
use go_framework.Stream.Header.{
  HeaderPlace, setting, set_returned, send_starting, send_returned, HeaderWrapper, advance_header,
  new_header,
}

infixl 5 ◌>>=◌
abbrev pub ◌>>=◌ : {A B : Type 0} → Option A → (A → Option B) → Option B
none >>= f = none
some a >>= f = f a

pub record GrpcStream (M E MD : Type 0) : Type 0 where
  pub c2s : StreamInternal M E
  pub s2c : StreamInternal M E
  pub srv_closed : Bool
  pub header : HeaderWrapper MD
  pub trailer : MD
  pub once_close : Bool

-- More statements than any call has.
abbrev pub call_fuel : ℕ
call_fuel = 8

module _ {M E : Type 0} where
  -- A call that runs alone, to its return.
  unfoldable pub run_call :
      ℕ → Case → Place M E → StreamInternal M E → Option (StreamInternal M E × CallOutcome M E)
  run_call zero c p s = none
  run_call (suc f) c (returned o) s = some (s, o)
  run_call (suc f) c p s = run_statement c p s >>= λ r. run_call f c r.1 r.0

module _ {M E MD : Type 0} where
  unfoldable pub new_grpc_stream : MD → GrpcStream M E MD
  new_grpc_stream nil = record {
    c2s = new_internal;
    s2c = new_internal;
    srv_closed = false;
    header = (new_header nil).header;
    trailer = nil;
    once_close = false;
  }

  -- `_GrpcClientStream.SendMsg`.
  unfoldable pub client_send_msg :
      Case → M → GrpcStream M E MD → Option (GrpcStream M E MD × CallOutcome M E)
  client_send_msg ch m g =
      if g.srv_closed
      then some (g, eof)
      else run_call call_fuel ch (sending (type_data m)) g.c2s >>= λ r.
          some (record g { c2s = r.0 }, r.1)

  -- `_GrpcClientStream.CloseSend`, whose body runs once.
  unfoldable pub close_send :
      Case → GrpcStream M E MD → Option (GrpcStream M E MD × CallOutcome M E)
  close_send ch g =
      if g.once_close
      then some (g, done)
      else run_call call_fuel ch closing g.c2s >>= λ r.
          some (record g { c2s = r.0; once_close = true }, r.1)

  -- `RecvMsg` of the client and of the server.
  unfoldable pub client_recv_msg :
      Case → GrpcStream M E MD → Option (GrpcStream M E MD × CallOutcome M E)
  client_recv_msg ch g =
      run_call call_fuel ch receiving g.s2c >>= λ r. some (record g { s2c = r.0 }, r.1)

  unfoldable pub server_recv_msg :
      Case → GrpcStream M E MD → Option (GrpcStream M E MD × CallOutcome M E)
  server_recv_msg ch g =
      run_call call_fuel ch receiving g.c2s >>= λ r. some (record g { c2s = r.0 }, r.1)

  -- The status as a payload, if there is an error.
  unfoldable pub send_status : Case → Option E → GrpcStream M E MD → Option (GrpcStream M E MD)
  send_status ch none g = some g
  send_status ch (some e) g =
      run_call call_fuel ch (sending (type_err e)) g.s2c >>= λ r. some (record g { s2c = r.0 })

  -- `srvCloseFunc` ends the context that both directions watch.
  unfoldable pub srv_close : GrpcStream M E MD → GrpcStream M E MD
  srv_close g =
      let c = g.c2s in
      let s = g.s2c in
      record g { c2s = record c { close_done = true }; s2c = record s { close_done = true } }

module _ {MD : Type 0} (join : MD → MD → MD) (is_empty : MD → Bool) where
  -- `headerWrapper.SetHeader` alone; `true` is a refusal.
  unfoldable pub run_set : ℕ → HeaderPlace MD → HeaderWrapper MD → Option (HeaderWrapper MD × Bool)
  run_set zero p h = none
  run_set (suc f) (set_returned r) h = some (h, r)
  run_set (suc f) p h = advance_header join is_empty p h >>= λ r. run_set f r.1 r.0

  -- `headerWrapper.Send` alone.
  unfoldable pub run_send : ℕ → HeaderPlace MD → HeaderWrapper MD → Option (HeaderWrapper MD)
  run_send zero p h = none
  run_send (suc f) send_returned h = some h
  run_send (suc f) p h = advance_header join is_empty p h >>= λ r. run_send f r.1 r.0

  module _ {M E : Type 0} where
    -- `_GrpcServerStream.SetHeader`.
    unfoldable pub server_set_header : MD → GrpcStream M E MD → Option (GrpcStream M E MD × Bool)
    server_set_header md g =
        if is_empty md
        then some (g, false)
        else if g.srv_closed
        then some (g, true)
        else run_set call_fuel (setting md) g.header >>= λ r. some (record g { header = r.0 }, r.1)

    -- `_GrpcServerStream.SendHeader`.
    unfoldable pub send_header : MD → GrpcStream M E MD → Option (GrpcStream M E MD × Bool)
    send_header md g =
        if g.srv_closed
        then some (g, true)
        else run_set call_fuel (setting md) g.header >>= λ r.
            if r.1
            then some (record g { header = r.0 }, true)
            else run_send call_fuel send_starting r.0 >>= λ h. some (record g { header = h }, false)

    -- `trailerWrapper.SetTrailer`, a block under its lock.
    unfoldable pub set_trailer : MD → GrpcStream M E MD → GrpcStream M E MD
    set_trailer md g = if is_empty md then g else record g { trailer = join g.trailer md }

    module _ (nil : MD) where
      -- `_GrpcServerStream.SendMsg`, which sends a header of no entries first.
      unfoldable pub server_send_msg :
          Case → M → GrpcStream M E MD → Option (GrpcStream M E MD × CallOutcome M E)
      server_send_msg ch m g = send_header nil g >>= λ q.
          run_call call_fuel ch (sending (type_data m)) q.0.s2c >>= λ r.
          some (record q.0 { s2c = r.0 }, r.1)

      -- `GrpcStream.WriteStatus`.
      unfoldable pub write_status : Case → Option E → GrpcStream M E MD → Option (GrpcStream M E MD)
      write_status ch err g =
          if g.srv_closed
          then some g
          else send_header nil g >>= λ q. send_status ch err q.0 >>= λ r.
              run_call call_fuel ch closing (srv_close r).s2c >>= λ c.
              some (record (srv_close r) { s2c = c.0; srv_closed = true })
