-- ===== src/Stream/Calls/Status.antt =====
-- What a client reads of a server that sends messages and ends with a status.
use mathlib.Core.List.{append-nil, append_assoc}
use native.Mathlib.Nat.{zero-add, suc-add}
use go_framework.Base.{
  ℕ, zero, suc, ◌+◌, ◌<◌, Bool, true, false, List, [], ◌∷◌, ◌++◌, Option, none, some, ◌≡◌, refl, ap,
  ◌∙◌, ◌≤◌, length-append, arith, length, map, replicate,
}
use go_framework.Stream.{
  Payload, type_err, type_data, CallOutcome, done, message, failed, eof, channel_case, closing,
  StreamInternal, new_internal, run_statement, queue_depth, payload_outcome,
}
use go_framework.Stream.Header.{HeaderWrapper}
use go_framework.Stream.Calls.{
  ◌>>=◌, GrpcStream, new_grpc_stream, client_recv_msg, server_send_msg, write_status, run_call,
  call_fuel, send_status, srv_close,
}
use go_framework.Stream.Calls.Alone.{
  open_internal, closed_internal, unlocked, open_stream, run_call-sending, run_call-closing,
  send_header-SendsHeader,
}

length-map : {A B : Type 0} (f : A → B) (xs : List A) → length (map f xs) ≡ length xs
length-map f [] = refl
length-map f (x ∷ xs) = ap suc (length-map f xs)

module _ {M E MD : Type 0} where
  -- The client reads so many times.
  pub read_times : ℕ → GrpcStream M E MD → Option (List (CallOutcome M E))
  read_times zero g = some []
  read_times (suc n) g =
      client_recv_msg channel_case g >>= λ r. read_times n r.0 >>= λ os. some (r.1 ∷ os)

  read_times-closed :
      (ps : List (Payload M E)) (n : ℕ) (t : List (Payload M E)) (r : List (CallOutcome M E))
      (g : GrpcStream M E MD)
      → read_times (length ps + n) (record g { s2c = closed_internal ps t r })
        ≡ some (map payload_outcome ps ++ replicate n eof)
  unfolding read_times client_recv_msg run_call run_statement
  read_times-closed [] zero t r g = refl
  read_times-closed [] (suc n) t r g = rw zero-add (
      ap (λ o. o >>= λ os. some (eof ∷ os))
        (rw zero-add at (read_times-closed [] n t (r ++ eof ∷ []) g)))
  read_times-closed (p ∷ ps) n t r g = rw suc-add (
      ap (λ o. o >>= λ os. some (payload_outcome p ∷ os))
        (read_times-closed ps n t (r ++ payload_outcome p ∷ []) g))

module _ {M E MD : Type 0} (join : MD → MD → MD) (is_empty : MD → Bool) where
  module _ (nil : MD) where
    -- The server sends its messages, one after the other.
    pub serve : List M → GrpcStream M E MD → Option (GrpcStream M E MD)
    serve [] g = some g
    serve (m ∷ ms) g = server_send_msg join is_empty nil channel_case m g >>= λ r. serve ms r.0

    -- The messages wait for the client, in their order.
    abbrev Served :
        List (Payload M E)
        → StreamInternal M E
        → List (Payload M E)
        → MD
        → Bool
        → Option (GrpcStream M E MD)
        → Type 0
    Served q c t u o g =
        (b : Bool) × (m : MD) × (v : Bool) × (d : Bool) × (g
          ≡ some (open_stream c (open_internal q t [] false) (unlocked b m v d) u o))

    module _ (c : StreamInternal M E) (u : MD) (o : Bool) where
      server_send_msg-Served :
          (x : M) (q t : List (Payload M E)) (b : Bool) (m : MD) (v d : Bool)
          → length q < queue_depth
          → (b' : Bool) × (m' : MD) × (v' : Bool) × (d' : Bool) × (server_send_msg join is_empty nil
                channel_case x
                (open_stream c (open_internal q t [] false) (unlocked b m v d) u o)
              ≡ some (
                open_stream c
                    (open_internal (q ++ type_data x ∷ []) (t ++ type_data x ∷ []) [] false)
                    (unlocked b' m' v' d')
                    u
                    o,
                done,
              ))
      unfolding server_send_msg
      server_send_msg-Served x q t b m v d h =
          let (b', m', v', d', r, e) =
            send_header-SendsHeader join is_empty nil c (open_internal q t [] false) u o b m v d in
          (
            b',
            m',
            v',
            d',
            rw e (
                ap (λ s. s >>= λ r. some (open_stream c r.0 (unlocked b' m' v' d') u o, r.1))
                  (run_call-sending (type_data x) q t [] false h)),
          )

      serve-Served :
          (ms : List M) (q t : List (Payload M E)) (b : Bool) (m : MD) (v d : Bool)
          → length q + length ms ≤ queue_depth
          → Served
              (q ++ map type_data ms)
              c
              (t ++ map type_data ms)
              u
              o
              (serve ms (open_stream c (open_internal q t [] false) (unlocked b m v d) u o))
      unfolding serve
      serve-Served [] q t b m v d h = (b, m, v, d, rw (append-nil q, append-nil t) refl)
      serve-Served (x ∷ ms) q t b m v d h =
          let (b', m', v', d', e) = server_send_msg-Served x q t b m v d (omega arith) in
          let k : length (q ++ type_data x ∷ []) + length ms ≤ queue_depth =
            rw (length-append q) (omega arith) in
          let (b'', m'', v'', d'', f) =
            serve-Served ms (q ++ type_data x ∷ []) (t ++ type_data x ∷ []) b' m' v' d' k in
          (b'', m'', v'', d'', rw e (f ∙ simp append_assoc))

    -- The status as a payload.
    abbrev status_payloads : Option E → List (Payload M E)
    status_payloads none = []
    status_payloads (some e) = type_err e ∷ []

    module _ (u : MD) (o : Bool) where
      abbrev closed_stream :
          StreamInternal M E
          → List (Payload M E)
          → List (Payload M E)
          → HeaderWrapper MD
          → GrpcStream M E MD
      closed_stream c q t h = record {
        c2s = record c { close_done = true };
        s2c = closed_internal q t [];
        srv_closed = true;
        header = h;
        trailer = u;
        once_close = o;
      }

      close_lem :
          (c : StreamInternal M E) (q t : List (Payload M E)) (h : HeaderWrapper MD)
          → (run_call call_fuel channel_case closing (open_internal q t [] true) >>= λ r.
              some (record {
                c2s = record c { close_done = true };
                s2c = r.0;
                srv_closed = true;
                header = h;
                trailer = u;
                once_close = o;
              }))
            ≡ some (closed_stream c q t h)
      close_lem c q t h = rw (run_call-closing q t []) refl

      write_status_lem :
          (err : Option E) (c : StreamInternal M E) (q t : List (Payload M E)) (b : Bool) (m : MD)
          (v d : Bool)
          → length q < queue_depth
          → (h : HeaderWrapper MD) × (write_status join is_empty nil channel_case err
                (open_stream c (open_internal q t [] false) (unlocked b m v d) u o)
              ≡ some (closed_stream c (q ++ status_payloads err) (t ++ status_payloads err) h))
      unfolding write_status send_status srv_close
      write_status_lem none c q t b m v d k =
          let (b', m', v', d', r, e) =
            send_header-SendsHeader join is_empty nil c (open_internal q t [] false) u o b m v d in
          (unlocked b' m' v' d', rw (e, append-nil q, append-nil t) (close_lem c q t _))
      write_status_lem (some x) c q t b m v d k =
          let (b', m', v', d', r, e) =
            send_header-SendsHeader join is_empty nil c (open_internal q t [] false) u o b m v d in
          (
            unlocked b' m' v' d',
            rw (e, run_call-sending (type_err x) q t [] false k) (close_lem c _ _ _),
          )

    outcomes :
        (ms : List M) (ps : List (Payload M E))
        → map payload_outcome (map type_data ms ++ ps) ≡ map message ms ++ map payload_outcome ps
    unfolding payload_outcome
    outcomes [] ps = refl
    outcomes (m ∷ ms) ps = ap (λ r. message m ∷ r) (outcomes ms ps)

    -- What ends the messages: the error of the status, if there is one.
    abbrev pub status_outcomes : Option E → List (CallOutcome M E)
    status_outcomes none = []
    status_outcomes (some e) = failed e ∷ []

    status-outcomes :
        (err : Option E) → map payload_outcome (status_payloads err) ≡ status_outcomes err
    unfolding payload_outcome
    status-outcomes none = refl
    status-outcomes (some e) = refl

    -- Below the depth of the queue, a server on a new stream that sends its messages and writes a
    -- status is never blocked, and the client then reads all of them in their order, then the error
    -- of the status if there is one, and then the end of the stream, however often it reads on.
    pub write_status-read_times :
        (ms : List M) (err : Option E) (n : ℕ)
        → length ms < queue_depth
        → (serve ms (new_grpc_stream nil)
            >>= write_status join is_empty nil channel_case err
            >>= read_times (length ms + length (status_outcomes err) + n))
          ≡ some ((map message ms ++ status_outcomes err) ++ replicate n eof)
    unfolding new_grpc_stream
    write_status-read_times ms err n h =
        let (b, m, v, d, e) =
          serve-Served new_internal nil false ms [] [] false nil false false (omega arith) in
        let q : List (Payload M E) = map type_data ms in
        let (x, f) =
          write_status_lem nil false err new_internal q q b m v d
            (omega (arith, length-map {B = Payload M E} type_data ms)) in
        let os : map payload_outcome (q ++ status_payloads err)
            ≡ map message ms ++ status_outcomes err =
          rw (outcomes ms, status-outcomes err) refl in
        let k : length (q ++ status_payloads err) ≡ length ms + length (status_outcomes err) =
          rw (← length-map payload_outcome (q ++ status_payloads err), os)
            (rw (length-append (map message ms))
              (omega (arith, length-map {B = CallOutcome M E} message ms))) in
        let r =
          read_times-closed (q ++ status_payloads err) n (q ++ status_payloads err) []
            (closed_stream nil false new_internal [] [] x) in
        rw (e, f) (rw (k, os) at r)
