-- ===== src/Stream/Calls/Alone.antt =====
-- What the calls of a stream leave when they run alone.
use go_framework.Base.{
  ◌<◌, Bool, true, false, List, [], ◌∷◌, ◌++◌, Option, some, ◌≡◌, refl, ap, ◌∙◌, arith,
  if◌then◌else◌, length, ltb,
}
use go_framework.Stream.{
  Payload, CallOutcome, done, channel_case, sending, closing, StreamInternal, run_statement,
  queue_depth,
}
use go_framework.Stream.Header.{
  setting, set_checking, set_unlocking, joining, send_starting, HeaderWrapper, advance_header,
}
use go_framework.Stream.Calls.{
  ◌>>=◌, GrpcStream, send_header, run_call, call_fuel, run_set, run_send,
}

module _ {M E : Type 0} where
  -- A direction that is open, and one that its sender closed.
  abbrev pub open_internal :
      List (Payload M E) → List (Payload M E) → List (CallOutcome M E) → Bool → StreamInternal M E
  open_internal q t r b = record {
    queue = q;
    channel_closed = false;
    closed = false;
    readers = 0;
    writing = false;
    cancel_done = false;
    close_done = b;
    panicked = false;
    sent = t;
    reads = r;
  }

  pub run_call-sending :
      (p : Payload M E) (q t : List (Payload M E)) (r : List (CallOutcome M E)) (b : Bool)
      → length q < queue_depth
      → run_call call_fuel channel_case (sending p) (open_internal q t r b)
        ≡ some (open_internal (q ++ p ∷ []) (t ++ p ∷ []) r b, done)
  unfolding run_call run_statement
  run_call-sending p q t r b h =
      let e : ltb (length q) queue_depth ≡ true = ground arith in rw e refl

  -- What `Close` leaves.
  abbrev pub closed_internal :
      List (Payload M E) → List (Payload M E) → List (CallOutcome M E) → StreamInternal M E
  closed_internal q t r = record {
    queue = q;
    channel_closed = true;
    closed = true;
    readers = 0;
    writing = false;
    cancel_done = false;
    close_done = true;
    panicked = false;
    sent = t;
    reads = r;
  }

  pub run_call-closing :
      (q t : List (Payload M E)) (r : List (CallOutcome M E))
      → run_call call_fuel channel_case closing (open_internal q t r true)
        ≡ some (closed_internal q t r, done)
  unfolding run_call run_statement
  run_call-closing q t r = refl

module _ {MD : Type 0} where
  -- A header that no goroutine holds.
  abbrev pub unlocked : Bool → MD → Bool → Bool → HeaderWrapper MD
  unlocked b m c d = record { is_sent = b; md = m; locked = false; ch_closed = c; ch_panicked = d }

module _ {MD : Type 0} (join : MD → MD → MD) (is_empty : MD → Bool) where
  abbrev checking : Bool → MD → Bool → Bool → HeaderWrapper MD
  checking b m v d = record { is_sent = b; md = m; locked = true; ch_closed = v; ch_panicked = d }

  checks :
      (x m : MD) (v d : Bool)
      → advance_header join is_empty (set_checking x) (checking false m v d)
        ≡ some (checking false m v d, if is_empty x then set_unlocking false else joining x)
  unfolding advance_header
  checks x m v d = ground arith

  run_set_free :
      (x m : MD) (v d e : Bool)
      → is_empty x ≡ e
      → run_set join is_empty call_fuel (setting x) (unlocked false m v d)
        ≡ some (unlocked false (if e then m else join m x) v d, false)
  unfolding run_set advance_header
  run_set_free x m v d true h =
      ap (λ o. o >>= λ r. run_set join is_empty 5 r.1 r.0)
        (checks x m v d
          ∙ ap (λ b. some (checking false m v d, if b then set_unlocking false else joining x)) h)
  run_set_free x m v d false h =
      ap (λ o. o >>= λ r. run_set join is_empty 5 r.1 r.0)
        (checks x m v d
          ∙ ap (λ b. some (checking false m v d, if b then set_unlocking false else joining x)) h)

  run_send_free :
      (m : MD) (v d : Bool)
      → run_send join is_empty call_fuel send_starting (unlocked false m v d)
        ≡ some (unlocked true m true (if v then true else d))
  unfolding run_send advance_header
  run_send_free m true d = refl
  run_send_free m false d = refl

module _ {M E MD : Type 0} where
  abbrev pub open_stream :
      StreamInternal M E → StreamInternal M E → HeaderWrapper MD → MD → Bool → GrpcStream M E MD
  open_stream c s h t o = record {
    c2s = c;
    s2c = s;
    srv_closed = false;
    header = h;
    trailer = t;
    once_close = o;
  }

module _ {M E MD : Type 0} (join : MD → MD → MD) (is_empty : MD → Bool) where
  -- Alone, `SendHeader` returns, and leaves the header free.
  abbrev pub SendsHeader : GrpcStream M E MD → Option (GrpcStream M E MD × Bool) → Type 0
  SendsHeader g o =
      (b : Bool) × (m : MD) × (c : Bool) × (d : Bool) × (r : Bool) × (o
        ≡ some (record g { header = unlocked b m c d }, r))

  pub send_header-SendsHeader :
      (x : MD) (c s : StreamInternal M E) (t : MD) (o b : Bool) (m : MD) (v d : Bool)
      → let g = open_stream c s (unlocked b m v d) t o in
        SendsHeader g (send_header join is_empty x g)
  unfolding send_header run_set advance_header
  send_header-SendsHeader x c s t o true m v d = (true, m, v, d, true, refl)
  send_header-SendsHeader x c s t o false m v d = (
    true,
    _,
    true,
    _,
    false,
    ap
          (λ q. q >>= λ r.
            if r.1
            then some (open_stream c s r.0 t o, true)
            else run_send join is_empty call_fuel send_starting r.0 >>= λ h.
                some (open_stream c s h t o, false))
          (run_set_free join is_empty x m v d (is_empty x) refl)
        ∙ ap (λ q. q >>= λ h. some (open_stream c s h t o, false))
            (run_send_free join is_empty (if is_empty x then m else join m x) v d),
  )
