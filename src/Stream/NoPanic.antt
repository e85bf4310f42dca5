-- ===== src/Stream/NoPanic.antt =====
-- The lock of `_StreamInternal` and its flag keep goroutines from a closed channel.
use go_framework.Base.{
  ℕ, ◌+◌, ◌≤◌, Bool, true, false, List, [], ◌∷◌, Option, none, some, ◌≡◌, refl, sym, arith,
  get_elem?,
}
use go_framework.Stream.{
  Payload, illegal, Case, cancel_case, channel_case, close_case, Place, sending, read_locking,
  rechecking, polling, selecting, read_unlocking, closing, write_locking, close_checking, marking,
  closing_channel, write_unlocking, receiving, draining, returned, StreamInternal, return_read,
  take_payload, drain_payload, run_statement, System, Event, call_send, call_close, call_recv, run,
  cancel, server_close, put_place, resume, run_place, step, steps, new_system,
}
use go_framework.Stream.Count.{
  one_if, count, count_others, count_others_lem, count_le, count_add_le,
}
use go_framework.Stream.Steps.{OnSome, steps-keeps}

module _ {M E : Type 0} where
  -- Places where the goroutine holds the read lock.
  abbrev holds_read : Place M E → Bool
  holds_read (rechecking p) = true
  holds_read (polling p) = true
  holds_read (selecting p) = true
  holds_read (read_unlocking o) = true
  holds_read p = false

  -- Places on the way to the channel, after the test of `closed`.
  abbrev sends : Place M E → Bool
  sends (polling p) = true
  sends (selecting p) = true
  sends p = false

  abbrev holds_write : Place M E → Bool
  holds_write close_checking = true
  holds_write marking = true
  holds_write closing_channel = true
  holds_write write_unlocking = true
  holds_write p = false

  abbrev is_marking : Place M E → Bool
  is_marking marking = true
  is_marking p = false

  abbrev is_closing : Place M E → Bool
  is_closing closing_channel = true
  is_closing p = false

  sends_read : (p : Place M E) → one_if (sends p) ≤ one_if (holds_read p)
  sends_read p = ground arith

  closing_write :
      (p : Place M E) → one_if (is_marking p) + one_if (is_closing p) ≤ one_if (holds_write p)
  closing_write p = ground arith

  -- What `readers` and `writing` say of the goroutines, and what the flag and the channel allow.
  record Kept (s : StreamInternal M E) (reads writes sends marks closes : ℕ) : Type 0 where
    counted : s.readers ≡ reads
    written : one_if s.writing ≡ writes
    apart : s.writing ≡ true → reads ≡ 0
    open_ : s.closed ≡ true → sends ≡ 0
    unmarked : s.closed ≡ true → marks ≡ 0
    marked : s.closed ≡ false → closes ≡ 0
    unclosed : s.channel_closed ≡ true → closes ≡ 0
    flagged : s.channel_closed ≡ true → s.closed ≡ true
    calm : s.panicked ≡ false

  abbrev IsCalm : System M E → Type 0
  IsCalm y =
      Kept y.stream (count holds_read y.places) (count holds_write y.places) (count sends y.places)
        (count is_marking y.places) (count is_closing y.places)

  -- A statement of one goroutine, beside count_others that are counted by `r w n k c`.
  abbrev Beside : ℕ → ℕ → ℕ → ℕ → ℕ → StreamInternal M E → Place M E → Type 0
  Beside r w n k c s p =
      Kept s (r + one_if (holds_read p)) (w + one_if (holds_write p)) (n + one_if (sends p))
        (k + one_if (is_marking p)) (c + one_if (is_closing p))

  abbrev Runs : ℕ → ℕ → ℕ → ℕ → ℕ → Option (StreamInternal M E × Place M E) → Type 0
  Runs r w n k c none = Unit
  Runs r w n k c (some (s, p)) = Beside r w n k c s p

  module _ (r w n k c : ℕ) (among : n ≤ r) (amid : k + c ≤ w) (s : StreamInternal M E) where
    take_payload-Runs :
        (q : List (Payload M E)) → Beside r w n k c s receiving → Runs r w n k c (take_payload q s)
    unfolding take_payload return_read
    take_payload-Runs [] h = ground arith
    take_payload-Runs (p ∷ q) h = ground arith

    drain_payload-Runs :
        (q : List (Payload M E)) → Beside r w n k c s draining → Runs r w n k c (drain_payload q s)
    unfolding drain_payload return_read
    drain_payload-Runs [] h = ground arith
    drain_payload-Runs (p ∷ q) h = ground arith

    run_statement-Runs :
        (d : Case) (p : Place M E) → Beside r w n k c s p → Runs r w n k c (run_statement d p s)
    unfolding run_statement
    run_statement-Runs d (sending p) h = ground arith
    run_statement-Runs d (read_locking p) h = ground arith
    run_statement-Runs d (rechecking p) h = ground arith
    run_statement-Runs d (polling p) h = ground arith
    run_statement-Runs cancel_case (selecting p) h = ground arith
    run_statement-Runs channel_case (selecting p) h = ground arith
    run_statement-Runs close_case (selecting p) h = ground arith
    run_statement-Runs d (read_unlocking o) h = ground arith
    run_statement-Runs d closing h = ground arith
    run_statement-Runs d write_locking h = ground arith
    run_statement-Runs d close_checking h = ground arith
    run_statement-Runs d marking h = ground arith
    run_statement-Runs d closing_channel h = ground arith
    run_statement-Runs d write_unlocking h = ground arith
    run_statement-Runs cancel_case receiving h = ground arith
    run_statement-Runs channel_case receiving h = take_payload-Runs s.queue h
    run_statement-Runs close_case receiving h = tt
    run_statement-Runs d draining h = drain_payload-Runs s.queue h
    run_statement-Runs d (returned o) h = tt

  Kept-eq :
      (s : StreamInternal M E) (a b c d e a' b' c' d' e' : ℕ)
      → a ≡ a'
      → b ≡ b'
      → c ≡ c'
      → d ≡ d'
      → e ≡ e'
      → Kept s a b c d e
      → Kept s a' b' c' d' e'
  Kept-eq s a b c d e a' b' c' d' e' p q r t u k = ground arith

  resume-IsCalm :
      (n : ℕ) (q : Place M E) (ps : List (Place M E)) (o : Option (StreamInternal M E × Place M E))
      → get_elem? ps n ≡ some q
      → Runs
          (count_others holds_read n ps q)
          (count_others holds_write n ps q)
          (count_others sends n ps q)
          (count_others is_marking n ps q)
          (count_others is_closing n ps q)
          o
      → OnSome IsCalm (resume n ps o)
  unfolding resume
  resume-IsCalm n q ps none h k = tt
  resume-IsCalm n q ps (some (s, p)) h k =
      Kept-eq s _ _ _ _ _ _ _ _ _ _ (count_others_lem holds_read n ps p q h).1
        (count_others_lem holds_write n ps p q h).1 (count_others_lem sends n ps p q h).1
        (count_others_lem is_marking n ps p q h).1 (count_others_lem is_closing n ps p q h).1 k

  run_place-IsCalm :
      (n : ℕ) (c : Case) (o : Option (Place M E)) (y : System M E)
      → get_elem? y.places n ≡ o
      → IsCalm y
      → OnSome IsCalm (run_place n c o y)
  unfolding run_place
  run_place-IsCalm n c none y h k = tt
  run_place-IsCalm n c (some q) y h k =
      let r = count_others_lem holds_read n y.places (returned illegal) q h in
      let w = count_others_lem holds_write n y.places (returned illegal) q h in
      let d = count_others_lem sends n y.places (returned illegal) q h in
      let m = count_others_lem is_marking n y.places (returned illegal) q h in
      let e = count_others_lem is_closing n y.places (returned illegal) q h in
      let rest = put_place n (returned illegal) y.places in
      resume-IsCalm n q y.places (run_statement c q y.stream) h (
        run_statement-Runs _ _ _ _ _
          (omega (arith, r.1, d.1, count_le sends holds_read (λ p. sends_read p) rest))
          (omega (
            arith,
            m.1,
            e.1,
            w.1,
            count_add_le is_marking is_closing holds_write (λ p. closing_write p) rest,
          ))
          y.stream c q
          (Kept-eq y.stream _ _ _ _ _ _ _ _ _ _ (sym r.0) (sym w.0) (sym d.0) (sym m.0) (sym e.0)
            k))

  step-IsCalm : (e : Event M E) (y : System M E) → IsCalm y → OnSome IsCalm (step e y)
  unfolding step count
  step-IsCalm (call_send p) y h = ground arith
  step-IsCalm call_close y h = ground arith
  step-IsCalm call_recv y h = ground arith
  step-IsCalm (run n c) y h = run_place-IsCalm n c (get_elem? y.places n) y refl h
  step-IsCalm cancel y h = ground arith
  step-IsCalm server_close y h = ground arith

  new_system-IsCalm : IsCalm new_system
  unfolding count
  new_system-IsCalm = ground arith

  -- However the calls of `Send`, `Close` and `Recv` on a new stream interleave, and whenever the
  -- contexts end, no goroutine puts a payload on a closed channel and none closes it twice.
  pub steps-panicked : (es : List (Event M E)) → (steps es new_system).stream.panicked ≡ false
  steps-panicked es = (steps-keeps IsCalm step-IsCalm es new_system new_system-IsCalm).calm
