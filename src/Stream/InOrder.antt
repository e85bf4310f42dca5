-- ===== src/Stream/InOrder.antt =====
-- The messages of one direction of a stream: what was sent, what waits, and what was received.
use mathlib.Core.Path.{subst}
use go_framework.Base.{
  ℕ, Bool, true, List, [], ◌∷◌, Option, none, some, ◌≡◌, refl, sym, arith, get_elem?, All,
}
use go_framework.Stream.{
  Case, Place, sending, read_locking, rechecking, polling, selecting, read_unlocking, closing,
  write_locking, close_checking, marking, closing_channel, write_unlocking, receiving, draining,
  returned, StreamInternal, run_statement, System, Event, call_send, call_close, call_recv, run,
  cancel, server_close, put_place, resume, run_place, step, steps, new_system,
}
use go_framework.Stream.Count.{All-put_place, All-get_elem?}
use go_framework.Stream.Steps.{OnSome, steps-keeps}
use go_framework.Stream.Subsequence.{end}
use go_framework.Stream.Flow.{
  waiting, received, IsInOrder, DrainsIf, Flows, with_same, run_statement-Flows,
}

module _ {M E : Type 0} where
  record Orderly (y : System M E) : Type 0 where
    ordered : IsInOrder y.stream
    drains : All (DrainsIf y.stream.cancel_done) y.places

  DrainsIf-true : (b : Bool) (p : Place M E) → DrainsIf b p → DrainsIf true p
  DrainsIf-true b draining h = refl
  DrainsIf-true b (sending p) h = tt
  DrainsIf-true b (read_locking p) h = tt
  DrainsIf-true b (rechecking p) h = tt
  DrainsIf-true b (polling p) h = tt
  DrainsIf-true b (selecting p) h = tt
  DrainsIf-true b (read_unlocking o) h = tt
  DrainsIf-true b closing h = tt
  DrainsIf-true b write_locking h = tt
  DrainsIf-true b close_checking h = tt
  DrainsIf-true b marking h = tt
  DrainsIf-true b closing_channel h = tt
  DrainsIf-true b write_unlocking h = tt
  DrainsIf-true b receiving h = tt
  DrainsIf-true b (returned o) h = tt

  All-DrainsIf-true :
      (b : Bool) (ps : List (Place M E)) → All (DrainsIf b) ps → All (DrainsIf true) ps
  All-DrainsIf-true b [] h = tt
  All-DrainsIf-true b (p ∷ ps) h = (DrainsIf-true b p h.0, All-DrainsIf-true b ps h.1)

  resume-Orderly :
      (n : ℕ) (s : StreamInternal M E) (ps : List (Place M E))
      (o : Option (StreamInternal M E × Place M E))
      → Flows s o
      → All (DrainsIf s.cancel_done) ps
      → OnSome Orderly (resume n ps o)
  unfolding resume
  resume-Orderly n s ps none h k = tt
  resume-Orderly n s ps (some (t, p)) h k = record {
    ordered = h.0;
    drains =
        subst (λ b. All (DrainsIf b) (put_place n p ps)) (sym h.1)
          (All-put_place (DrainsIf s.cancel_done) n p ps h.2 k);
  }

  run_place-Orderly :
      (n : ℕ) (c : Case) (o : Option (Place M E)) (y : System M E)
      → get_elem? y.places n ≡ o
      → Orderly y
      → OnSome Orderly (run_place n c o y)
  unfolding run_place
  run_place-Orderly n c none y e h = tt
  run_place-Orderly n c (some p) y e h =
      resume-Orderly n y.stream y.places (run_statement c p y.stream)
        (run_statement-Flows c p y.stream h.ordered (All-get_elem? _ n p y.places h.drains e))
        h.drains

  step-Orderly : (e : Event M E) (y : System M E) → Orderly y → OnSome Orderly (step e y)
  unfolding step
  step-Orderly (call_send p) y h = record { ordered = h.ordered; drains = (tt, h.drains) }
  step-Orderly call_close y h = record { ordered = h.ordered; drains = (tt, h.drains) }
  step-Orderly call_recv y h = record { ordered = h.ordered; drains = (tt, h.drains) }
  step-Orderly (run n c) y h = run_place-Orderly n c (get_elem? y.places n) y refl h
  step-Orderly cancel y h = record {
    ordered = record {
      part = h.ordered.part;
      whole = λ c. absurd (cc);
      bounded = h.ordered.bounded;
    };
    drains = All-DrainsIf-true y.stream.cancel_done y.places h.drains;
  }
  step-Orderly server_close y h = record {
    ordered = with_same y.stream _ refl refl refl refl h.ordered;
    drains = h.drains;
  }

  new_system-Orderly : Orderly new_system
  unfolding waiting received
  new_system-Orderly = record {
    ordered = record { part = end; whole = λ _. refl; bounded = omega arith };
    drains = tt;
  }

  -- However the calls on a new stream interleave, the messages that `Recv` returned, followed by
  -- those in the buffer, are a subsequence of the messages that were sent, in their order, and all
  -- of them while the context is not cancelled; the buffer holds at most 16 payloads.
  pub steps-IsInOrder : (es : List (Event M E)) → IsInOrder (steps es new_system).stream
  steps-IsInOrder es = (steps-keeps Orderly step-Orderly es new_system new_system-Orderly).ordered
