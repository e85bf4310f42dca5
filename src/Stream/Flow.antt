-- ===== src/Stream/Flow.antt =====
-- The messages of one direction of a stream across one statement of a goroutine.
use mathlib.Core.Path.{subst}
use mathlib.Core.List.{append-nil, append_assoc}
use go_framework.Base.{
  ◌≤◌, ◌<◌, Bool, true, false, List, [], ◌∷◌, ◌++◌, Option, none, some, ◌≡◌, refl, sym, ap, arith,
  ◌∙◌, ltb, length, if◌then◌else◌, length-append, not, ◌&&◌, ◌==◌,
}
use go_framework.Stream.{
  Payload, type_eof, type_err, type_data, CallOutcome, done, illegal, message, failed, eof,
  canceled, Case, cancel_case, channel_case, close_case, Place, sending, read_locking, rechecking,
  polling, selecting, read_unlocking, closing, write_locking, close_checking, marking,
  closing_channel, write_unlocking, receiving, draining, returned, StreamInternal, put_payload,
  close_channel, payload_outcome, outcome_after_cancel, return_read, take_payload, drain_payload,
  run_statement, queue_depth,
}
use go_framework.Stream.Subsequence.{
  IsSubsequence, IsSubsequence-refl, IsSubsequence-trans, IsSubsequence-append,
  IsSubsequence-without,
}

module _ {M E : Type 0} where
  -- The messages among payloads, and among what calls of `Recv` returned.
  unfoldable pub waiting : List (Payload M E) → List M
  waiting [] = []
  waiting (type_eof ∷ ps) = waiting ps
  waiting (type_err e ∷ ps) = waiting ps
  waiting (type_data m ∷ ps) = m ∷ waiting ps

  unfoldable pub received : List (CallOutcome M E) → List M
  received [] = []
  received (message m ∷ os) = m ∷ received os
  received (done ∷ os) = received os
  received (illegal ∷ os) = received os
  received (failed e ∷ os) = received os
  received (eof ∷ os) = received os
  received (canceled ∷ os) = received os

  waiting-append : (xs ys : List (Payload M E)) → waiting (xs ++ ys) ≡ waiting xs ++ waiting ys
  unfolding waiting
  waiting-append [] ys = refl
  waiting-append (type_eof ∷ xs) ys = waiting-append xs ys
  waiting-append (type_err e ∷ xs) ys = waiting-append xs ys
  waiting-append (type_data m ∷ xs) ys = ap (λ r. m ∷ r) (waiting-append xs ys)

  received-append :
      (xs ys : List (CallOutcome M E)) → received (xs ++ ys) ≡ received xs ++ received ys
  unfolding received
  received-append [] ys = refl
  received-append (message m ∷ xs) ys = ap (λ r. m ∷ r) (received-append xs ys)
  received-append (done ∷ xs) ys = received-append xs ys
  received-append (illegal ∷ xs) ys = received-append xs ys
  received-append (failed e ∷ xs) ys = received-append xs ys
  received-append (eof ∷ xs) ys = received-append xs ys
  received-append (canceled ∷ xs) ys = received-append xs ys

  -- What was received and then what waits in the buffer.
  abbrev pub flow : List (CallOutcome M E) → List (Payload M E) → List M
  flow os ps = received os ++ waiting ps

  flow-put :
      (os : List (CallOutcome M E)) (ps : List (Payload M E)) (p : Payload M E)
      → flow os (ps ++ p ∷ []) ≡ flow os ps ++ waiting (p ∷ [])
  flow-put os ps p = rw waiting-append (sym (append_assoc (received os) (waiting ps) _))

  flow-take :
      (os : List (CallOutcome M E)) (p : Payload M E) (ps : List (Payload M E))
      → flow (os ++ payload_outcome p ∷ []) ps ≡ flow os (p ∷ ps)
  unfolding received waiting payload_outcome
  flow-take os type_eof ps = rw (received-append, append-nil) refl
  flow-take os (type_err e) ps = rw (received-append, append-nil) refl
  flow-take os (type_data m) ps = simp (received-append, append_assoc)

  flow-drain :
      (os : List (CallOutcome M E)) (p : Payload M E) (ps : List (Payload M E))
      → IsSubsequence (flow (os ++ outcome_after_cancel p ∷ []) ps) (flow os (p ∷ ps))
  unfolding received waiting outcome_after_cancel
  flow-drain os type_eof ps = rw (received-append, append-nil) (IsSubsequence-refl _)
  flow-drain os (type_err e) ps = rw (received-append, append-nil) (IsSubsequence-refl _)
  flow-drain os (type_data m) ps =
      rw (received-append, append-nil) (IsSubsequence-without (received os) m (waiting ps))

  flow-none :
      (os : List (CallOutcome M E)) (o : CallOutcome M E) (ps : List (Payload M E))
      → received (o ∷ []) ≡ []
      → flow (os ++ o ∷ []) ps ≡ flow os ps
  flow-none os o ps h = rw (received-append, h, append-nil) refl

  -- The messages of one direction are in order: nothing is invented, doubled or overtaken, and
  -- nothing is lost unless the context was cancelled.
  pub record IsInOrder (s : StreamInternal M E) : Type 0 where
    pub part : IsSubsequence (flow s.reads s.queue) (waiting s.sent)
    pub whole : s.cancel_done ≡ false → flow s.reads s.queue ≡ waiting s.sent
    pub bounded : length s.queue ≤ queue_depth

  -- `Recv` drains only after the context was cancelled.
  abbrev pub DrainsIf : Bool → Place M E → Type 0
  DrainsIf b draining = b ≡ true
  DrainsIf b p = Unit {0}

  abbrev pub Flows : StreamInternal M E → Option (StreamInternal M E × Place M E) → Type 0
  Flows s none = Unit
  Flows s (some (t, p)) = IsInOrder t × (t.cancel_done ≡ s.cancel_done) × DrainsIf s.cancel_done p

  put-IsInOrder :
      (p : Payload M E) (s : StreamInternal M E)
      → IsInOrder s
      → length s.queue < queue_depth
      → IsInOrder (record s { queue = s.queue ++ p ∷ []; sent = s.sent ++ p ∷ [] })
  put-IsInOrder p s h k = record {
    part =
        subst (λ r. IsSubsequence (flow s.reads (s.queue ++ p ∷ [])) r)
          (sym (waiting-append s.sent (p ∷ [])))
          (subst (λ r. IsSubsequence r (waiting s.sent ++ waiting (p ∷ [])))
            (sym (flow-put s.reads s.queue p)) (IsSubsequence-append h.part (waiting (p ∷ []))));
    whole = λ c.
        flow-put s.reads s.queue p
        ∙ ap (λ r. r ++ waiting (p ∷ [])) (h.whole c)
        ∙ sym (waiting-append s.sent (p ∷ []));
    bounded = rw (length-append s.queue) (omega arith);
  }

  Flows-if :
      (s : StreamInternal M E) (b : Bool) (x y : Option (StreamInternal M E × Place M E))
      → (b ≡ true → Flows s x)
      → (b ≡ false → Flows s y)
      → Flows s (if b then x else y)
  Flows-if s true x y h k = h refl
  Flows-if s false x y h k = k refl

  put_payload-Flows :
      (p : Payload M E) (s : StreamInternal M E) → IsInOrder s → Flows s (put_payload p s)
  unfolding put_payload
  put_payload-Flows p s h =
      Flows-if s s.channel_closed _ _
        (λ _. (record { part = h.part; whole = h.whole; bounded = h.bounded }, refl, tt))
        (λ _.
          Flows-if s (ltb (length s.queue) queue_depth) _ _
            (λ room. (put-IsInOrder p s h (ground arith), refl, tt)) (λ full. tt))

  take-IsInOrder :
      (o : CallOutcome M E) (rest : List (Payload M E)) (s : StreamInternal M E)
      → IsInOrder s
      → flow (s.reads ++ o ∷ []) rest ≡ flow s.reads s.queue
      → length rest ≤ length s.queue
      → IsInOrder (record s { queue = rest; reads = s.reads ++ o ∷ [] })
  take-IsInOrder o rest s h e k = record {
    part = subst (λ r. IsSubsequence r (waiting s.sent)) (sym e) h.part;
    whole = λ c. e ∙ h.whole c;
    bounded = omega (arith, h.bounded);
  }

  -- After the context was cancelled, what is left of the flow is a subsequence still.
  drain-IsInOrder :
      (o : CallOutcome M E) (rest : List (Payload M E)) (s : StreamInternal M E)
      → IsInOrder s
      → s.cancel_done ≡ true
      → IsSubsequence (flow (s.reads ++ o ∷ []) rest) (flow s.reads s.queue)
      → length rest ≤ length s.queue
      → IsInOrder (record s { queue = rest; reads = s.reads ++ o ∷ [] })
  drain-IsInOrder o rest s h d e k = record {
    part = IsSubsequence-trans h.part _ e;
    whole = λ c. absurd (cc);
    bounded = omega (arith, h.bounded);
  }

  take_payload-Flows :
      (q : List (Payload M E)) (s : StreamInternal M E)
      → s.queue ≡ q
      → IsInOrder s
      → Flows s (take_payload q s)
  unfolding take_payload return_read received
  take_payload-Flows [] s e h =
      Flows-if s s.channel_closed _ _
        (λ _. (
          take-IsInOrder eof [] s h (rw e (flow-none s.reads eof [] refl)) (rw e (omega arith)),
          refl,
          tt,
        ))
        (λ _. tt)
  take_payload-Flows (p ∷ q) s e h =
      (take-IsInOrder _ q s h (rw e (flow-take s.reads p q)) (rw e (omega arith)), refl, tt)

  drain_payload-Flows :
      (q : List (Payload M E)) (s : StreamInternal M E)
      → s.queue ≡ q
      → s.cancel_done ≡ true
      → IsInOrder s
      → Flows s (drain_payload q s)
  unfolding drain_payload return_read received
  drain_payload-Flows [] s e d h =
      Flows-if s s.channel_closed _ _
        (λ _. (
          take-IsInOrder eof [] s h (rw e (flow-none s.reads eof [] refl)) (rw e (omega arith)),
          refl,
          tt,
        ))
        (λ _. (
          take-IsInOrder canceled [] s h (rw e (flow-none s.reads canceled [] refl))
              (rw e (omega arith)),
          refl,
          tt,
        ))
  drain_payload-Flows (p ∷ q) s e d h =
      (drain-IsInOrder _ q s h d (rw e (flow-drain s.reads p q)) (rw e (omega arith)), refl, tt)

  pub with_same :
      (s t : StreamInternal M E)
      → t.queue ≡ s.queue
      → t.reads ≡ s.reads
      → t.sent ≡ s.sent
      → t.cancel_done ≡ s.cancel_done
      → IsInOrder s
      → IsInOrder t
  with_same s t e f g h i = record {
    part = rw (e, f, g) i.part;
    whole = λ c. rw (e, f, g) (i.whole (sym h ∙ c));
    bounded = rw e i.bounded;
  }

  close_channel-Flows :
      (s : StreamInternal M E) → IsInOrder s → Flows s (some (close_channel s, write_unlocking))
  unfolding close_channel
  close_channel-Flows s h = (
    with_same s _ (ground arith) (ground arith) (ground arith) (ground arith) h,
    ground arith,
    tt,
  )

  pub run_statement-Flows :
      (c : Case) (p : Place M E) (s : StreamInternal M E)
      → IsInOrder s
      → DrainsIf s.cancel_done p
      → Flows s (run_statement c p s)
  unfolding run_statement
  run_statement-Flows c (sending p) s h d =
      Flows-if s s.closed _ _ (λ _. (h, refl, tt)) (λ _. (h, refl, tt))
  run_statement-Flows c (read_locking p) s h d =
      Flows-if s s.writing _ _ (λ _. tt) (λ _. (with_same s _ refl refl refl refl h, refl, tt))
  run_statement-Flows c (rechecking p) s h d =
      Flows-if s s.closed _ _ (λ _. (h, refl, tt)) (λ _. (h, refl, tt))
  run_statement-Flows c (polling p) s h d =
      Flows-if s s.cancel_done _ _ (λ _. (h, refl, tt)) (λ _. (h, refl, tt))
  run_statement-Flows cancel_case (selecting p) s h d =
      Flows-if s s.cancel_done _ _ (λ _. (h, refl, tt)) (λ _. tt)
  run_statement-Flows channel_case (selecting p) s h d = put_payload-Flows p s h
  run_statement-Flows close_case (selecting p) s h d =
      Flows-if s s.close_done _ _ (λ _. (h, refl, tt)) (λ _. tt)
  run_statement-Flows c (read_unlocking o) s h d = (with_same s _ refl refl refl refl h, refl, tt)
  run_statement-Flows c closing s h d =
      Flows-if s s.closed _ _ (λ _. (h, refl, tt)) (λ _. (h, refl, tt))
  run_statement-Flows c write_locking s h d =
      Flows-if s (not s.writing && s.readers == 0) _ _
        (λ _. (with_same s _ refl refl refl refl h, refl, tt)) (λ _. tt)
  run_statement-Flows c close_checking s h d =
      Flows-if s s.closed _ _ (λ _. (h, refl, tt)) (λ _. (h, refl, tt))
  run_statement-Flows c marking s h d = (with_same s _ refl refl refl refl h, refl, tt)
  run_statement-Flows c closing_channel s h d = close_channel-Flows s h
  run_statement-Flows c write_unlocking s h d = (with_same s _ refl refl refl refl h, refl, tt)
  run_statement-Flows cancel_case receiving s h d =
      Flows-if s s.cancel_done _ _ (λ e. (h, refl, e)) (λ _. tt)
  run_statement-Flows channel_case receiving s h d = take_payload-Flows s.queue s refl h
  run_statement-Flows close_case receiving s h d = tt
  run_statement-Flows c draining s h d = drain_payload-Flows s.queue s refl d h
  run_statement-Flows c (returned o) s h d = tt
