-- ===== src/Stream/Header/Fixed.antt =====
-- A header that a client may read does not change any more.
use mathlib.Core.Path.{subst}
use go_framework.Base.{
  ℕ, ◌+◌, ◌≤◌, Bool, true, false, List, [], ◌∷◌, Option, none, some, ◌≡◌, refl, sym, arith, All,
  get_elem?, ◌∙◌,
}
use go_framework.Stream.{put_place}
use go_framework.Stream.Count.{
  one_if, count, count_others, count_others_lem, count_add_le, All-put_place, All-get_elem?,
}
use go_framework.Stream.Header.{
  HeaderPlace, setting, set_locking, set_checking, joining, set_unlocking, set_returned,
  send_starting, send_locking, send_checking, send_marking, send_closing, send_unlocking,
  send_returned, awaiting, reading, header_returned, HeaderWrapper, HeaderSystem, HeaderEvent,
  call_set_header, call_send_header, call_header, run_user, advance_header, resume_user, run_at,
  step_header, steps_header, new_header,
}

module _ {MD : Type 0} where
  -- Places at which the goroutine holds the mutex, and those after its test of `sent`.
  abbrev holds : HeaderPlace MD → Bool
  holds (set_checking m) = true
  holds (joining m) = true
  holds (set_unlocking r) = true
  holds send_checking = true
  holds send_marking = true
  holds send_closing = true
  holds send_unlocking = true
  holds p = false

  abbrev writes : HeaderPlace MD → Bool
  writes (joining m) = true
  writes send_marking = true
  writes p = false

  abbrev closes : HeaderPlace MD → Bool
  closes send_closing = true
  closes p = false

  closes_hold : (p : HeaderPlace MD) → one_if (writes p) + one_if (closes p) ≤ one_if (holds p)
  closes_hold p = ground arith

  record Kept (h : HeaderWrapper MD) (held writing closing : ℕ) : Type 0 where
    exclusive : one_if h.locked ≡ held
    after_sent : h.is_sent ≡ true → writing ≡ 0
    before_sent : h.is_sent ≡ false → closing ≡ 0
    unclosed : h.ch_closed ≡ true → closing ≡ 0
    flagged : h.ch_closed ≡ true → h.is_sent ≡ true
    calm : h.ch_panicked ≡ false

  -- A client that is past the channel, or has returned, sees a closed channel and its metadata.
  abbrev Reads : HeaderWrapper MD → HeaderPlace MD → Type 0
  Reads h reading = h.ch_closed ≡ true
  Reads h (header_returned m) = (h.ch_closed ≡ true) × (m ≡ h.md)
  Reads h p = Unit {0}

  -- What is read stays as it is.
  abbrev Grows : HeaderWrapper MD → HeaderWrapper MD → Type 0
  Grows g h = g.ch_closed ≡ true → (h.ch_closed ≡ true) × (h.md ≡ g.md)

  Reads-Grows : (g h : HeaderWrapper MD) (p : HeaderPlace MD) → Grows g h → Reads g p → Reads h p
  Reads-Grows g h reading k r = (k r).0
  Reads-Grows g h (header_returned m) k r = ((k r.0).0, r.1 ∙ sym (k r.0).1)
  Reads-Grows g h (setting m) k r = tt
  Reads-Grows g h (set_locking m) k r = tt
  Reads-Grows g h (set_checking m) k r = tt
  Reads-Grows g h (joining m) k r = tt
  Reads-Grows g h (set_unlocking b) k r = tt
  Reads-Grows g h (set_returned b) k r = tt
  Reads-Grows g h send_starting k r = tt
  Reads-Grows g h send_locking k r = tt
  Reads-Grows g h send_checking k r = tt
  Reads-Grows g h send_marking k r = tt
  Reads-Grows g h send_closing k r = tt
  Reads-Grows g h send_unlocking k r = tt
  Reads-Grows g h send_returned k r = tt
  Reads-Grows g h awaiting k r = tt

  All-Reads-Grows :
      (g h : HeaderWrapper MD) (ps : List (HeaderPlace MD))
      → Grows g h
      → All (Reads g) ps
      → All (Reads h) ps
  All-Reads-Grows g h [] k r = tt
  All-Reads-Grows g h (p ∷ ps) k r = (Reads-Grows g h p k r.0, All-Reads-Grows g h ps k r.1)

  abbrev Beside : ℕ → ℕ → ℕ → HeaderWrapper MD → HeaderPlace MD → Type 0
  Beside a w c h p = Kept h (a + one_if (holds p)) (w + one_if (writes p)) (c + one_if (closes p))

  abbrev Runs : ℕ → ℕ → ℕ → HeaderWrapper MD → Option (HeaderWrapper MD × HeaderPlace MD) → Type 0
  Runs a w c g none = Unit
  Runs a w c g (some (h, p)) = Beside a w c h p × Grows g h × Reads h p

  Kept-eq :
      (h : HeaderWrapper MD) (a b c a' b' c' : ℕ)
      → a ≡ a'
      → b ≡ b'
      → c ≡ c'
      → Kept h a b c
      → Kept h a' b' c'
  Kept-eq h a b c a' b' c' p q r k = ground arith

  -- A call of `Header` that returned gave this metadata.
  abbrev pub Returned : MD → HeaderPlace MD → Type 0
  Returned m (header_returned n) = n ≡ m
  Returned m p = Unit {0}

  All-Returned :
      (h : HeaderWrapper MD) (ps : List (HeaderPlace MD))
      → All (Reads h) ps
      → All (Returned h.md) ps
  All-Returned h [] k = tt
  All-Returned h (p ∷ ps) k = (one p k.0, All-Returned h ps k.1)
    where
      one : (p : HeaderPlace MD) → Reads h p → Returned h.md p
      one p r = ground arith

module _ {MD : Type 0} (join : MD → MD → MD) (is_empty : MD → Bool) where
  advance_header-Runs :
      (a w c : ℕ)
      → w + c ≤ a
      → (p : HeaderPlace MD) (h : HeaderWrapper MD) → Beside a w c h p
      → Reads h p
      → Runs a w c h (advance_header join is_empty p h)
  unfolding advance_header
  advance_header-Runs a w c k (setting m) h b r = ground arith
  advance_header-Runs a w c k (set_locking m) h b r = ground arith
  advance_header-Runs a w c k (set_checking m) h b r = ground arith
  advance_header-Runs a w c k (joining m) h b r = ground arith
  advance_header-Runs a w c k (set_unlocking o) h b r = ground arith
  advance_header-Runs a w c k (set_returned o) h b r = tt
  advance_header-Runs a w c k send_starting h b r = ground arith
  advance_header-Runs a w c k send_locking h b r = ground arith
  advance_header-Runs a w c k send_checking h b r = ground arith
  advance_header-Runs a w c k send_marking h b r = ground arith
  advance_header-Runs a w c k send_closing h b r = ground arith
  advance_header-Runs a w c k send_unlocking h b r = ground arith
  advance_header-Runs a w c k send_returned h b r = tt
  advance_header-Runs a w c k awaiting h b r = ground arith
  advance_header-Runs a w c k reading h b r = ground arith
  advance_header-Runs a w c k (header_returned m) h b r = tt

  abbrev IsKept : HeaderSystem MD → Type 0
  IsKept y =
      Kept y.header (count holds y.users) (count writes y.users) (count closes y.users)
      × All (Reads y.header) y.users

  -- A step keeps the invariant, and what clients may read.
  abbrev Steps : HeaderSystem MD → HeaderSystem MD → Type 0
  Steps y z = IsKept z × Grows y.header z.header

  resume_user-Steps :
      (n : ℕ) (q : HeaderPlace MD) (y : HeaderSystem MD)
      (o : Option (HeaderWrapper MD × HeaderPlace MD))
      → get_elem? y.users n ≡ some q
      → Runs
          (count_others holds n y.users q)
          (count_others writes n y.users q)
          (count_others closes n y.users q)
          y.header
          o
      → IsKept y
      → Steps y (resume_user n y o)
  unfolding resume_user
  resume_user-Steps n q y none e r k = (k, λ c. (c, refl))
  resume_user-Steps n q y (some (h, p)) e r k = (
    (
      Kept-eq h _ _ _ _ _ _ (count_others_lem holds n y.users p q e).1
          (count_others_lem writes n y.users p q e).1 (count_others_lem closes n y.users p q e).1
          r.0,
      All-put_place (Reads h) n p y.users r.2 (All-Reads-Grows y.header h y.users r.1 k.1),
    ),
    r.1,
  )

  run_at-Steps :
      (n : ℕ) (o : Option (HeaderPlace MD)) (y : HeaderSystem MD)
      → get_elem? y.users n ≡ o
      → IsKept y
      → Steps y (run_at join is_empty n o y)
  unfolding run_at
  run_at-Steps n none y e k = (k, λ c. (c, refl))
  run_at-Steps n (some q) y e k =
      let h = count_others_lem holds n y.users (set_returned true) q e in
      let w = count_others_lem writes n y.users (set_returned true) q e in
      let c = count_others_lem closes n y.users (set_returned true) q e in
      let rest = put_place n (set_returned true) y.users in
      resume_user-Steps n q y (advance_header join is_empty q y.header) e
        (advance_header-Runs _ _ _
          (omega (arith, h.1, w.1, c.1, count_add_le writes closes holds closes_hold rest)) q
          y.header (Kept-eq y.header _ _ _ _ _ _ (sym h.0) (sym w.0) (sym c.0) k.0)
          (All-get_elem? (Reads y.header) n q y.users k.1 e))
        k

  step_header-Steps :
      (e : HeaderEvent MD) (y : HeaderSystem MD)
      → IsKept y
      → Steps y (step_header join is_empty e y)
  unfolding step_header count
  step_header-Steps (call_set_header m) y k = ((ground arith, (tt, k.1)), λ c. (c, refl))
  step_header-Steps call_send_header y k = ((ground arith, (tt, k.1)), λ c. (c, refl))
  step_header-Steps call_header y k = ((ground arith, (tt, k.1)), λ c. (c, refl))
  step_header-Steps (run_user n) y k = run_at-Steps n (get_elem? y.users n) y refl k

  steps_header-Steps :
      (es : List (HeaderEvent MD)) (y : HeaderSystem MD)
      → IsKept y
      → Steps y (steps_header join is_empty es y)
  unfolding steps_header
  steps_header-Steps [] y k = (k, λ c. (c, refl))
  steps_header-Steps (e ∷ es) y k =
      let now = step_header-Steps e y k in
      let later = steps_header-Steps es (step_header join is_empty e y) now.0 in
      (later.0, λ c. ((later.1 (now.1 c).0).0, (later.1 (now.1 c).0).1 ∙ (now.1 c).1))

  new_header-IsKept : (nil : MD) → IsKept (new_header nil)
  unfolding count
  new_header-IsKept nil = (ground arith, tt)

  -- However calls of `SetHeader`, `Send` and `Header` interleave on a new header: once the channel
  -- is closed, after every further run the metadata is the same, each call of `Header` that
  -- returned gave it, and the channel was not closed twice.
  pub steps_header-md :
      (nil : MD) (es fs : List (HeaderEvent MD))
      → (steps_header join is_empty es (new_header nil)).header.ch_closed ≡ true
      → let y = steps_header join is_empty es (new_header nil) in
        let z = steps_header join is_empty fs y in
        (z.header.md ≡ y.header.md)
        × All (Returned y.header.md) z.users
        × (z.header.ch_panicked ≡ false)
  steps_header-md nil es fs c =
      let first = steps_header-Steps es (new_header nil) (new_header-IsKept nil) in
      let y = steps_header join is_empty es (new_header nil) in
      let next = steps_header-Steps fs y first.0 in
      let z = steps_header join is_empty fs y in
      (
        (next.1 c).1,
        subst (λ m. All (Returned m) z.users) (next.1 c).1 (All-Returned z.header z.users next.0.1),
        next.0.0.calm,
      )
