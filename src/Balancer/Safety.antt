-- ===== src/Balancer/Safety.antt =====
-- No operation of the balancer closes a channel twice, sends on a closed one, or reads a nil picker.
use mathlib.Core.Path.{subst}
use go_framework.Base.{
  ℕ, suc, ◌<◌, Bool, true, false, List, [], ◌∷◌, Option, none, some, is_some, is_empty, ◌≡◌, refl,
  ◌≢◌, arith, inl, inr, Bool-cases, Option-cases, ◌||◌, All,
}
use go_framework.Registry.Watcher.{Update}
use go_framework.Balancer.{
  Address, AddressInfo, AddrChan, unmade, shut, Balancer, Picker, Outcome, ok, err, fault, member,
  publish, watch_addr_updates, start_internal, up_all, wake, up_end, up, down, wait_on,
  choose_found, choose, get, close, close_addrs, Error, new_balancer,
}

-- A closed channel of addresses only in a balancer that is done.
abbrev pub ChanOk : {M : Type 0} → AddrChan M → Bool → Type 0
ChanOk shut done = done ≡ true
ChanOk _ done = Unit

-- The channel that callers wait on was made and is open; there is none when the balancer is done.
abbrev pub WaitOk : Option ℕ → ℕ → List ℕ → Bool → Type 0
WaitOk none next woken done = Unit
WaitOk (some c) next woken done = (c < next) × (member c woken ≡ false) × (done ≡ false)

module _ {M P : Type 0} where
  pub record IsSafe (s : Balancer M P) : Type 0 where
    pub chan : ChanOk s.addr_ch s.done
    pub waiting : WaitOk s.wait_ch s.next_ch s.woken s.done
    pub old : All (λ c. c < s.next_ch) s.woken
    pub picks : (is_some s.picker || is_empty s.addrs) ≡ true

  -- The operation ends without a fault, and in a state that is safe.
  abbrev pub EndsSafe : {A : Type 0} → Outcome A (Balancer M P) → Type 0
  EndsSafe (ok a s) = IsSafe s
  EndsSafe (err e s) = IsSafe s
  EndsSafe (fault f) = ⊥

member_above : (n : ℕ) (cs : List ℕ) → All (λ c. c < n) cs → member n cs ≡ false
member_above n [] h = refl
member_above n (c ∷ cs) h = ground (arith, member_above n cs h.1)

All-suc : (n : ℕ) (cs : List ℕ) → All (λ c. c < n) cs → All (λ c. c < suc n) cs
All-suc n [] h = tt
All-suc n (c ∷ cs) h = (omega arith, All-suc n cs h.1)

module _ {M P : Type 0} (eq : Discrete (Address M)) (pk : Picker M P) where
  wake-EndsSafe : (s : Balancer M P) → IsSafe s → EndsSafe (wake eq pk s)
  unfolding wake
  wake-EndsSafe s v = ground arith

  publish-EndsSafe :
      (s : Balancer M P)
      → IsSafe s
      → s.done ≡ false
      → s.addr_ch ≢ unmade
      → EndsSafe (publish eq pk s)
  unfolding publish
  publish-EndsSafe s v d c = ground arith

  pub wait_on-EndsSafe : (s : Balancer M P) → IsSafe s → s.done ≡ false → EndsSafe (wait_on eq pk s)
  unfolding wait_on
  wait_on-EndsSafe s v d = ground (arith, member_above s.next_ch s.woken, All-suc s.next_ch s.woken)

  pub start_internal-EndsSafe :
      (resolved : Option Bool) (target : Address M) (s : Balancer M P)
      → IsSafe s
      → EndsSafe (start_internal eq pk resolved target s)
  unfolding start_internal
  start_internal-EndsSafe resolved target s v = ground arith

  watch_addr_updates-EndsSafe :
      (us : Option (List (Update M))) (s : Balancer M P)
      → IsSafe s
      → s.addr_ch ≢ unmade
      → is_some s.picker ≡ true
      → EndsSafe (watch_addr_updates eq pk us s)
  unfolding watch_addr_updates publish
  watch_addr_updates-EndsSafe none s v c p = v
  watch_addr_updates-EndsSafe (some us) s v c p = ground arith

  -- The loop of `Up` touches no list that is empty.
  up_all_picks :
      (a : Address M) (vs : List (AddressInfo M)) (p : P) (cnt : ℕ)
      → is_empty (up_all eq pk a vs p cnt).0 ≡ is_empty vs
  unfolding up_all
  up_all_picks a [] p cnt = refl
  up_all_picks a (v ∷ vs) p cnt = ground arith

  with_picker-IsSafe :
      (s : Balancer M P) (vs : List (AddressInfo M)) (p : P)
      → IsSafe s
      → IsSafe (record s { addrs = vs; picker = some p })
  with_picker-IsSafe s vs p v = record {
    chan = v.chan;
    waiting = v.waiting;
    old = v.old;
    picks = refl;
  }

  up_end-EndsSafe : (r : Option ℕ) (s : Balancer M P) → IsSafe s → EndsSafe (up_end eq pk r s)
  unfolding up_end wake
  up_end-EndsSafe none s v = v
  up_end-EndsSafe (some cnt) s v = ground arith

  up-EndsSafe : (a : Address M) (s : Balancer M P) → IsSafe s → EndsSafe (up eq pk a s)
  unfolding up
  up-EndsSafe a s v = elim (Option-cases s.picker) [
    | inl e ↦ rw (e, up) (ground arith)
    | inr (p, e) ↦ rw (e, up) (up_end-EndsSafe _ _ (with_picker-IsSafe s _ _ v))
  ]

  down-EndsSafe : (a : Address M) (s : Balancer M P) → IsSafe s → EndsSafe (down eq pk a s)
  unfolding down
  down-EndsSafe a s v = ground arith

  choose_found-EndsSafe :
      (may_wait : Bool) (found : Option (AddressInfo M)) (s : Balancer M P)
      → IsSafe s
      → s.done ≡ false
      → EndsSafe (choose_found eq pk may_wait found s)
  unfolding choose_found
  choose_found-EndsSafe may_wait none s v d = v
  choose_found-EndsSafe may_wait (some a) s v d = ground (arith, wait_on-EndsSafe s v d)

  choose-EndsSafe :
      (may_wait : Bool) (s : Balancer M P)
      → IsSafe s
      → is_some s.picker ≡ true
      → EndsSafe (choose eq pk may_wait s)
  unfolding choose
  choose-EndsSafe may_wait s v p = elim (Bool-cases s.done) [
    | inl e ↦ simp e v
    | inr e ↦ simp e (elim (Option-cases s.picker) [
      | inl n ↦ absurd (ground arith)
      | inr (q, n) ↦
          rw (n, choose) (choose_found-EndsSafe may_wait _ _ (with_picker-IsSafe s s.addrs _ v) e)
    ])
  ]

  close-EndsSafe : (s : Balancer M P) → IsSafe s → EndsSafe (close eq pk s)
  unfolding close close_addrs
  close-EndsSafe s v = ground arith

-- The calls of gRPC and of the goroutine that reads the watcher.
pub data Call (M : Type 0) : Type 0 where
  starts : Option Bool → Address M → Call M
  reads : Option (List (Update M)) → Call M
  ups : Address M → Call M
  downs : Address M → Call M
  gets : Bool → Call M
  resumes : Call M
  closes : Call M

module _ {M P : Type 0} (eq : Discrete (Address M)) (pk : Picker M P) where
  abbrev pub forget : {A : Type 0} → Outcome A (Balancer M P) → Outcome (Unit {0}) (Balancer M P)
  forget (ok a s) = ok tt s
  forget (err e s) = err e s
  forget (fault f) = fault f

  pub perform : Call M → Balancer M P → Outcome (Unit {0}) (Balancer M P)
  perform (starts resolved target) s = start_internal eq pk resolved target s
  perform (reads us) s = watch_addr_updates eq pk us s
  perform (ups a) s = forget (up eq pk a s)
  perform (downs a) s = down eq pk a s
  perform (gets blocking) s = forget (get eq pk blocking s)
  perform resumes s = forget (choose eq pk true s)
  perform closes s = close eq pk s

  -- The updates are read once `Start` has made the channel, and `Get` is called after `Start`.
  abbrev pub IsReady : Call M → Balancer M P → Type 0
  IsReady (reads us) s = (s.addr_ch ≢ unmade) × (is_some s.picker ≡ true)
  IsReady (gets blocking) s = is_some s.picker ≡ true
  IsReady resumes s = is_some s.picker ≡ true
  IsReady _ s = Unit

  forget-EndsSafe : {A : Type 0} (o : Outcome A (Balancer M P)) → EndsSafe o → EndsSafe (forget o)
  forget-EndsSafe (ok a s) h = h
  forget-EndsSafe (err e s) h = h
  forget-EndsSafe (fault f) h = h

  -- In a safe state every call that is ready ends without a fault (no channel is closed twice, none is
  -- sent on after its end, no nil picker or channel is used), and the state that it leaves is safe.
  pub perform-EndsSafe :
      (c : Call M) (s : Balancer M P) → IsSafe s → IsReady c s → EndsSafe (perform c s)
  unfolding perform get
  perform-EndsSafe (starts resolved target) s v r =
      start_internal-EndsSafe eq pk resolved target s v
  perform-EndsSafe (reads us) s v r = watch_addr_updates-EndsSafe eq pk us s v r.0 r.1
  perform-EndsSafe (ups a) s v r = forget-EndsSafe _ (up-EndsSafe eq pk a s v)
  perform-EndsSafe (downs a) s v r = down-EndsSafe eq pk a s v
  perform-EndsSafe (gets blocking) s v r = forget-EndsSafe _ (choose-EndsSafe eq pk blocking s v r)
  perform-EndsSafe resumes s v r = forget-EndsSafe _ (choose-EndsSafe eq pk true s v r)
  perform-EndsSafe closes s v r = close-EndsSafe eq pk s v

-- The states that ready calls lead to from a new balancer.
pub data Reach {M P : Type 0} (eq : Discrete (Address M)) (pk : Picker M P)
    : Balancer M P → Type 0 where
  begin : Reach eq pk new_balancer
  then_ok :
      (c : Call M) (s t : Balancer M P)
      → Reach eq pk s
      → IsReady eq pk c s
      → perform eq pk c s ≡ ok tt t
      → Reach eq pk t
  then_err :
      (c : Call M) (e : Error) (s t : Balancer M P)
      → Reach eq pk s
      → IsReady eq pk c s
      → perform eq pk c s ≡ err e t
      → Reach eq pk t

-- Every state that ready calls lead to is safe.
pub Reach-IsSafe :
    {M P : Type 0} (eq : Discrete (Address M)) (pk : Picker M P) (s : Balancer M P)
    → Reach eq pk s
    → IsSafe s
unfolding new_balancer
Reach-IsSafe eq pk s begin = ground arith
Reach-IsSafe eq pk s (then_ok c t _ r ready e) =
    subst EndsSafe e (perform-EndsSafe eq pk c t (Reach-IsSafe eq pk t r) ready)
Reach-IsSafe eq pk s (then_err c _ t _ r ready e) =
    subst EndsSafe e (perform-EndsSafe eq pk c t (Reach-IsSafe eq pk t r) ready)
