-- ===== src/Timeout/Answers.antt =====
-- What a call under a limit answers, and what becomes of its handler.
use mathlib.Core.Path.{subst}
use go_framework.Base.{Bool, true, false, List, [], ◌∷◌, Option, none, some, ◌≡◌, ◌≢◌, refl}
use go_framework.Timeout.{
  HandlerPlace, handling, handing_over, finished, Answer, answered, deadline_exceeded, LimitedCall,
  Moment, handler_returns, context_ends, caller_receives, caller_gives_up, limited_call,
  pass_moment, pass_moments,
}

module _ {E : Type 0} where
  -- The caller has the handler's error where the handler's goroutine ended, and gave up only after
  -- the context ended.
  abbrev pub Agrees : HandlerPlace E → Option (Answer E) → Bool → Type 0
  Agrees (finished r) (some (answered q)) b = (b ≡ true) × (q ≡ r)
  Agrees (finished r) (some deadline_exceeded) b = ⊥
  Agrees (finished r) none b = ⊥
  Agrees handling none b = Unit
  Agrees handling (some (answered q)) b = ⊥
  Agrees handling (some deadline_exceeded) b = b ≡ true
  Agrees (handing_over r) none b = Unit
  Agrees (handing_over r) (some (answered q)) b = ⊥
  Agrees (handing_over r) (some deadline_exceeded) b = b ≡ true

  abbrev pub CallAgrees : LimitedCall E → Type 0
  CallAgrees c = Agrees c.goroutine c.answer c.context_done

  abbrev call_of : HandlerPlace E → Option (Answer E) → Bool → LimitedCall E
  call_of g a b = record { goroutine = g; answer = a; context_done = b }

  -- One moment keeps this, and an answer that was given.
  abbrev Passes : LimitedCall E → Option (Answer E) → Type 0
  Passes c none = CallAgrees c
  Passes c (some a) = CallAgrees c × (c.answer ≡ some a)

  pass_moment-Passes :
      (x : Moment E) (g : HandlerPlace E) (a : Option (Answer E)) (b : Bool)
      → Agrees g a b
      → Passes (pass_moment x (call_of g a b)) a
  unfolding pass_moment
  pass_moment-Passes (handler_returns r) handling none b h = tt
  pass_moment-Passes (handler_returns r) handling (some (answered q)) b h = absurd h
  pass_moment-Passes (handler_returns r) handling (some deadline_exceeded) b h = (h, refl)
  pass_moment-Passes (handler_returns r) (handing_over e) none b h = tt
  pass_moment-Passes (handler_returns r) (handing_over e) (some (answered q)) b h = absurd h
  pass_moment-Passes (handler_returns r) (handing_over e) (some deadline_exceeded) b h = (h, refl)
  pass_moment-Passes (handler_returns r) (finished e) none b h = absurd h
  pass_moment-Passes (handler_returns r) (finished e) (some a) b h = (h, refl)
  pass_moment-Passes context_ends handling none b h = tt
  pass_moment-Passes context_ends handling (some (answered q)) b h = absurd h
  pass_moment-Passes context_ends handling (some deadline_exceeded) b h = (refl, refl)
  pass_moment-Passes context_ends (handing_over e) none b h = tt
  pass_moment-Passes context_ends (handing_over e) (some (answered q)) b h = absurd h
  pass_moment-Passes context_ends (handing_over e) (some deadline_exceeded) b h = (refl, refl)
  pass_moment-Passes context_ends (finished e) none b h = absurd h
  pass_moment-Passes context_ends (finished e) (some (answered q)) b h = ((refl, h.1), refl)
  pass_moment-Passes context_ends (finished e) (some deadline_exceeded) b h = absurd h
  pass_moment-Passes caller_receives handling none b h = tt
  pass_moment-Passes caller_receives handling (some a) b h = (h, refl)
  pass_moment-Passes caller_receives (handing_over e) none b h = (refl, refl)
  pass_moment-Passes caller_receives (handing_over e) (some a) b h = (h, refl)
  pass_moment-Passes caller_receives (finished e) none b h = absurd h
  pass_moment-Passes caller_receives (finished e) (some a) b h = (h, refl)
  pass_moment-Passes caller_gives_up g (some a) b h = (h, refl)
  pass_moment-Passes caller_gives_up (finished e) none b h = absurd h
  pass_moment-Passes caller_gives_up handling none true h = refl
  pass_moment-Passes caller_gives_up handling none false h = tt
  pass_moment-Passes caller_gives_up (handing_over e) none true h = refl
  pass_moment-Passes caller_gives_up (handing_over e) none false h = tt

  Passes-CallAgrees : (c : LimitedCall E) (a : Option (Answer E)) → Passes c a → CallAgrees c
  Passes-CallAgrees c none h = h
  Passes-CallAgrees c (some a) h = h.0

  pass_moments-CallAgrees :
      (xs : List (Moment E)) (c : LimitedCall E) → CallAgrees c → CallAgrees (pass_moments xs c)
  unfolding pass_moments
  pass_moments-CallAgrees [] c h = h
  pass_moments-CallAgrees (x ∷ xs) c h =
      pass_moments-CallAgrees xs (pass_moment x c)
        (Passes-CallAgrees _ c.answer (pass_moment-Passes x c.goroutine c.answer c.context_done h))

  -- However the handler, the context and the caller proceed: where the caller has an answer of the
  -- handler, it is the error with which the handler's goroutine ended, where the goroutine ended the
  -- caller has that answer, and the caller gave up only after the context ended.
  pub limited_call-Agrees : (xs : List (Moment E)) → CallAgrees (pass_moments xs limited_call)
  limited_call-Agrees xs = pass_moments-CallAgrees xs limited_call tt

  answer_kept :
      (ys : List (Moment E)) (c : LimitedCall E) (a : Answer E)
      → CallAgrees c
      → c.answer ≡ some a
      → (pass_moments ys c).answer ≡ some a
  unfolding pass_moments
  answer_kept [] c a h e = e
  answer_kept (y ∷ ys) c a h e =
      let p = pass_moment-Passes y c.goroutine c.answer c.context_done h in
      answer_kept ys (pass_moment y c) a (Passes-CallAgrees _ c.answer p)
        (subst (Passes (pass_moment y c)) e p).1

  ended_ne :
      (c : LimitedCall E) (r : Option E)
      → c.answer ≡ some deadline_exceeded
      → CallAgrees c
      → c.goroutine ≢ finished r
  ended_ne c r e h f =
      subst (λ g. Agrees g (some deadline_exceeded) c.context_done) f
        (subst (λ a. Agrees c.goroutine a c.context_done) e h)

  -- Once the caller gave up at the end of the context, the goroutine of the handler never ends,
  -- whatever happens: nothing takes the error that it hands over.
  pub pass_moments-goroutine :
      (xs ys : List (Moment E)) (r : Option E)
      → (pass_moments xs limited_call).answer ≡ some deadline_exceeded
      → (pass_moments ys (pass_moments xs limited_call)).goroutine ≢ finished r
  pass_moments-goroutine xs ys r h =
      let c = pass_moments xs limited_call in
      let k = limited_call-Agrees xs in
      ended_ne (pass_moments ys c) r (answer_kept ys c deadline_exceeded k h)
        (pass_moments-CallAgrees ys c k)
