-- ===== src/Timeout.antt =====
-- timeout/timeout.go: a call under the timeout of its policy. The handler runs in a goroutine that
-- hands its error over on a channel without a buffer, and the caller waits for that or for the end of
-- the context. Each event is one of these or what happens around them, in any order.
pub mod Answers
mod Tests
use Prim.Native.String.{◌++◌}
use go_framework.Base.{
  ℕ, Bool, true, false, not, ◌||◌, List, [], ◌∷◌, Option, none, some, if◌then◌else◌, String, GoMap,
  lookup, insert,
}
use go_framework.Control.Ints.{ℤ, is_zero}

-- What `timeoutHandler` reads of `control.TimeoutPolicy`.
pub record TimeoutPolicy : Type 0 where
  pub is_on : Bool
  pub limit : ℤ

-- How a call runs: the handler alone, or under a limit.
pub data Mode : Type 0 where
  direct : Mode
  limited : ℤ → Mode

unfoldable pub status_key : String → String → String → String
status_key typ service method = typ ++ ":" ++ service ++ "/" ++ method

unfoldable pub same_status : Bool → Option Bool → Bool
same_status b none = false
same_status b (some c) = if b then c else not c

-- `lastStatus`, which a change of the policy is logged against.
unfoldable pub record_status : String → Bool → GoMap Bool → GoMap Bool
unfolding same_status
record_status key on last = if same_status on (lookup key last) then last else insert key on last

-- The part of `timeoutHandler` before the wait; `none` is a control plane that gives an error.
unfoldable pub mode_of : String → Option TimeoutPolicy → GoMap Bool → Mode × GoMap Bool
unfolding record_status
mode_of key none last = (direct, last)
mode_of key (some p) last = (
  if not p.is_on || is_zero p.limit then direct else limited p.limit,
  record_status key p.is_on last,
)

-- The goroutine of the handler. What it returns is its error, or none.
pub data HandlerPlace (E : Type 0) : Type 0 where
  handling : HandlerPlace E
  handing_over : Option E → HandlerPlace E
  finished : Option E → HandlerPlace E

pub data Answer (E : Type 0) : Type 0 where
  answered : Option E → Answer E
  deadline_exceeded : Answer E

-- The caller's select, and the context with the limit.
pub record LimitedCall (E : Type 0) : Type 0 where
  pub goroutine : HandlerPlace E
  pub answer : Option (Answer E)
  pub context_done : Bool

pub data Moment (E : Type 0) : Type 0 where
  handler_returns : Option E → Moment E
  context_ends : Moment E
  caller_receives : Moment E
  caller_gives_up : Moment E

module _ {E : Type 0} where
  abbrev pub limited_call : LimitedCall E
  limited_call = record { goroutine = handling; answer = none; context_done = false }

  -- The case of the channel: the two meet, since the channel has no buffer.
  unfoldable pub receive_error : HandlerPlace E → Option (Answer E) → LimitedCall E → LimitedCall E
  receive_error (handing_over r) none c = record {
    goroutine = finished r;
    answer = some (answered r);
    context_done = true;
  }
  receive_error g a c = c

  -- The case of the context.
  unfoldable pub give_up : Option (Answer E) → LimitedCall E → LimitedCall E
  give_up none c = if c.context_done then record c { answer = some deadline_exceeded } else c
  give_up (some a) c = c

  unfoldable pub return_handler : Option E → HandlerPlace E → LimitedCall E → LimitedCall E
  return_handler r handling c = record c { goroutine = handing_over r }
  return_handler r (handing_over e) c = c
  return_handler r (finished e) c = c

  -- A moment that cannot be leaves the call as it is.
  unfoldable pub pass_moment : Moment E → LimitedCall E → LimitedCall E
  unfolding receive_error give_up return_handler
  pass_moment (handler_returns r) c = return_handler r c.goroutine c
  pass_moment context_ends c = record c { context_done = true }
  pass_moment caller_receives c = receive_error c.goroutine c.answer c
  pass_moment caller_gives_up c = give_up c.answer c

  unfoldable pub pass_moments : List (Moment E) → LimitedCall E → LimitedCall E
  unfolding pass_moment
  pass_moments [] c = c
  pass_moments (x ∷ xs) c = pass_moments xs (pass_moment x c)
