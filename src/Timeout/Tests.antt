-- ===== src/Timeout/Tests.antt =====
-- The theorems on calls under a timeout at concrete inputs, and runs.
use go_framework.Base.{ℕ, true, List, [], ◌∷◌, none, some, ◌≡◌, ◌≢◌, refl, lookup, insert}
use go_framework.Control.Ints.{pos}
use go_framework.Timeout.{
  limited, mode_of, status_key, finished, answered, deadline_exceeded, Moment, handler_returns,
  context_ends, caller_receives, caller_gives_up, limited_call, pass_moments,
}
use go_framework.Timeout.Answers.{CallAgrees, limited_call-Agrees, pass_moments-goroutine}

abbrev in_time : List (Moment ℕ)
in_time = handler_returns (some 3) ∷ caller_receives ∷ context_ends ∷ []

abbrev too_late : List (Moment ℕ)
too_late = context_ends ∷ caller_gives_up ∷ []

abbrev later_return : List (Moment ℕ)
later_return = handler_returns none ∷ caller_receives ∷ []

in_time_answer : (pass_moments in_time limited_call).answer ≡ some (answered (some 3))
unfolding pass_moments
in_time_answer = refl

too_late_answer : (pass_moments too_late limited_call).answer ≡ some deadline_exceeded
unfolding pass_moments
too_late_answer = refl

limited_call-Agrees_example : CallAgrees (pass_moments in_time limited_call)
limited_call-Agrees_example = limited_call-Agrees in_time

pass_moments-goroutine_example :
    (pass_moments later_return (pass_moments too_late limited_call)).goroutine ≢ finished none
pass_moments-goroutine_example = pass_moments-goroutine too_late later_return none too_late_answer

limited_mode :
    mode_of "server:echo/Say" (some (record { is_on = true; limit = pos 5 })) []
    ≡ (limited (pos 5), ("server:echo/Say", true) ∷ [])
unfolding mode_of lookup insert
limited_mode = refl

status_key_text : status_key "server" "echo" "Say" ≡ "server:echo/Say"
unfolding status_key
status_key_text = refl
