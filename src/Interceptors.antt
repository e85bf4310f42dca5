-- ===== src/Interceptors.antt =====
-- interceptor/chain.go: chains of interceptors for calls and streams, of clients and of servers. The
-- arguments of a call are one value, and the effects of an interceptor are in its answer.
pub mod Order
mod Tests
use go_framework.Base.{List, [], ◌∷◌, ◌++◌}

-- `A` is what a call is given, and `B` its answer. An interceptor is given the rest of the chain.
abbrev pub Handler : Type 0 → Type 0 → Type 0
Handler A B = A → B

abbrev pub Interceptor : Type 0 → Type 0 → Type 0
Interceptor A B = A → Handler A B → B

module _ {A B : Type 0} where
  -- One round of the loop: the handler becomes one that calls the interceptor on the previous handler.
  abbrev pub wrap : Interceptor A B → Handler A B → Handler A B
  wrap interceptor prev_handler = λ a. interceptor a prev_handler

  -- The loop from the last interceptor to the first, on the list in reverse order.
  unfoldable pub wrap_all : List (Interceptor A B) → Handler A B → Handler A B
  wrap_all [] handler = handler
  wrap_all (i ∷ is) handler = wrap_all is (wrap i handler)

  unfoldable pub reversed : List (Interceptor A B) → List (Interceptor A B)
  reversed [] = []
  reversed (i ∷ is) = reversed is ++ i ∷ []

  -- `ChainUnaryServer`, and the other three with the arguments of theirs.
  unfoldable pub chain : List (Interceptor A B) → Interceptor A B
  chain interceptors a handler = wrap_all (reversed interceptors) handler a
