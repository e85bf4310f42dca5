-- ===== src/Interceptors/Tests.antt =====
-- Interceptors that write their numbers before and after the handler's.
use go_framework.Base.{ℕ, List, [], ◌∷◌, ◌++◌, ◌≡◌, refl}
use go_framework.Interceptors.{Handler, Interceptor, chain, wrap_all, reversed}

abbrev numbered : ℕ → Interceptor ℕ (List ℕ)
numbered n a handler = n ∷ handler a ++ n ∷ []

abbrev answer : Handler ℕ (List ℕ)
answer a = a ∷ []

abbrev two : List (Interceptor ℕ (List ℕ))
two = numbered 1 ∷ numbered 2 ∷ []

order : chain two 9 answer ≡ 1 ∷ 2 ∷ 9 ∷ 2 ∷ 1 ∷ []
unfolding chain wrap_all reversed
order = refl
