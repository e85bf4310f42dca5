-- ===== src/HttpServer/Tests.antt =====
-- The theorem on the origins of CORS at a concrete input, and runs.
use go_framework.Base.{true, false, [], ◌∷◌, List, Bytes, ◌≡◌, refl, ◌↔◌, same_bytes}
use go_framework.HttpServer.{is_origin_allowed, new_cors_handler}
use go_framework.HttpServer.Permitted.{SomePermits, is_origin_allowed-SomePermits}

abbrev as_it_is : Bytes → Bytes
as_it_is s = s

-- `a`, and `b*c`.
abbrev two_origins : List Bytes
two_origins = (97 ∷ []) ∷ (98 ∷ 42 ∷ 99 ∷ []) ∷ []

allows_between :
    is_origin_allowed as_it_is (new_cors_handler as_it_is two_origins) (98 ∷ 120 ∷ 99 ∷ []) ≡ true
unfolding is_origin_allowed new_cors_handler same_bytes
allows_between = refl

refuses_other : is_origin_allowed as_it_is (new_cors_handler as_it_is two_origins) (98 ∷ []) ≡ false
unfolding is_origin_allowed new_cors_handler same_bytes
refuses_other = refl

is_origin_allowed-SomePermits_example :
    is_origin_allowed as_it_is (new_cors_handler as_it_is two_origins) (98 ∷ 120 ∷ 99 ∷ []) ≡ true
    ↔ SomePermits as_it_is two_origins (98 ∷ 120 ∷ 99 ∷ [])
is_origin_allowed-SomePermits_example =
    is_origin_allowed-SomePermits as_it_is (97 ∷ []) ((98 ∷ 42 ∷ 99 ∷ []) ∷ []) (98 ∷ 120 ∷ 99 ∷ [])
