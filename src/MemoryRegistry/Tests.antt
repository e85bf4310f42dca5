-- ===== src/MemoryRegistry/Tests.antt =====
-- The theorems on the registry of the own process at concrete inputs, and runs.
use go_framework.Base.{
  ℕ, false, List, [], ◌∷◌, Option, none, some, String, ◌≡◌, ◌≢◌, refl, arith, lookup, ite,
  text_discrete, insert,
}
use go_framework.MemoryRegistry.{
  ServiceInfo, RegisterOptions, MemoryRegistry, new_memory_registry, RegisterError, duplicate,
  method_found, query_failed, method_not_found, query_unary, register_with_service_info,
  unregister_with_service_info,
}
use go_framework.MemoryRegistry.Failed.{register_taken_alias}
use go_framework.MemoryRegistry.Names.{In-dec, unregister-register}
use text.Mathlib.TextEquality.{eq_iff}

abbrev same_text : String → String
same_text s = s

abbrev handler_of : String → ℕ → Option ℕ
handler_of path d = some d

abbrev echo_service : ServiceInfo ℕ ℕ
echo_service = record { service_name = "echo"; methods = ("Say", 7) ∷ []; streams = [] }

abbrev other_service : ServiceInfo ℕ ℕ
other_service = record { service_name = "other"; methods = ("Ask", 8) ∷ []; streams = [] }

abbrev with_alias : List String → RegisterOptions
with_alias names = record { alias_names = names; alias_only = false }

abbrev no_services : MemoryRegistry ℕ ℕ
no_services = new_memory_registry

abbrev with_echo : MemoryRegistry ℕ ℕ
with_echo =
    (register_with_service_info same_text handler_of handler_of echo_service (with_alias ("e" ∷ []))
      no_services).0

echo_found : query_unary "e" "/echo/Say" with_echo ≡ method_found 7
unfolding query_unary register_with_service_info lookup insert text_discrete
echo_found = refl

echo_ok :
    (register_with_service_info same_text handler_of handler_of echo_service
      (with_alias ("e" ∷ []))
      no_services).1
    ≡ none
unfolding register_with_service_info lookup insert text_discrete
echo_ok = refl

e-ne-echo : ◌≢◌ {A = String} "e" "echo"
e-ne-echo = ground (arith, eq_iff "e" "echo")

e-ne-other : ◌≢◌ {A = String} "e" "other"
e-ne-other = ground (arith, eq_iff "e" "other")

other_absent : lookup "other" with_echo.srv_registry_info ≡ none
unfolding register_with_service_info lookup insert text_discrete
other_absent = refl

e_taken : lookup "e" with_echo.srv_registry_info ≡ some 0
unfolding register_with_service_info lookup insert text_discrete
e_taken = refl

abbrev after_failure : MemoryRegistry ℕ ℕ × Option RegisterError
after_failure =
    register_with_service_info same_text handler_of handler_of other_service (with_alias ("e" ∷ []))
      with_echo

register_taken_alias_example :
    (after_failure.1 ≡ some (duplicate "e"))
    × (query_unary "other" "/other/Ask" after_failure.0 ≡ query_failed method_not_found)
    × ((register_with_service_info same_text handler_of handler_of other_service
          (with_alias ("o" ∷ []))
          after_failure.0).1
        ≡ some (duplicate "other"))
register_taken_alias_example =
    register_taken_alias same_text handler_of handler_of other_service with_echo "e" [] ("o" ∷ []) 0
      "/other/Ask" other_absent e_taken e-ne-other

unregister-register_example :
    (lookup "e" with_echo.srv_registry_info
      ≡ ite (In-dec "e" ("echo" ∷ "e" ∷ [])) (some 0) (lookup "e" no_services.srv_registry_info))
    × (lookup "e" (unregister_with_service_info "echo" ("e" ∷ []) with_echo).srv_registry_info
        ≡ lookup "e" no_services.srv_registry_info)
unregister-register_example =
    unregister-register same_text handler_of handler_of echo_service ("e" ∷ []) no_services "e"
      (e-ne-echo, tt) echo_ok
