-- ===== src/Control.antt =====
-- control/control.go and control_plugins/config.go: the policies that control a service's calls, and
-- how the plugin keeps each of them, by the name of its method, for as long as the interval of an
-- update. The configuration is read through a record; floating-point numbers are a parameter.
pub mod Ints
pub mod Policies
mod Wrapped
mod Fresh
mod Codes
mod Normal
mod Kinds
mod Tests
use Prim.Native.String.{◌++◌}
use go_framework.Base.{
  ℕ, ◌+◌, ◌*◌, ◌^◌, Bool, true, false, List, [], ◌∷◌, Option, none, some, ltb, if◌then◌else◌, ◌-◌,
  String, GoMap, lookup, insert, ◌≡◌,
}
use go_framework.Control.Ints.{ℤ}

-- What the policies read of a `config.Config`; durations are in nanoseconds.
pub record ConfigReader (F : Type 0) : Type 0 where
  pub has : String → Bool
  pub bool : String → Bool
  pub duration : String → ℤ
  pub int : String → ℤ
  pub uint : String → ℕ
  pub float64 : String → F
  pub int_list : String → List ℤ
  pub string_list : String → List String

-- `configUpdateInterval`.
abbrev pub config_update_interval : ℕ
config_update_interval = 10 * 10 ^ 9

-- `withMethod`.
unfoldable pub with_method : String → String → String
with_method method key = method ++ "." ++ key

-- A kind of policy: how it is read from a configuration at a time, which becomes its version, and
-- what the wrapper of control/wrapper.go makes of it.
pub record PolicyKind (C P : Type 0) : Type 0 where
  pub version : P → ℕ
  pub from_config : C → String → ℕ → P
  pub complete : P → P
  pub version-from_config : (c : C) (m : String) (t : ℕ) → version (from_config c m t) ≡ t
  pub version-complete : (p : P) → version (complete p) ≡ version p
  pub complete-complete : (p : P) → complete (complete p) ≡ complete p

-- A call for the policy of a method: the configuration that it reads, the time of its test and the
-- time at which it would build a policy.
pub record PolicyCall (C : Type 0) : Type 0 where
  pub config : C
  pub method_name : String
  pub tested : ℕ
  pub built : ℕ

module _ {C P : Type 0} (k : PolicyKind C P) where
  -- The policy that a call reads or builds. `Sub` of the times is a signed duration; where the clock
  -- stands before the version it is not above the interval.
  unfoldable pub choose_policy : PolicyCall C → Option P → P
  choose_policy c none = k.from_config c.config c.method_name c.built
  choose_policy c (some p) =
      if ltb config_update_interval (c.tested - k.version p)
      then k.from_config c.config c.method_name c.built
      else p

  -- The method of the plugin and then the wrapper, which changes the stored policy in place.
  unfoldable pub policy_of_call : PolicyCall C → GoMap P → P
  unfolding choose_policy
  policy_of_call c m = k.complete (choose_policy c (lookup c.method_name m))

  unfoldable pub call_policy : PolicyCall C → GoMap P → GoMap P
  unfolding policy_of_call
  call_policy c m = insert c.method_name (policy_of_call c m) m

  -- The calls on a new plane, the latest first.
  unfoldable pub call_policies : List (PolicyCall C) → GoMap P
  unfolding call_policy
  call_policies [] = []
  call_policies (c ∷ cs) = call_policy c (call_policies cs)
