-- ===== src/Lifecycle.antt =====
-- lifecycle/lifecycle.go and option.go: the hooks that run once when the program begins and once when it
-- ends. Hooks and names are numbers and texts; the priorities are shifted so that none is negative, and
-- timeouts are in nanoseconds. The queries of go-linq are parameters.
mod Tests
use go_framework.Base.{
  ℕ, ◌+◌, ◌/◌, String, Bool, true, false, List, [], ◌∷◌, ◌++◌, map, Option, none, some,
  if◌then◌else◌, ◌==◌, ◌≡◌, refl, ap, ◌∙◌, sym, arith, Bool-cases, inl, inr,
}

-- `is_func` is whether the hook is a function.
pub record HookFunc : Type 0 where
  pub name : String
  pub priority : ℕ
  pub timeout : ℕ
  pub is_func : Bool

abbrev pub HookOption : Type 0
HookOption = HookFunc → HookFunc

abbrev pub with_name : String → HookOption
with_name n h = record h { name = n }

unfoldable pub generate_options : List HookOption → HookFunc → HookFunc
generate_options [] h = h
generate_options (o ∷ os) h = generate_options os (o h)

-- The shifted priority 0, and ten seconds.
abbrev pub default_hook : HookFunc
default_hook = record { name = ""; priority = 2147483648; timeout = 10000000000; is_func = true }

pub record LifeCycle : Type 0 where
  pub has_initialized : Bool
  pub has_finalized : Bool
  pub initialize_hooks : List HookFunc
  pub finalize_hooks : List HookFunc
  pub initialized : Bool
  pub hooks_timeout : ℕ
  pub finalizing : Bool

-- How a hook ends: it is done before its context, or the program exits. `called` is whether the
-- function of the hook was called.
pub data Ended : Type 0 where
  done : (called : Bool) → Ended
  exit : (code : ℕ) → Ended

-- `in_time` is whether the goroutine ends before the context: it looks at the type of the function, and
-- then it ends.
unfoldable pub run : Bool → HookFunc → Ended
run in_time h = if in_time then done false else exit 0

-- The hooks of one group run at the same time, for as long as the first one may at most.
pub record HookRound : Type 0 where
  pub limit : ℕ
  pub hooks : List HookFunc

abbrev pub first_timeout : List HookFunc → ℕ
first_timeout [] = 0
first_timeout (h ∷ hs) = h.timeout

-- OrderByDescendingT, GroupByT and OrderByDescendingT of the groups.
pub record Linq : Type 0 where
  pub order_by_descending : (HookFunc → ℕ) → List HookFunc → List HookFunc
  pub group_by : (HookFunc → ℕ) → List HookFunc → List (ℕ × List HookFunc)
  pub order_groups_by_descending :
      (ℕ × List HookFunc → ℕ) → List (ℕ × List HookFunc) → List (ℕ × List HookFunc)

-- Something that has run: the hooks of the beginning or of the end, within a time.
pub data Run : Type 0 where
  initialize_run finalize_run : ℕ → List HookRound → Run

abbrev pub is_finalize : Run → Bool
is_finalize (initialize_run t rs) = false
is_finalize (finalize_run t rs) = true

pub data Call : Type 0 where
  initialize_with : ℕ → Call
  finalize : Call
  hook_finalize : List HookOption → Call

abbrev pub new_life_cycle : LifeCycle
new_life_cycle = record {
  has_initialized = false;
  has_finalized = false;
  initialize_hooks = [];
  finalize_hooks = [];
  initialized = false;
  hooks_timeout = 30000000000;
  finalizing = false;
}

module _ (linq : Linq) where
  unfoldable pub run_hooks : List HookFunc → List HookRound
  run_hooks hooks =
      map (λ g. record { limit = first_timeout g.1; hooks = g.1 })
        (linq.order_groups_by_descending (λ g. g.0)
          (linq.group_by (λ h. h.priority)
            (linq.order_by_descending (λ h. h.timeout / 1000000) hooks)))

  -- `Initialize`, `Finalize` and `HookFinalize`, with what they run.
  unfoldable pub call : Call → LifeCycle → LifeCycle × List Run
  call (initialize_with timeout) s =
      let limit = if timeout == 0 then s.hooks_timeout else timeout in
      if s.has_initialized then (s, []) else (
        record s { has_initialized = true; hooks_timeout = limit },
        initialize_run limit (run_hooks s.initialize_hooks) ∷ [],
      )
  call finalize s = if s.has_finalized then (s, []) else (
    record s { has_finalized = true; finalizing = true },
    finalize_run s.hooks_timeout (run_hooks s.finalize_hooks) ∷ [],
  )
  call (hook_finalize opts) s = (
    record s { finalize_hooks = s.finalize_hooks ++ generate_options opts default_hook ∷ [] },
    [],
  )

  unfoldable pub calls : List Call → LifeCycle → List Run
  calls [] s = []
  calls (c ∷ cs) s = let (s', runs) = call c s in runs ++ calls cs s'

-- The hooks of the end that have been registered before the first `Finalize`.
abbrev pub before_finalize : List Call → List HookFunc → Option (List HookFunc)
before_finalize [] hooks = none
before_finalize (finalize ∷ cs) hooks = some hooks
before_finalize (initialize_with t ∷ cs) hooks = before_finalize cs hooks
before_finalize (hook_finalize opts ∷ cs) hooks =
    before_finalize cs (hooks ++ generate_options opts default_hook ∷ [])

abbrev pub rounds_at_end : List Run → List (List HookRound)
rounds_at_end [] = []
rounds_at_end (initialize_run t rs ∷ runs) = rounds_at_end runs
rounds_at_end (finalize_run t rs ∷ runs) = rs ∷ rounds_at_end runs

abbrev pub at_most_once : Linq → Option (List HookFunc) → List (List HookRound)
at_most_once linq none = []
at_most_once linq (some hooks) = run_hooks linq hooks ∷ []

module _ (linq : Linq) where
  after_end :
      (cs : List Call) (s : LifeCycle)
      → s.has_finalized ≡ true
      → rounds_at_end (calls linq cs s) ≡ []
  unfolding calls call
  after_end [] s h = refl
  after_end (initialize_with t ∷ cs) s h = elim (Bool-cases s.has_initialized) [
    | inl e ↦ rw (e, call) (after_end cs _ h)
    | inr e ↦ rw (e, call) (after_end cs _ h)
  ]
  after_end (finalize ∷ cs) s h =
      rw (h, call) (after_end cs (record s { has_finalized = true }) refl)
  after_end (hook_finalize opts ∷ cs) s h = after_end cs _ h

  -- Whatever calls are made, the hooks of the end run once at most, at the first `Finalize`, and they are
  -- those that were registered before it.
  pub calls-before_finalize :
      (cs : List Call) (s : LifeCycle)
      → s.has_finalized ≡ false
      → rounds_at_end (calls linq cs s) ≡ at_most_once linq (before_finalize cs s.finalize_hooks)
  unfolding calls call
  calls-before_finalize [] s h = refl
  calls-before_finalize (initialize_with t ∷ cs) s h = elim (Bool-cases s.has_initialized) [
    | inl e ↦ rw (e, call) (calls-before_finalize cs _ h)
    | inr e ↦ rw (e, call) (calls-before_finalize cs _ h)
  ]
  calls-before_finalize (finalize ∷ cs) s h =
      rw (h, call)
        (ap (λ l. run_hooks linq s.finalize_hooks ∷ l)
          (after_end cs (record s { has_finalized = true; finalizing = true }) refl))
  calls-before_finalize (hook_finalize opts ∷ cs) s h = calls-before_finalize cs _ h
