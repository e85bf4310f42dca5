-- ===== src/Lifecycle/Tests.antt =====
-- Calls at a life cycle whose queries keep the order, and the hooks that are not called.
use go_framework.Base.{true, false, List, [], ◌∷◌, ◌≡◌, refl}
use go_framework.Lifecycle.{
  default_hook, with_name, Linq, done, run, Call, initialize_with, finalize, hook_finalize,
  new_life_cycle, call, run_hooks, generate_options, calls, rounds_at_end,
}

abbrev plain : Linq
plain = record {
  order_by_descending = λ f hs. hs;
  group_by = λ f hs. (0, hs) ∷ [];
  order_groups_by_descending = λ f gs. gs;
}

abbrev end_twice : List Call
end_twice =
    hook_finalize (with_name "a" ∷ [])
    ∷ initialize_with 0
    ∷ finalize
    ∷ hook_finalize (with_name "late" ∷ [])
    ∷ finalize
    ∷ []

ended_once :
    rounds_at_end (calls plain end_twice new_life_cycle)
    ≡ run_hooks plain (record default_hook { name = "a" } ∷ []) ∷ []
unfolding calls call run_hooks generate_options
ended_once = refl

-- A hook that ends in time has not called its function.
not_called : run true default_hook ≡ done false
unfolding run
not_called = refl
