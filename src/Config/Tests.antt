-- ===== src/Config/Tests.antt =====
-- Concrete configurations.
use mathlib.Core.Path.{subst}
use go_framework.Base.{
  ℕ, zero, suc, String, Bool, true, false, [], ◌∷◌, none, some, ◌≡◌, refl, arith, lookup, insert,
  delete, text_discrete, In, ◌<◌, if_neg, inl, Option, sym,
}
use go_framework.Config.Notifier.{Notifier}
use go_framework.Config.{
  update_one, ConfigImpl, on_update, on_delete, get, update_all, set_cache, store_all, put,
  delete_all, delete_keys, lose_one, below, on_sync, sync_snapshot, drop_missing, lower_all,
}
use go_framework.Config.Passed.{
  filter_update, filter_updates, pass_update, filter_delete, filter_deletes, pass_delete, stripped,
}
use go_framework.Config.Levels.{IsTop}
use go_framework.Config.Updates.{Agrees, on_update-IsTop, at_levels}
use go_framework.Config.Deletions.{on_delete-IsTop}
use go_framework.Config.Filter.{Filter, filter_get, decrypt, get_prefix}
use go_framework.Config.Lookup.{IsHighOrEmpty, found_in, filter_get-IsHighOrEmpty}

abbrev same : String → String
same k = k

abbrev no_empty : String → Bool
no_empty k = false

-- Two sources, both of which have the key a.
abbrev two_sources : ConfigImpl
two_sources = record {
  source =
      record { cache = ("a", "low") ∷ []; prefix = []; ignore_namespace = false }
      ∷ record { cache = ("a", "high") ∷ []; prefix = []; ignore_namespace = false }
      ∷ [];
  cache = ("a", record { level = 1; value = "high" }) ∷ [];
}

above_one : (k : String) (i : ℕ) → 1 < i → at_levels k two_sources.source i ≡ none
unfolding lookup
above_one k zero b = absurd (omega arith)
above_one k (suc zero) b = absurd (omega arith)
above_one k (suc (suc i)) b = refl

a-IsTop : IsTop (lookup "a" two_sources.cache) (at_levels "a" two_sources.source)
unfolding lookup text_discrete
a-IsTop = (refl, above_one "a")

absent : (k : String) (i : ℕ) → ¬ ("a" ≡ k) → at_levels k two_sources.source i ≡ none
unfolding lookup
absent k zero n = if_neg (text_discrete "a" k) n _ _
absent k (suc zero) n = if_neg (text_discrete "a" k) n _ _
absent k (suc (suc i)) n = refl

two_sources-Agrees : Agrees same no_empty two_sources.source two_sources.cache
unfolding lookup
two_sources-Agrees k e = elim (text_discrete "a" k) [
  | yes p ↦
      subst (λ x. IsTop (lookup x two_sources.cache) (at_levels x two_sources.source)) p a-IsTop
  | no n ↦
      subst (λ o. IsTop o (at_levels k two_sources.source))
        (sym (if_neg (text_discrete "a" k) n _ _)) (λ i. absent k i n)
]

on_update-IsTop_example :
    let c = (on_update same no_empty 0 (("a", "new") ∷ ("b", "x") ∷ []) two_sources).0 in
    IsTop (lookup "b" c.cache) (at_levels "b" c.source)
on_update-IsTop_example =
    on_update-IsTop same no_empty 0 (("a", "new") ∷ ("b", "x") ∷ []) two_sources (omega arith)
      (refl, (refl, tt)) two_sources-Agrees "b" refl

on_delete-IsTop_example :
    let c = (on_delete same no_empty 1 ("a" ∷ []) two_sources).0 in
    IsTop (lookup "a" c.cache) (at_levels "a" c.source)
on_delete-IsTop_example =
    on_delete-IsTop same no_empty 1 ("a" ∷ []) two_sources (omega arith) (refl, tt)
      two_sources-Agrees "a" refl

-- The value of the lower source comes back.
falls_back :
    (on_delete same no_empty 1 ("a" ∷ []) two_sources).0.cache
    ≡ ("a", record { level = 0; value = "low" }) ∷ []
unfolding on_delete delete_keys lose_one below put insert lookup delete delete_all set_cache
    text_discrete
falls_back = refl

abbrev filter : Filter ℕ
filter = record { prefix = ""; ns = "" ∷ []; password = []; prefix_map = ("", "") ∷ [] }

filter_get-IsHighOrEmpty_example :
    (v : String) × IsHighOrEmpty (found_in same no_empty two_sources filter "a") ("" ∷ []) v
    × (filter_get
          (λ k p r. get same no_empty k p r two_sources)
          no_empty
          (λ (p : ℕ) _. none)
          7
          filter
          "a"
        ≡ some (decrypt no_empty (λ (p : ℕ) _. none) 7 filter v))
filter_get-IsHighOrEmpty_example =
    filter_get-IsHighOrEmpty same no_empty no_empty (λ p _. none) 7 two_sources filter "a"
      (refl, (refl, tt))

-- A snapshot without the key does not take it from the cache of its source: when a higher source is
-- deleted later, the old value is found again.
stale_after_sync :
    (on_delete same no_empty 1
      ("a" ∷ [])
      (on_sync same no_empty 0 (("b", "x") ∷ []) two_sources).0).0.cache
    ≡ ("a", record { level = 0; value = "low" }) ∷ ("b", record { level = 0; value = "x" }) ∷ []
unfolding on_delete delete_keys lose_one below put insert lookup delete delete_all set_cache
    text_discrete on_sync store_all lower_all update_all update_one drop_missing sync_snapshot
stale_after_sync = refl

-- An empty snapshot changes nothing: the key stays although its source has lost it.
empty_snapshot : (on_sync same no_empty 1 [] two_sources).0.cache ≡ two_sources.cache
unfolding on_sync
empty_snapshot = refl

abbrev one_watcher : Notifier
one_watcher = record { watchers = record { number = 1; of_source = true } ∷ [] }

-- A finder that knows the key a alone; every key has the empty namespace's prefix.
abbrev find_a : String → Option String
find_a k = lookup k (("a", "v") ∷ [])

abbrev always : String → String → Bool
always k p = true

abbrev untrimmed : String → String → String
untrimmed k p = k

b_is_deleted : In "b" (filter_delete always untrimmed find_a same filter ("a" ∷ "b" ∷ [])).deleted
unfolding filter_delete filter_deletes pass_delete stripped get_prefix lookup text_discrete insert
b_is_deleted = inl refl

a_is_updated :
    lookup "a" (filter_delete always untrimmed find_a same filter ("a" ∷ "b" ∷ [])).updated
    ≡ some "v"
unfolding filter_delete filter_deletes pass_delete stripped get_prefix lookup text_discrete insert
a_is_updated = refl

a_is_passed :
    lookup "a" (filter_update always untrimmed find_a same filter (("a", "v") ∷ ("a", "w") ∷ []))
    ≡ some "v"
unfolding filter_update filter_updates pass_update stripped get_prefix lookup text_discrete insert
a_is_passed = refl
