-- ===== src/Config/Notifier.antt =====
-- config/watcher/notifier.go and watcher.go: the watchers of a source or of the configuration, and a
-- helper that watches one key. A watcher is compared by its number.
use go_framework.Base.{
  ℕ, String, Bool, true, false, List, [], ◌∷◌, ◌++◌, Option, none, some, ◌≡◌, refl, ap, ◌∙◌, arith,
  ◌≢◌, ◌↔◌, ◌==◌, if◌then◌else◌, GoMap, lookup, is_empty, In, inl, inr, ite, text_discrete, length,
}

-- `of_source` says that it is a SourceWatcher.
pub record Watcher : Type 0 where
  pub number : ℕ
  pub of_source : Bool

pub record Notifier : Type 0 where
  pub watchers : List Watcher

abbrev notifier : List Watcher → Notifier
notifier ws = record { watchers = ws }

unfoldable pub watch : Watcher → Notifier → Notifier
watch w n = record { watchers = n.watchers ++ w ∷ [] }

unfoldable pub others : ℕ → List Watcher → List Watcher
others w [] = []
others w (x ∷ xs) = let rest = others w xs in if x.number == w then rest else x ∷ rest

-- The function that `Watch` returns.
unfoldable pub cancel : Watcher → Notifier → Notifier
cancel w n = record { watchers = others w.number n.watchers }

abbrev pub sources_only : List Watcher → List ℕ
sources_only [] = []
sources_only (w ∷ ws) = let rest = sources_only ws in if w.of_source then w.number ∷ rest else rest

abbrev pub numbers : List Watcher → List ℕ
numbers [] = []
numbers (w ∷ ws) = w.number ∷ numbers ws

-- The watchers that are called, in order.
unfoldable pub on_update : GoMap String → Notifier → List ℕ
on_update vals n = if is_empty vals then [] else numbers n.watchers

unfoldable pub on_delete : List String → Notifier → List ℕ
on_delete ks n = if is_empty ks then [] else numbers n.watchers

unfoldable pub on_sync : GoMap String → Notifier → List ℕ
on_sync vals n = if is_empty vals then [] else sources_only n.watchers

unfoldable pub size : Notifier → ℕ
size n = length n.watchers

-- A helper for one key: the arguments that its function is called with, the value and whether it is
-- gone.
pub record Helper : Type 0 where
  pub key_to_watch : String

module _ (to_lower : String → String) where
  unfoldable pub new_helper : String → Helper
  new_helper key = record { key_to_watch = to_lower key }

  unfoldable pub helper_update : Helper → GoMap String → Option (String × Bool)
  helper_update h vals = elim (lookup (to_lower h.key_to_watch) vals) [
    | some v ↦ some (v, false)
    | none ↦ none
  ]

  unfoldable pub helper_delete : Helper → List String → Option (String × Bool)
  helper_delete h [] = none
  helper_delete h (k ∷ ks) =
      ite (text_discrete (to_lower k) h.key_to_watch) (some ("", true)) (helper_delete h ks)

  -- A new helper hears of a deletion exactly when one of the deleted keys is its key but for the case
  -- of the letters, whatever the case of either.
  pub helper_delete-In :
      (key : String) (ks : List String)
      → (helper_delete (new_helper key) ks ≡ some ("", true))
        ↔ ((k : String) × In k ks × (to_lower k ≡ to_lower key))
  unfolding helper_delete new_helper
  helper_delete-In key [] = (λ e. absurd (ground arith), λ h. absurd h.1)
  helper_delete-In key (k ∷ ks) =
      let (to, of) = helper_delete-In key ks in
      (
        λ e. elim (text_discrete (to_lower k) (to_lower key)) [
          | yes p ↦ (k, inl refl, p)
          | no n ↦ let (j, i, p) = to (ground arith) in (j, inr i, p)
        ],
        λ (j, i, p). elim i [ inl q ↦ ground arith | inr m ↦ let r = of (j, m, p) in ground arith ],
      )

others-append :
    (w : ℕ) (xs : List Watcher) (y : Watcher) → y.number ≡ w → others w (xs ++ y ∷ []) ≡ others w xs
unfolding others
others-append w [] y e = ground arith
others-append w (x ∷ xs) y e = ground (arith, others-append w xs y e)

-- The number is no watcher's.
abbrev pub IsNew : ℕ → List Watcher → Type 0
IsNew w [] = Unit
IsNew w (x ∷ xs) = (x.number ≢ w) × IsNew w xs

others-new : (w : ℕ) (xs : List Watcher) → IsNew w xs → others w xs ≡ xs
unfolding others
others-new w [] h = refl
others-new w (x ∷ xs) h = ground (arith, others-new w xs h.1)

numbers-append :
    (xs : List Watcher) (y : Watcher) → numbers (xs ++ y ∷ []) ≡ numbers xs ++ y.number ∷ []
numbers-append [] y = refl
numbers-append (x ∷ xs) y = ap (λ r. x.number ∷ r) (numbers-append xs y)

-- A new watcher is called last for each notice that is not empty, and when it is cancelled the
-- notifier is as it was before.
pub watch-cancel :
    (w : Watcher) (n : Notifier) (k : String) (ks : List String)
    → IsNew w.number n.watchers
    → (cancel w (watch w n) ≡ n)
      × (on_delete (k ∷ ks) (watch w n) ≡ on_delete (k ∷ ks) n ++ w.number ∷ [])
unfolding cancel watch on_delete
watch-cancel w n k ks h = (
  ap (λ ws. notifier ws)
      (others-append w.number n.watchers w refl ∙ others-new w.number n.watchers h),
  numbers-append n.watchers w,
)
