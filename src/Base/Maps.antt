-- ===== src/Base/Maps.antt =====
-- A Go map with text keys, as an association list; the order of the list stands for the order in
-- which a `range` visits the entries.
use Prim.Native.String.{String}
use mathlib.Core.Path.{◌≡◌, refl, sym}
use mathlib.Core.Logic.{◌≢◌, ◌⊎◌, ite, inl, inr, if_pos, if_neg}
use mathlib.Core.List.{List, [], ◌∷◌}
use mathlib.Core.Option.{Option, none, some}
use native.Mathlib.Omega.{arith}
use go_framework.Base.Lists.{In}
use go_framework.Base.Texts.{text_discrete}

abbrev pub GoMap {ℓ} : Type ℓ → Type ℓ
GoMap V = List (String × V)

module _ {ℓ} {V : Type ℓ} where
  unfoldable pub lookup : String → GoMap V → Option V
  lookup k [] = none
  lookup k ((j, v) ∷ m) = ite (text_discrete j k) (some v) (lookup k m)

  -- `m[k] = v`
  unfoldable pub insert : String → V → GoMap V → GoMap V
  insert k v [] = (k, v) ∷ []
  insert k v ((j, w) ∷ m) = ite (text_discrete j k) ((k, v) ∷ m) ((j, w) ∷ insert k v m)

  -- `delete(m, k)`
  unfoldable pub delete : String → GoMap V → GoMap V
  delete k [] = []
  delete k ((j, w) ∷ m) = ite (text_discrete j k) (delete k m) ((j, w) ∷ delete k m)

  abbrev pub keys : GoMap V → List String
  keys [] = []
  keys ((j, w) ∷ m) = j ∷ keys m

  -- What every Go map has: no key twice.
  abbrev pub HasDistinctKeys : GoMap V → Type 0
  HasDistinctKeys [] = Unit
  HasDistinctKeys ((j, w) ∷ m) = (¬ In j (keys m)) × HasDistinctKeys m

  pub lookup-insert :
      (k j : String) (v : V) (m : GoMap V)
      → lookup j (insert k v m) ≡ ite (text_discrete k j) (some v) (lookup j m)
  unfolding lookup insert
  lookup-insert k j v [] = refl
  lookup-insert k j v ((i, w) ∷ m) = ground (arith, lookup-insert k j v m)

  pub lookup-insert_self : (k : String) (v : V) (m : GoMap V) → lookup k (insert k v m) ≡ some v
  lookup-insert_self k v m = ground (arith, lookup-insert k k v m)

  pub lookup-insert_ne :
      (k j : String) (v : V) (m : GoMap V) → k ≢ j → lookup j (insert k v m) ≡ lookup j m
  lookup-insert_ne k j v m h = ground (arith, lookup-insert k j v m)

  pub lookup-delete :
      (k j : String) (m : GoMap V)
      → lookup j (delete k m) ≡ ite (text_discrete k j) none (lookup j m)
  unfolding lookup delete
  lookup-delete k j [] = ground arith
  lookup-delete k j ((i, w) ∷ m) = ground (arith, lookup-delete k j m)

  pub lookup-delete_self : (k : String) (m : GoMap V) → lookup k (delete k m) ≡ none
  lookup-delete_self k m = ground (arith, lookup-delete k k m)

  pub lookup-delete_ne : (k j : String) (m : GoMap V) → k ≢ j → lookup j (delete k m) ≡ lookup j m
  lookup-delete_ne k j m h = ground (arith, lookup-delete k j m)

  pub not-In-keys : (k : String) (m : GoMap V) → lookup k m ≡ none → ¬ In k (keys m)
  unfolding lookup
  not-In-keys k [] e h = h
  not-In-keys k ((j, w) ∷ m) e (inl p) = ground arith
  not-In-keys k ((j, w) ∷ m) e (inr h) = not-In-keys k m (ground arith) h

  pub none_of_not-In : (k : String) (m : GoMap V) → ¬ In k (keys m) → lookup k m ≡ none
  unfolding lookup
  none_of_not-In k [] h = refl
  none_of_not-In k ((j, w) ∷ m) h =
      rw (if_neg _ (λ e. h (inl e))) (none_of_not-In k m (λ l. h (inr l)))

  pub In-keys : (k : String) (m : GoMap V) (v : V) → lookup k m ≡ some v → In k (keys m)
  unfolding lookup
  In-keys k [] v e = cc
  In-keys k ((j, w) ∷ m) v e = elim (text_discrete j k) [
    | yes p ↦ inl p
    | no p ↦ inr (In-keys k m v (rw (if_neg _ p) at e))
  ]

  pub lookup-In : (k : String) (m : GoMap V) → In k (keys m) → (v : V) × (lookup k m ≡ some v)
  unfolding lookup
  lookup-In k [] h = absurd h
  lookup-In k ((j, w) ∷ m) (inl p) = (w, ground arith)
  lookup-In k ((j, w) ∷ m) (inr h) = elim (text_discrete j k) [
    | yes p ↦ (w, rw (if_pos _ p))
    | no p ↦ let (v, e) = lookup-In k m h in (v, rw (if_neg _ p) e)
  ]

  keys-insert-In :
      (k j : String) (v : V) (m : GoMap V) → In j (keys (insert k v m)) → (k ≡ j) ⊎ In j (keys m)
  unfolding insert
  keys-insert-In k j v [] h = ground arith
  keys-insert-In k j v ((i, w) ∷ m) h = ground (arith, keys-insert-In k j v m)

  keys-delete-In : (k j : String) (m : GoMap V) → In j (keys (delete k m)) → In j (keys m)
  unfolding delete
  keys-delete-In k j [] h = h
  keys-delete-In k j ((i, w) ∷ m) h = ground (arith, keys-delete-In k j m)

  pub insert-HasDistinctKeys :
      (k : String) (v : V) (m : GoMap V) → HasDistinctKeys m → HasDistinctKeys (insert k v m)
  unfolding insert
  insert-HasDistinctKeys k v [] d = ((λ h. h), tt)
  insert-HasDistinctKeys k v ((i, w) ∷ m) d = elim (text_discrete i k) [
    | yes p ↦ rw (if_pos _ p) ((λ h. d.0 (rw (← p) at h)), d.1)
    | no p ↦ rw (if_neg _ p) (fresh p, insert-HasDistinctKeys k v m d.1)
  ]
    where
      fresh : i ≢ k → ¬ In i (keys (insert k v m))
      fresh p h = elim (keys-insert-In k i v m h) [ inl e ↦ p (sym e) | inr l ↦ d.0 l ]

  pub delete-HasDistinctKeys :
      (k : String) (m : GoMap V) → HasDistinctKeys m → HasDistinctKeys (delete k m)
  unfolding delete
  delete-HasDistinctKeys k [] d = tt
  delete-HasDistinctKeys k ((i, w) ∷ m) d = elim (text_discrete i k) [
    | yes p ↦ rw (if_pos _ p) (delete-HasDistinctKeys k m d.1)
    | no p ↦ rw (if_neg _ p) ((λ h. d.0 (keys-delete-In k i m h)), delete-HasDistinctKeys k m d.1)
  ]

pub ruleset map_laws = (lookup-insert, lookup-delete)
