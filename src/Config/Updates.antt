-- ===== src/Config/Updates.antt =====
-- The configuration gives each key the value of the highest source that has it, before and after
-- updates and deletions.
use mathlib.Core.Path.{subst}
use go_framework.Base.{
  ℕ, ◌<◌, ◌≢◌, String, Bool, false, List, [], ◌∷◌, Option, some, ◌≡◌, sym, ◌∙◌, ap, if◌then◌else◌,
  GoMap, lookup, insert, arith, length, All, ℕ_discrete, text_discrete, lookup-insert_self,
  lookup-insert_ne,
}
use go_framework.Config.{
  ValueNode, SourceWrapper, ConfigImpl, set_cache, source_cache, may_replace, put, update_one,
  update_all, on_update, store_all, update_notice,
}
use go_framework.Config.Levels.{
  IsTop, IsTop-same, IsTop-raise, source_cache-set_cache, source_cache-set_cache_ne,
  set_cache-set_cache, set_cache-length, set_cache-source_cache,
}

-- What the levels have under a key.
abbrev pub at_levels : String → List SourceWrapper → ℕ → Option String
at_levels k ss i = lookup k (source_cache i ss)

pub at_levels-set_cache :
    (k : String) (l i : ℕ) (m : GoMap String) (ss : List SourceWrapper)
    → i ≢ l
    → at_levels k (set_cache l m ss) i ≡ at_levels k ss i
at_levels-set_cache k l i m ss n = ap (lookup k) (source_cache-set_cache_ne l i m ss n)

-- A new cache that has the same under the key changes no level.
pub at_levels-same :
    (k : String) (l : ℕ) (m : GoMap String) (ss : List SourceWrapper)
    → l < length ss
    → lookup k m ≡ lookup k (source_cache l ss)
    → (i : ℕ) → at_levels k (set_cache l m ss) i ≡ at_levels k ss i
at_levels-same k l m ss b e i = elim (ℕ_discrete i l) [
  | yes p ↦
      subst (λ x. at_levels k (set_cache l m ss) x ≡ at_levels k ss x) (sym p)
        (ap (lookup k) (source_cache-set_cache l m ss b) ∙ e)
  | no n ↦ at_levels-set_cache k l i m ss n
]

module _ (to_lower : String → String) (has_empty : String → Bool) where
  -- Every key without an empty part has the value of the highest source that has the key.
  abbrev pub Agrees : List SourceWrapper → GoMap ValueNode → Type 0
  Agrees ss t = (k : String) → has_empty k ≡ false → IsTop (lookup k t) (at_levels k ss)

  abbrev stored : ℕ → String → String → List SourceWrapper → List SourceWrapper
  stored l k v ss = set_cache l (insert k v (source_cache l ss)) ss

  update_one-lookup :
      (l : ℕ) (k v : String) (t : GoMap ValueNode)
      → has_empty k ≡ false
      → lookup k (update_one to_lower has_empty l k v t) ≡ (
          if may_replace l (lookup k t) then some (record { level = l; value = v }) else lookup k t)
  unfolding update_one put
  update_one-lookup l k v t e =
      ground (arith, lookup-insert_self k (record { level = l; value = v }) t)

  update_one-lookup_ne :
      (l : ℕ) (k j v : String) (t : GoMap ValueNode)
      → k ≢ j
      → lookup j (update_one to_lower has_empty l k v t) ≡ lookup j t
  unfolding update_one put
  update_one-lookup_ne l k j v t n =
      ground (arith, lookup-insert_ne k j (record { level = l; value = v }) t n)

  update_one-Agrees :
      (l : ℕ) (k v : String) (ss : List SourceWrapper) (t : GoMap ValueNode)
      → l < length ss
      → Agrees ss t
      → Agrees (stored l k v ss) (update_one to_lower has_empty l k v t)
  update_one-Agrees l k v ss t b h j e = elim (text_discrete k j) [
    | yes p ↦
        subst
          (λ x.
            IsTop (lookup x (update_one to_lower has_empty l k v t))
              (at_levels x (stored l k v ss)))
          p
          (subst (λ o. IsTop o (at_levels k (stored l k v ss)))
            (sym (update_one-lookup l k v t (ap has_empty p ∙ e)))
            (IsTop-raise l v (lookup k t) (at_levels k ss) (at_levels k (stored l k v ss))
              (ap (lookup k) (source_cache-set_cache l _ ss b) ∙ lookup-insert_self k v _)
              (λ i n. at_levels-set_cache k l i _ ss n) (h k (ap has_empty p ∙ e))))
    | no n ↦
        subst (λ o. IsTop o (at_levels j (stored l k v ss)))
          (sym (update_one-lookup_ne l k j v t n))
          (IsTop-same (lookup j t) (at_levels j ss) (at_levels j (stored l k v ss))
            (at_levels-same j l _ ss b (lookup-insert_ne k j v _ n)) (h j e))
  ]

  -- All of an update.
  update_all-Agrees :
      (l : ℕ) (vals : GoMap String) (ss : List SourceWrapper) (t : GoMap ValueNode)
      (notify : GoMap String)
      → l < length ss
      → All (λ kv. to_lower kv.0 ≡ kv.0) vals
      → Agrees ss t
      → Agrees
          (set_cache l (store_all vals (source_cache l ss)) ss)
          (update_all to_lower has_empty l vals t notify).0
  unfolding update_all store_all
  update_all-Agrees l [] ss t notify b w h =
      subst (λ x. Agrees x t) (sym (set_cache-source_cache l ss)) h
  update_all-Agrees l ((k, v) ∷ vals) ss t notify b w h =
      let ss1 = stored l k v ss in
      let e : set_cache l (store_all vals (source_cache l ss1)) ss1
          ≡ set_cache l (store_all vals (insert k v (source_cache l ss))) ss =
        ap (λ c. set_cache l (store_all vals c) ss1) (source_cache-set_cache l _ ss b)
        ∙ set_cache-set_cache l _ _ ss in
      let t1 = update_one to_lower has_empty l (to_lower k) v t in
      let notes = update_notice to_lower has_empty l (to_lower k) v t notify in
      subst (λ x. Agrees x (update_all to_lower has_empty l vals t1 notes).0) e
        (update_all-Agrees l vals ss1 t1 notes
          (rw (set_cache-length l (insert k v (source_cache l ss)) ss) b) w.1
          (subst (λ x. Agrees ss1 (update_one to_lower has_empty l x v t)) (sym w.0)
            (update_one-Agrees l k v ss t b h)))

  -- When every key without an empty part has the value of the highest source that has the key, and a
  -- source reports changed values under keys in lower case, then each key without an empty part has
  -- the value of the highest source again, for the sources with the new values.
  pub on_update-IsTop :
      (l : ℕ) (vals : GoMap String) (c : ConfigImpl)
      → l < length c.source
      → All (λ kv. to_lower kv.0 ≡ kv.0) vals
      → Agrees c.source c.cache
      → (k : String) → has_empty k ≡ false
      → let c' = (on_update to_lower has_empty l vals c).0 in
        IsTop (lookup k c'.cache) (at_levels k c'.source)
  unfolding on_update
  on_update-IsTop l vals c b w h k e = update_all-Agrees l vals c.source c.cache [] b w h k e
