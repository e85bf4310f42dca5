-- ===== src/Config/Deletions.antt =====
-- Deletions of a source: the configuration falls back to the next lower source that has the key.
use mathlib.Core.Path.{subst}
use go_framework.Base.{
  ℕ, ◌<◌, ◌≢◌, String, Bool, false, List, [], ◌∷◌, ◌≡◌, sym, ◌∙◌, ap, if◌then◌else◌, GoMap, lookup,
  delete, arith, length, All, inl, inr, Option-cases, text_discrete, lookup-insert_self,
  lookup-insert_ne, lookup-delete_self, lookup-delete_ne,
}
use go_framework.Config.{
  ValueNode, SourceWrapper, ConfigImpl, Notice, set_cache, source_cache, below, is_of, put,
  delete_all, lose_one, delete_keys, on_delete,
}
use go_framework.Config.Updates.{at_levels, at_levels-set_cache, at_levels-same, Agrees}
use go_framework.Config.Levels.{
  IsTop, IsTopBelow, IsTop-same, IsTop-lower, below-IsTopBelow, source_cache-set_cache,
  set_cache-set_cache, set_cache-length, set_cache-source_cache, below-set_cache,
}

module _ (to_lower : String → String) (has_empty : String → Bool) where
  -- A lost key, as the loop of `onDelete` treats it.
  abbrev lost :
      ℕ → List SourceWrapper → String → GoMap ValueNode × Notice → GoMap ValueNode × Notice
  lost l ss k r = if is_of l (lookup k r.0) then lose_one to_lower has_empty l ss k r else r

  abbrev without : ℕ → String → List SourceWrapper → List SourceWrapper
  without l k ss = set_cache l (delete k (source_cache l ss)) ss

  lost-lookup :
      (l : ℕ) (ss : List SourceWrapper) (k : String) (r : GoMap ValueNode × Notice)
      → has_empty k ≡ false
      → lookup k (lost l ss k r).0 ≡ (if is_of l (lookup k r.0) then below l k ss else lookup k r.0)
  unfolding lose_one put
  lost-lookup l ss k r e = elim (Option-cases (below l k ss)) [
    | inl n ↦ rw (n, lose_one) (ground (arith, lookup-delete_self k r.0))
    | inr (b, n) ↦ rw (n, lose_one) (ground (arith, lookup-insert_self k b r.0))
  ]

  lost-lookup_ne :
      (l : ℕ) (ss : List SourceWrapper) (k j : String) (r : GoMap ValueNode × Notice)
      → k ≢ j
      → lookup j (lost l ss k r).0 ≡ lookup j r.0
  unfolding lose_one put
  lost-lookup_ne l ss k j r d = elim (Option-cases (below l k ss)) [
    | inl n ↦ rw (n, lose_one) (ground (arith, lookup-delete_ne k j r.0 d))
    | inr (b, n) ↦ rw (n, lose_one) (ground (arith, lookup-insert_ne k j b r.0 d))
  ]

  -- The sources `fs` are `ss` below the level.
  lost-Agrees :
      (l : ℕ) (k : String) (fs ss : List SourceWrapper) (r : GoMap ValueNode × Notice)
      → l < length ss
      → below l k fs ≡ below l k ss
      → Agrees to_lower has_empty ss r.0
      → Agrees to_lower has_empty (without l k ss) (lost l fs k r).0
  lost-Agrees l k fs ss r b f h j e = elim (text_discrete k j) [
    | yes p ↦
        let a = ap has_empty p ∙ e in
        let below_top =
          subst (λ o. IsTopBelow l o (at_levels k (without l k ss)))
            (below-set_cache l l k _ ss (omega arith) ∙ sym f)
            (below-IsTopBelow l k (without l k ss)) in
        subst (λ x. IsTop (lookup x (lost l fs k r).0) (at_levels x (without l k ss))) p
          (subst (λ o. IsTop o (at_levels k (without l k ss))) (sym (lost-lookup l fs k r a))
            (IsTop-lower l (below l k fs) (lookup k r.0) (at_levels k ss)
              (at_levels k (without l k ss))
              (ap (lookup k) (source_cache-set_cache l _ ss b) ∙ lookup-delete_self k _)
              (λ i n. at_levels-set_cache k l i _ ss n) below_top (h k a)))
    | no n ↦
        subst (λ o. IsTop o (at_levels j (without l k ss))) (sym (lost-lookup_ne l fs k j r n))
          (IsTop-same (lookup j r.0) (at_levels j ss) (at_levels j (without l k ss))
            (at_levels-same j l _ ss b (lookup-delete_ne k j _ n)) (h j e))
  ]

  delete_keys-Agrees :
      (l : ℕ) (ks : List String) (fs ss : List SourceWrapper) (r : GoMap ValueNode × Notice)
      → l < length ss
      → All (λ k. to_lower k ≡ k) ks
      → ((k : String) → below l k fs ≡ below l k ss)
      → Agrees to_lower has_empty ss r.0
      → Agrees to_lower has_empty
          (set_cache l (delete_all ks (source_cache l ss)) ss)
          (delete_keys to_lower has_empty l fs ks r).0
  unfolding delete_keys delete_all
  delete_keys-Agrees l [] fs ss r b w f h =
      subst (λ x. Agrees to_lower has_empty x r.0) (sym (set_cache-source_cache l ss)) h
  delete_keys-Agrees l (k ∷ ks) fs ss r b w f h =
      let ss1 = without l k ss in
      let e : set_cache l (delete_all ks (source_cache l ss1)) ss1
          ≡ set_cache l (delete_all ks (delete k (source_cache l ss))) ss =
        ap (λ c. set_cache l (delete_all ks c) ss1) (source_cache-set_cache l _ ss b)
        ∙ set_cache-set_cache l _ _ ss in
      let r1 = lost l fs (to_lower k) r in
      subst (λ x. Agrees to_lower has_empty x (delete_keys to_lower has_empty l fs ks r1).0) e
        (delete_keys-Agrees l ks fs ss1 r1
          (rw (set_cache-length l (delete k (source_cache l ss)) ss) b) w.1
          (λ j. f j ∙ sym (below-set_cache l l j _ ss (omega arith)))
          (subst (λ x. Agrees to_lower has_empty ss1 (lost l fs x r).0) (sym w.0)
            (lost-Agrees l k fs ss r b (f k) h)))

  -- When every key without an empty part has the value of the highest source that has the key, and a
  -- source reports keys in lower case as deleted, then each key without an empty part has the value of
  -- the highest source again, for the sources without the deleted keys.
  pub on_delete-IsTop :
      (l : ℕ) (ks : List String) (c : ConfigImpl)
      → l < length c.source
      → All (λ k. to_lower k ≡ k) ks
      → Agrees to_lower has_empty c.source c.cache
      → (k : String) → has_empty k ≡ false
      → let c' = (on_delete to_lower has_empty l ks c).0 in
        IsTop (lookup k c'.cache) (at_levels k c'.source)
  unfolding on_delete
  on_delete-IsTop l ks c b w h k e =
      delete_keys-Agrees l ks _ c.source _ b w (λ j. below-set_cache l l j _ c.source (omega arith))
        h k e
