-- ===== src/Stream/Subsequence.antt =====
-- Lists with some of their elements dropped.
use go_framework.Base.{List, [], ◌∷◌, ◌++◌}

-- `xs` is what is left of `ys` when some of its elements are dropped.
pub data IsSubsequence {M : Type 0} : List M → List M → Type 0 where
  end : IsSubsequence [] []
  kept : {xs ys : List M} (x : M) → IsSubsequence xs ys → IsSubsequence (x ∷ xs) (x ∷ ys)
  skip : {xs ys : List M} (y : M) → IsSubsequence xs ys → IsSubsequence xs (y ∷ ys)

module _ {M : Type 0} where
  pub IsSubsequence-refl : (xs : List M) → IsSubsequence xs xs
  IsSubsequence-refl [] = end
  IsSubsequence-refl (x ∷ xs) = kept x (IsSubsequence-refl xs)

  pub IsSubsequence-trans :
      {ys zs : List M}
      → IsSubsequence ys zs
      → (xs : List M) → IsSubsequence xs ys
      → IsSubsequence xs zs
  IsSubsequence-trans end xs s = s
  IsSubsequence-trans (kept y t) _ (kept {xs} x s) = kept x (IsSubsequence-trans t xs s)
  IsSubsequence-trans (kept y t) _ (skip {xs} x s) = skip x (IsSubsequence-trans t xs s)
  IsSubsequence-trans (skip y t) xs s = skip y (IsSubsequence-trans t xs s)

  pub IsSubsequence-append :
      {xs ys : List M} → IsSubsequence xs ys → (zs : List M) → IsSubsequence (xs ++ zs) (ys ++ zs)
  IsSubsequence-append end zs = IsSubsequence-refl zs
  IsSubsequence-append (kept x s) zs = kept x (IsSubsequence-append s zs)
  IsSubsequence-append (skip y s) zs = skip y (IsSubsequence-append s zs)

  pub IsSubsequence-without :
      (ws : List M) (x : M) (bs : List M) → IsSubsequence (ws ++ bs) (ws ++ x ∷ bs)
  IsSubsequence-without [] x bs = skip x (IsSubsequence-refl bs)
  IsSubsequence-without (a ∷ ws) x bs = kept a (IsSubsequence-without ws x bs)
