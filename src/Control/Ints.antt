-- ===== src/Control/Ints.antt =====
-- The integers of Go that the policies hold, and `sort.Ints`.
use go_framework.Base.{
  ◌≢◌, ap, ℕ_discrete, ℕ, zero, suc, Bool, true, false, List, [], ◌∷◌, leb, if◌then◌else◌,
}

-- `negsuc n` is -(n + 1).
pub data ℤ : Type 0 where
  pos : ℕ → ℤ
  negsuc : ℕ → ℤ

abbrev pub leb_int : ℤ → ℤ → Bool
leb_int (pos a) (pos b) = leb a b
leb_int (pos a) (negsuc b) = false
leb_int (negsuc a) (pos b) = true
leb_int (negsuc a) (negsuc b) = leb b a

-- `i <= 0` and `i == 0`.
abbrev pub not_positive : ℤ → Bool
not_positive (pos zero) = true
not_positive (pos (suc n)) = false
not_positive (negsuc n) = true

abbrev pub is_zero : ℤ → Bool
is_zero (pos zero) = true
is_zero (pos (suc n)) = false
is_zero (negsuc n) = false

pos-ne-negsuc : {a b : ℕ} → pos a ≢ negsuc b
pos-ne-negsuc e = cc

negsuc-ne-pos : {a b : ℕ} → negsuc a ≢ pos b
negsuc-ne-pos e = cc

abbrev magnitude : ℤ → ℕ
magnitude (pos n) = n
magnitude (negsuc n) = n

unfoldable pub ℤ-discrete : Discrete ℤ
unfolding ℕ_discrete pos-ne-negsuc negsuc-ne-pos
ℤ-discrete (pos a) (pos b) = elim (ℕ_discrete a b) [
  | yes e ↦ yes (ap pos e)
  | no n ↦ no (λ e. n (ap magnitude e))
]
ℤ-discrete (pos a) (negsuc b) = no pos-ne-negsuc
ℤ-discrete (negsuc a) (pos b) = no negsuc-ne-pos
ℤ-discrete (negsuc a) (negsuc b) = elim (ℕ_discrete a b) [
  | yes e ↦ yes (ap negsuc e)
  | no n ↦ no (λ e. n (ap magnitude e))
]

unfoldable pub insert_int : ℤ → List ℤ → List ℤ
insert_int i [] = i ∷ []
insert_int i (j ∷ js) = if leb_int i j then i ∷ j ∷ js else j ∷ insert_int i js

unfoldable pub sort_ints : List ℤ → List ℤ
unfolding insert_int
sort_ints [] = []
sort_ints (i ∷ is) = insert_int i (sort_ints is)
