-- ===== src/Stream/Count.antt =====
-- How many goroutines are at places of a kind, when one of them moves.
use go_framework.Base.{
  ℕ, zero, suc, ◌+◌, ◌-◌, ◌≤◌, Bool, List, [], ◌∷◌, some, ◌≡◌, arith, get_elem?, if◌then◌else◌, All,
}
use go_framework.Stream.{put_place}

abbrev pub one_if : Bool → ℕ
one_if b = if b then 1 else 0

module _ {A : Type 0} where
  -- How many goroutines are at places of a kind.
  unfoldable pub count : (A → Bool) → List (A) → ℕ
  count f [] = 0
  count f (p ∷ ps) = one_if (f p) + count f ps

  count-put_place :
      (f : A → Bool) (n : ℕ) (p q : A) (ps : List (A))
      → get_elem? ps n ≡ some q
      → count f (put_place n p ps) + one_if (f q) ≡ count f ps + one_if (f p)
  unfolding count put_place
  count-put_place f n p q [] h = absurd (ground arith)
  count-put_place f zero p q (x ∷ xs) h = ground arith
  count-put_place f (suc n) p q (x ∷ xs) h = ground (arith, count-put_place f n p q xs h)

  one_if-le-count :
      (f : A → Bool) (n : ℕ) (q : A) (ps : List (A))
      → get_elem? ps n ≡ some q
      → one_if (f q) ≤ count f ps
  unfolding count
  one_if-le-count f n q [] h = absurd (ground arith)
  one_if-le-count f zero q (x ∷ xs) h = ground arith
  one_if-le-count f (suc n) q (x ∷ xs) h = ground (arith, one_if-le-count f n q xs h)

  pub count_le :
      (f g : A → Bool)
      → ((p : A) → one_if (f p) ≤ one_if (g p))
      → (ps : List (A)) → count f ps ≤ count g ps
  unfolding count
  count_le f g h [] = omega arith
  count_le f g h (p ∷ ps) = omega (arith, h p, count_le f g h ps)

  pub count_add_le :
      (f g k : A → Bool)
      → ((p : A) → one_if (f p) + one_if (g p) ≤ one_if (k p))
      → (ps : List A) → count f ps + count g ps ≤ count k ps
  unfolding count
  count_add_le f g k h [] = omega arith
  count_add_le f g k h (p ∷ ps) = omega (arith, h p, count_add_le f g k h ps)

  module _ (f : A → Bool) where
    pub count_others : ℕ → List (A) → A → ℕ
    count_others n ps q = count f ps - one_if (f q)

    pub count_others_lem :
        (n : ℕ) (ps : List (A)) (p q : A)
        → get_elem? ps n ≡ some q
        → (count_others n ps q + one_if (f q) ≡ count f ps)
          × (count_others n ps q + one_if (f p) ≡ count f (put_place n p ps))
    unfolding count_others
    count_others_lem n ps p q h =
        let b : one_if (f q) ≤ count f ps = one_if-le-count f n q ps h in
        (omega (arith, b), omega (arith, b, count-put_place f n p q ps h))

  pub All-put_place :
      (P : A → Type 0) (n : ℕ) (p : A) (ps : List (A)) → P p → All P ps → All P (put_place n p ps)
  unfolding put_place
  All-put_place P n p [] h k = tt
  All-put_place P zero p (q ∷ qs) h k = (h, k.1)
  All-put_place P (suc n) p (q ∷ qs) h k = (k.0, All-put_place P n p qs h k.1)

  pub All-get_elem? :
      (P : A → Type 0) (n : ℕ) (p : A) (ps : List (A)) → All P ps → get_elem? ps n ≡ some p → P p
  All-get_elem? P n p [] h e = absurd (ground arith)
  All-get_elem? P zero p (q ∷ qs) h e = ground arith
  All-get_elem? P (suc n) p (q ∷ qs) h e = All-get_elem? P n p qs h.1 e
