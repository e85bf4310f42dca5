-- ===== src/Encryption/Blocks.antt =====
-- Blocks of sixteen bytes, and the padding.
use go_framework.Base.{
  Bytes, ℕ, zero, suc, ◌+◌, ◌-◌, ◌*◌, ◌/◌, ◌%◌, ◌<◌, false, [], ◌∷◌, ◌++◌, if◌then◌else◌, ltb,
  length, take, drop, replicate, ◌≡◌, refl, ap, ◌∙◌, arith, take-append, drop-append, take-drop,
  length-take, length-drop, length-append, length-replicate,
}
use go_framework.Encryption.{
  ok, err, invalid_password, each_block, pad, last, cut_padding, read_into,
}

module _ (f g : Bytes → Bytes) (f_size : (b : Bytes) → length b ≡ 16 → length (f b) ≡ 16)
    (f_back : (b : Bytes) → length b ≡ 16 → g (f b) ≡ b) where
  pub each_block-length :
      (n : ℕ) (bs : Bytes) → length bs ≡ n * 16 → length (each_block f n bs) ≡ n * 16
  unfolding each_block
  each_block-length zero bs e = e
  each_block-length (suc n) bs e =
      let t = f_size (take 16 bs) (length-take 16 bs (omega arith)) in
      let d = each_block-length n (drop 16 bs) (omega (arith, length-drop 16 bs)) in
      omega (arith, length-append (f (take 16 bs)) (each_block f n (drop 16 bs)))

  pub each_block-back :
      (n : ℕ) (bs : Bytes) → length bs ≡ n * 16 → each_block g n (each_block f n bs) ≡ bs
  unfolding each_block
  each_block-back zero bs e = refl
  each_block-back (suc n) bs e =
      let l = length-take 16 bs (omega arith) in
      let t = f_size (take 16 bs) l in
      let rest = each_block f n (drop 16 bs) in
      let ih = each_block-back n (drop 16 bs) (omega (arith, length-drop 16 bs)) in
      ap (λ x. g x ++ each_block g n (drop 16 (f (take 16 bs) ++ rest)))
        (take-append 16 (f (take 16 bs)) rest t)
      ∙ ap (λ x. x ++ each_block g n (drop 16 (f (take 16 bs) ++ rest))) (f_back (take 16 bs) l)
      ∙ ap (λ x. take 16 bs ++ each_block g n x) (drop-append 16 (f (take 16 bs)) rest t)
      ∙ ap (λ x. take 16 bs ++ x) ih
      ∙ take-drop 16 bs

pub pad-length : (bs : Bytes) → length (pad bs) ≡ length (pad bs) / 16 * 16
unfolding pad
pad-length bs =
    let n = 16 - length bs % 16 in
    omega (arith, length-append bs (replicate n n), length-replicate n n)

last-append : (bs : Bytes) (n m : ℕ) → last (bs ++ replicate (suc n) m) ≡ m
last-append [] zero m = refl
last-append [] (suc n) m = last-append [] n m
last-append (b ∷ []) n m = last-append [] n m
last-append (b ∷ c ∷ bs) n m = last-append (c ∷ bs) n m

cut_nonempty :
    (xs : Bytes) (n m : ℕ)
    → length xs ≡ m + n
    → last xs ≡ n
    → 0 < n
    → cut_padding xs ≡ ok (take m xs)
unfolding cut_padding
cut_nonempty [] n m e l p = absurd (omega arith)
cut_nonempty (x ∷ xs) n m e l p =
    let h : ltb (length (x ∷ xs)) (last (x ∷ xs)) ≡ false = ground arith in
    let k : length (x ∷ xs) - last (x ∷ xs) ≡ m = omega arith in
    ap
      (λ b.
        if b then err invalid_password else ok (take (length (x ∷ xs) - last (x ∷ xs)) (x ∷ xs)))
      h
    ∙ ap (λ j. ok (take j (x ∷ xs))) k

-- The padding can be cut off by the last byte.
cut_replicate : (bs : Bytes) (n : ℕ) → cut_padding (bs ++ replicate (suc n) (suc n)) ≡ ok bs
unfolding cut_padding
cut_replicate bs n =
    cut_nonempty (bs ++ replicate (suc n) (suc n)) (suc n) (length bs)
      (length-append bs (replicate (suc n) (suc n))
        ∙ ap (λ l. length bs + l) (length-replicate (suc n) (suc n)))
      (last-append bs n (suc n)) (omega arith)
    ∙ ap ok (take-append (length bs) bs (replicate (suc n) (suc n)) refl)

pub cut_padding-pad : (bs : Bytes) → cut_padding (pad bs) ≡ ok bs
unfolding pad
cut_padding-pad bs =
    let e : 16 - length bs % 16 ≡ suc (15 - length bs % 16) = omega arith in
    rw e (cut_replicate bs (15 - length bs % 16))

-- A signature that is there as a whole is read as it is.
pub read_into-append : (n : ℕ) (bs cs : Bytes) → length bs ≡ n → read_into n (bs ++ cs) ≡ bs
unfolding read_into
read_into-append zero [] cs e = refl
read_into-append zero (b ∷ bs) cs e = absurd (omega arith)
read_into-append (suc n) [] cs e = absurd (omega arith)
read_into-append (suc n) (b ∷ bs) cs e = ap (λ r. b ∷ r) (read_into-append n bs cs (omega arith))
