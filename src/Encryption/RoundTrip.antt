-- ===== src/Encryption/RoundTrip.antt =====
-- What is encrypted is decrypted again, and what decrypts has its signature.
use go_framework.Base.{
  Bytes, same_bytes, same_bytes_refl, same_bytes_eq, ◌*◌, ◌/◌, ◌%◌, ◌<◌, true, [], ◌∷◌, ◌++◌, none,
  some, if◌then◌else◌, ◌==◌, length, drop, ◌≡◌, refl, sym, ap, ◌∙◌, arith, drop-append,
  length-append, Bool-cases, inl, inr,
}
use go_framework.Encryption.{
  Result, ok, err, Block, Library, encrypted_prefix, has_prefix, each_block, pad, cut_padding,
  read_into, aes_encrypt, aes_decrypt, encrypt, check_signature, decrypt_signed, decrypt,
  wrong_signature, not_full_blocks, bad_base64,
}
use go_framework.Encryption.Blocks.{
  each_block-length, each_block-back, pad-length, cut_padding-pad, read_into-append,
}

-- The cipher turns blocks into blocks and back.
pub record IsCipher (b : Block) : Type 0 where
  pub keeps_size : (x : Bytes) → length x ≡ 16 → length (b.encrypt_block x) ≡ 16
  pub back : (x : Bytes) → length x ≡ 16 → b.decrypt_block (b.encrypt_block x) ≡ x

-- What the standard library documents.
pub record Documented {K : Type 0} (lib : Library K) : Type 0 where
  pub cipher : (k : K) (b : Block) → lib.new_cipher k ≡ some b → IsCipher b
  pub hmac_size : (k : K) (x : Bytes) → length (lib.hmac k x) ≡ 32
  pub base64 : (x : Bytes) → lib.from_base64 (lib.to_base64 x) ≡ some x

module _ {K : Type 0} (lib : Library K) where
  aes_round :
      (key : K) (b : Block) (text : Bytes)
      → lib.new_cipher key ≡ some b
      → IsCipher b
      → (c : Bytes) × (aes_encrypt lib key text ≡ ok c) × (aes_decrypt lib key c ≡ ok text)
  unfolding aes_encrypt aes_decrypt
  aes_round key b text e h =
      let n = length (pad text) / 16 in
      let c = each_block b.encrypt_block n (pad text) in
      let l : length c ≡ n * 16 =
        each_block-length b.encrypt_block b.decrypt_block h.keeps_size h.back n (pad text)
          (pad-length text) in
      let back : each_block b.decrypt_block n c ≡ pad text =
        each_block-back b.encrypt_block b.decrypt_block h.keeps_size h.back n (pad text)
          (pad-length text) in
      let whole : (length c % 16 == 0) ≡ true = ground arith in
      let count : length c / 16 ≡ n = omega arith in
      (
        c,
        rw (e, aes_encrypt) refl,
        rw (e, aes_decrypt)
            (ap
                (λ t.
                  if t
                  then cut_padding (each_block b.decrypt_block (length c / 16) c)
                  else err not_full_blocks)
                whole
              ∙ ap (λ k. cut_padding (each_block b.decrypt_block k c)) count
              ∙ ap cut_padding back
              ∙ cut_padding-pad text),
      )

  has_prefix-append : (ps xs : Bytes) → has_prefix (ps ++ xs) ps ≡ true
  unfolding has_prefix
  has_prefix-append [] xs = refl
  has_prefix-append (p ∷ ps) xs = ground (arith, has_prefix-append ps xs)

  abbrev decrypt_body : K → Bytes → Result
  decrypt_body key s = elim (lib.from_base64 (drop (length encrypted_prefix) s)) [
    | none ↦ err bad_base64
    | some bytes ↦ decrypt_signed lib key bytes
  ]

  decrypt_signed-nonempty :
      (key : K) (bs : Bytes)
      → 0 < length bs
      → decrypt_signed lib key bs
        ≡ check_signature lib key (read_into 32 bs) (aes_decrypt lib key (drop 32 bs))
  unfolding decrypt_signed
  decrypt_signed-nonempty key [] h = absurd (omega arith)
  decrypt_signed-nonempty key (b ∷ bs) h = refl

  signed :
      (key : K) (sign c text : Bytes)
      → length sign ≡ 32
      → sign ≡ lib.hmac key text
      → aes_decrypt lib key c ≡ ok text
      → decrypt_signed lib key (sign ++ c) ≡ ok text
  unfolding check_signature
  signed key sign c text l e a =
      decrypt_signed-nonempty key (sign ++ c) (omega (arith, length-append sign c))
      ∙ ap (λ x. check_signature lib key x (aes_decrypt lib key (drop 32 (sign ++ c))))
          (read_into-append 32 sign c l)
      ∙ ap (λ x. check_signature lib key sign (aes_decrypt lib key x)) (drop-append 32 sign c l)
      ∙ ap (check_signature lib key sign) a
      ∙ ap (λ x. check_signature lib key x (ok text)) e
      ∙ ap (λ t. if t then ok text else err wrong_signature) (same_bytes_refl (lib.hmac key text))

  -- With a key that has a cipher every text is encrypted, and what it is encrypted to decrypts to the
  -- text under the same key, for a library that does what its documentation says.
  pub decrypt-encrypt :
      (key : K) (b : Block) (text : Bytes)
      → Documented lib
      → lib.new_cipher key ≡ some b
      → (s : Bytes) × (encrypt lib key text ≡ ok s) × (decrypt lib key s ≡ ok text)
  unfolding encrypt decrypt
  decrypt-encrypt key b text doc e =
      let (c, enc, dec) = aes_round key b text e (doc.cipher key b e) in
      let sign = lib.hmac key text in
      let body = lib.to_base64 (sign ++ c) in
      (
        encrypted_prefix ++ body,
        rw (enc, encrypt) refl,
        ap
              (λ t.
                if t
                then decrypt_body key (encrypted_prefix ++ body)
                else ok (encrypted_prefix ++ body))
              (has_prefix-append encrypted_prefix body)
            ∙ ap (λ r. elim r [ none ↦ err bad_base64 | some bytes ↦ decrypt_signed lib key bytes ])
                (doc.base64 (sign ++ c))
            ∙ signed key sign c text (doc.hmac_size key text) refl dec,
      )

  checked :
      (key : K) (sign text : Bytes) (r : Result)
      → check_signature lib key sign r ≡ ok text
      → lib.hmac key text ≡ sign
  unfolding check_signature
  checked key sign text (err e) h = absurd (ground arith)
  checked key sign text (ok t) h = elim (Bool-cases (same_bytes (lib.hmac key t) sign)) [
    | inl e ↦
        let same : t ≡ text = ground arith in
        ap (lib.hmac key) (sym same) ∙ same_bytes_eq (lib.hmac key t) sign e
    | inr e ↦ absurd (ground arith)
  ]

  signed-checked :
      (key : K) (bs text : Bytes)
      → decrypt_signed lib key bs ≡ ok text
      → lib.hmac key text ≡ read_into 32 bs
  unfolding decrypt_signed
  signed-checked key [] text h = absurd (ground arith)
  signed-checked key (b ∷ bs) text h =
      checked key (read_into 32 (b ∷ bs)) text (aes_decrypt lib key (drop 32 (b ∷ bs))) h

  -- An encrypted text that decrypts to a text has, in its first 32 bytes, the signature of that text
  -- under the key.
  pub decrypt-signature :
      (key : K) (s text bytes : Bytes)
      → has_prefix s encrypted_prefix ≡ true
      → lib.from_base64 (drop (length encrypted_prefix) s) ≡ some bytes
      → decrypt lib key s ≡ ok text
      → lib.hmac key text ≡ read_into 32 bytes
  unfolding decrypt
  decrypt-signature key s text bytes p d e = signed-checked key bytes text (
      sym (
        ap (λ t. if t then decrypt_body key s else ok s) p
        ∙ ap (λ r. elim r [ none ↦ err bad_base64 | some x ↦ decrypt_signed lib key x ]) d)
      ∙ e)
