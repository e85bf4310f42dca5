-- ===== src/Encryption/Tests.antt =====
-- A toy library whose cipher is the identity, and the theorems at it.
use mathlib.Core.Path.{subst}
use go_framework.Base.{
  Bytes, same_bytes, ℕ, [], ◌∷◌, ◌++◌, some, ◌≡◌, refl, true, length, replicate, length-replicate,
}
use go_framework.Encryption.{
  ok, Block, Library, encrypt, decrypt, encrypted_prefix, has_prefix, read_into, aes_decrypt,
  each_block, cut_padding, decrypt_signed, check_signature,
}
use go_framework.Encryption.RoundTrip.{IsCipher, Documented, decrypt-encrypt}

abbrev plain : Block
plain = record { encrypt_block = λ x. x; decrypt_block = λ x. x }

abbrev toy : Library ℕ
toy = record {
  new_cipher = λ k. some plain;
  hmac = λ k x. replicate 32 (length x);
  to_base64 = λ x. x;
  from_base64 = λ x. some x;
}

plain-IsCipher : IsCipher plain
plain-IsCipher = record { keeps_size = λ x e. e; back = λ x e. refl }

some_eq : (b c : Block) → some b ≡ some c → b ≡ c
some_eq b c e = cc

toy-Documented : Documented toy
toy-Documented = record {
  cipher = λ k b e. subst IsCipher (some_eq plain b e) plain-IsCipher;
  hmac_size = λ k x. length-replicate 32 (length x);
  base64 = λ x. refl;
}

decrypt-encrypt_example :
    (s : Bytes) × (encrypt toy 5 (1 ∷ 2 ∷ 3 ∷ []) ≡ ok s) × (decrypt toy 5 s ≡ ok (1 ∷ 2 ∷ 3 ∷ []))
decrypt-encrypt_example = decrypt-encrypt toy 5 plain (1 ∷ 2 ∷ 3 ∷ []) toy-Documented refl

-- The signature, and one block whose padding has thirteen bytes.
abbrev body : Bytes
body = replicate 32 3 ++ (1 ∷ 2 ∷ 3 ∷ replicate 13 13)

body_decrypts : decrypt toy 5 (encrypted_prefix ++ body) ≡ ok (1 ∷ 2 ∷ 3 ∷ [])
unfolding decrypt has_prefix decrypt_signed check_signature aes_decrypt each_block cut_padding
    read_into same_bytes
body_decrypts = refl

body-has_prefix : has_prefix (encrypted_prefix ++ body) encrypted_prefix ≡ true
unfolding has_prefix
body-has_prefix = refl
