-- ===== src/Encryption.antt =====
-- lib/encrypt.go: texts encrypted by AES in blocks, signed by HMAC and printed in base64. A text is the
-- list of its bytes. The cipher, HMAC and base64 of the standard library are parameters; a block has
-- 16 bytes and a signature 32.
pub mod Blocks
pub mod RoundTrip
mod Tests
use go_framework.Base.{
  same_bytes, Bytes, ℕ, zero, suc, ◌+◌, ◌-◌, ◌/◌, ◌%◌, Bool, true, false, List, [], ◌∷◌, ◌++◌,
  Option, none, some, if◌then◌else◌, ◌==◌, ltb, length, take, drop, replicate, ◌&&◌,
}

pub data Error : Type 0 where
  no_cipher not_full_blocks invalid_password bad_base64 no_signature wrong_signature : Error

pub data Result : Type 0 where
  ok : Bytes → Result
  err : Error → Result

-- `cipher.Block` of one key.
pub record Block : Type 0 where
  pub encrypt_block : Bytes → Bytes
  pub decrypt_block : Bytes → Bytes

-- The standard library: a cipher or an error for a key, signatures, and base64.
pub record Library (K : Type 0) : Type 0 where
  pub new_cipher : K → Option Block
  pub hmac : K → Bytes → Bytes
  pub to_base64 : Bytes → Bytes
  pub from_base64 : Bytes → Option Bytes

-- "encrypted://"
abbrev pub encrypted_prefix : Bytes
encrypted_prefix = 101 ∷ 110 ∷ 99 ∷ 114 ∷ 121 ∷ 112 ∷ 116 ∷ 101 ∷ 100 ∷ 58 ∷ 47 ∷ 47 ∷ []

unfoldable pub has_prefix : Bytes → Bytes → Bool
has_prefix text [] = true
has_prefix [] (p ∷ ps) = false
has_prefix (d ∷ ds) (p ∷ ps) = (d == p) && has_prefix ds ps

-- The loop over the blocks, with the number of blocks as fuel.
unfoldable pub each_block : (Bytes → Bytes) → ℕ → Bytes → Bytes
each_block f zero bytes = bytes
each_block f (suc n) bytes = f (take 16 bytes) ++ each_block f n (drop 16 bytes)

unfoldable pub pad : Bytes → Bytes
pad bytes = let n = 16 - length bytes % 16 in bytes ++ replicate n n

abbrev pub last : Bytes → ℕ
last [] = 0
last (x ∷ []) = x
last (x ∷ y ∷ ys) = last (y ∷ ys)

-- The bytes before the padding; a padding longer than the text is a panic, which is caught.
unfoldable pub cut_padding : Bytes → Result
cut_padding [] = ok []
cut_padding (b ∷ bs) =
    if ltb (length (b ∷ bs)) (last (b ∷ bs))
    then err invalid_password
    else ok (take (length (b ∷ bs) - last (b ∷ bs)) (b ∷ bs))

-- At most `n` bytes, and zeros in place of those that are not there, as in a buffer of that length.
unfoldable pub read_into : ℕ → Bytes → Bytes
read_into zero bytes = []
read_into (suc n) [] = 0 ∷ read_into n []
read_into (suc n) (b ∷ bs) = b ∷ read_into n bs

module _ {K : Type 0} (lib : Library K) where
  unfoldable pub aes_encrypt : K → Bytes → Result
  aes_encrypt key bytes = elim (lib.new_cipher key) [
    | none ↦ err no_cipher
    | some block ↦
        let padded = pad bytes in ok (each_block block.encrypt_block (length padded / 16) padded)
  ]

  unfoldable pub aes_decrypt : K → Bytes → Result
  aes_decrypt key bytes = elim (lib.new_cipher key) [
    | none ↦ err no_cipher
    | some block ↦
        if length bytes % 16 == 0
        then cut_padding (each_block block.decrypt_block (length bytes / 16) bytes)
        else err not_full_blocks
  ]

  unfoldable pub encrypt : K → Bytes → Result
  encrypt key text = elim (aes_encrypt key text) [
    | ok encrypted ↦ ok (encrypted_prefix ++ lib.to_base64 (lib.hmac key text ++ encrypted))
    | err e ↦ err e
  ]

  -- The decrypted text, if its signature is the one that stood before it.
  unfoldable pub check_signature : K → Bytes → Result → Result
  check_signature key sign (err e) = err e
  check_signature key sign (ok text) =
      if same_bytes (lib.hmac key text) sign then ok text else err wrong_signature

  -- A reader at its end gives an error; a shorter signature than 32 bytes does not.
  unfoldable pub decrypt_signed : K → Bytes → Result
  decrypt_signed key [] = err no_signature
  decrypt_signed key (b ∷ bs) =
      check_signature key (read_into 32 (b ∷ bs)) (aes_decrypt key (drop 32 (b ∷ bs)))

  unfoldable pub decrypt : K → Bytes → Result
  decrypt key text =
      if has_prefix text encrypted_prefix
      then elim (lib.from_base64 (drop (length encrypted_prefix) text)) [
        | none ↦ err bad_base64
        | some bytes ↦ decrypt_signed key bytes
      ]
      else ok text
