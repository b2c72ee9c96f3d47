-- ===== src/Crypto/Cipher.antt =====
-- src/crypto.rs: the trait `DataCipher`, its three implementations and `create_cipher`.
use openiwan.Prelude.{
  ℕ, zero, suc, ◌+◌, ◌-◌, ◌*◌, ◌/◌, ◌%◌, ◌==◌, if◌then◌else◌, bit_xor, List, [], ◌∷◌, ◌++◌, length,
  get_or, take, drop, replicate,
}
use openiwan.Error.{Result, ok, err, crypto}
use openiwan.Protocol.Types.{EncryptionMethod, no_encryption, xor, aes}
use openiwan.Crypto.Primitives.{Primitives, block_len}
use openiwan.Crypto.Keys.{derive_session_key}

abbrev pub xor_key_len : ℕ
xor_key_len = 8

pub record DataCipher : Type 0 where
  pub method : EncryptionMethod
  pub encrypt : List ℕ → Result (List ℕ)
  pub decrypt : List ℕ → Result (List ℕ)

unfoldable pub no_cipher : DataCipher
no_cipher = record {
  method = no_encryption;
  encrypt = λ plaintext. ok plaintext;
  decrypt = λ ciphertext. ok ciphertext;
}

-- `input.iter().zip(self.key[..8].iter().cycle()).map(|(byte, key)| byte ^ key)`: the byte at
-- position `i` meets the key byte at `i % 8`.
unfoldable pub xor_from : List ℕ → ℕ → List ℕ → List ℕ
xor_from key i [] = []
xor_from key i (byte ∷ input) =
    bit_xor byte (get_or key (i % xor_key_len) 0) ∷ xor_from key (suc i) input

unfoldable pub xor_apply : List ℕ → List ℕ → List ℕ
unfolding xor_from
xor_apply key input = xor_from (take xor_key_len key) 0 input

unfoldable pub xor_cipher : List ℕ → DataCipher
unfolding xor_apply
xor_cipher key = record {
  method = xor;
  encrypt = λ plaintext. ok (xor_apply key plaintext);
  decrypt = λ ciphertext. ok (xor_apply key ciphertext);
}

-- `for block in bytes.chunks_exact_mut(16)`: `n` whole blocks from the front, the rest untouched.
unfoldable pub map_blocks : (List ℕ → List ℕ) → ℕ → List ℕ → List ℕ
map_blocks f zero bytes = bytes
map_blocks f (suc n) bytes = f (take block_len bytes) ++ map_blocks f n (drop block_len bytes)

unfoldable pub crypt_blocks : (List ℕ → List ℕ) → List ℕ → List ℕ
unfolding map_blocks
crypt_blocks f bytes = map_blocks f (length bytes / block_len) bytes

-- `len.div_ceil(16) * 16`
unfoldable pub padded_len : ℕ → ℕ
padded_len n = (n + (block_len - 1)) / block_len * block_len

unfoldable pub zero_pad : List ℕ → List ℕ
unfolding padded_len
zero_pad plaintext = plaintext ++ replicate (padded_len (length plaintext) - length plaintext) 0

module _ (p : Primitives) where
  unfoldable pub aes_encrypt : List ℕ → List ℕ → Result (List ℕ)
  unfolding crypt_blocks zero_pad
  aes_encrypt key plaintext =
      if length plaintext == 0
      then ok []
      else ok (crypt_blocks (p.aes128_encrypt key) (zero_pad plaintext))

  unfoldable pub aes_decrypt : List ℕ → List ℕ → Result (List ℕ)
  unfolding crypt_blocks
  aes_decrypt key ciphertext =
      if length ciphertext % block_len == 0
      then ok (crypt_blocks (p.aes128_decrypt key) ciphertext)
      else err (crypto "AES ciphertext length is not a multiple of 16")

  unfoldable pub aes_cipher : List ℕ → DataCipher
  unfolding aes_encrypt aes_decrypt
  aes_cipher key = record { method = aes; encrypt = aes_encrypt key; decrypt = aes_decrypt key }

  unfoldable pub create_cipher : EncryptionMethod → List ℕ → List ℕ → Result DataCipher
  unfolding no_cipher xor_cipher aes_cipher
  create_cipher no_encryption username password = ok no_cipher
  create_cipher xor username password = ok (xor_cipher (derive_session_key p username password))
  create_cipher aes username password = ok (aes_cipher (derive_session_key p username password))
