-- ===== src/Sr/Outer.antt =====
-- src/sr.rs: `SrOuterCipher`. The block ciphers are parameters; a key string is its UTF-8 bytes.
pub mod RoundTrip
use openiwan.Prelude.{
  ℕ, ◌+◌, ◌-◌, ◌%◌, ltb, leb, ◌==◌, ◌!=◌, ◌||◌, if◌then◌else◌, List, [], ◌∷◌, ◌++◌, length, take,
  replicate, String, Bool, true, false,
}
use openiwan.Error.{Result, ok, err, ◌>>=◌, ◌>>◌, bail, invalid_config, invalid_segment_routing}
use openiwan.Crypto.Primitives.{Primitives, block_len}
use openiwan.Crypto.Cipher.{crypt_blocks}
use openiwan.Sr.Header.{SrEncryptionAlgorithm, no_outer, aes128, aes256, is_no_outer}

pub record SrOuterCipher : Type 0 where
  pub algorithm : SrEncryptionAlgorithm
  pub key : List ℕ

unfoldable pub required : SrEncryptionAlgorithm → ℕ
required no_outer = 0
required aes128 = 16
required aes256 = 32

-- The formatted message of the error.
too_short : SrEncryptionAlgorithm → String
too_short no_outer = "SR None key must contain at least 0 UTF-8 bytes"
too_short aes128 = "SR Aes128 key must contain at least 16 UTF-8 bytes"
too_short aes256 = "SR Aes256 key must contain at least 32 UTF-8 bytes"

unfoldable pub new : SrEncryptionAlgorithm → List ℕ → Result SrOuterCipher
unfolding required too_short
new algorithm raw_utf8_key =
    if ltb (length raw_utf8_key) (required algorithm)
    then err (invalid_config (too_short algorithm))
    else ok (record {
      algorithm = algorithm;
      key = take (required algorithm) raw_utf8_key ++ replicate (32 - required algorithm) 0;
    })

-- `(16 - len % 16) % 16`
unfoldable pub padding_of : List ℕ → ℕ
padding_of plaintext = (block_len - length plaintext % block_len) % block_len

module _ (p : Primitives) where
  unfoldable pub encrypt_blocks : SrEncryptionAlgorithm → List ℕ → List ℕ → List ℕ
  encrypt_blocks no_outer key bytes = bytes
  encrypt_blocks aes128 key bytes = crypt_blocks (p.aes128_encrypt (take 16 key)) bytes
  encrypt_blocks aes256 key bytes = crypt_blocks (p.aes256_encrypt key) bytes

  unfoldable pub decrypt_blocks : SrEncryptionAlgorithm → List ℕ → List ℕ → List ℕ
  decrypt_blocks no_outer key bytes = bytes
  decrypt_blocks aes128 key bytes = crypt_blocks (p.aes128_decrypt (take 16 key)) bytes
  decrypt_blocks aes256 key bytes = crypt_blocks (p.aes256_decrypt key) bytes

  -- The ciphertext and the padding length.
  unfoldable pub encrypt : SrOuterCipher → List ℕ → Result (List ℕ × ℕ)
  encrypt c plaintext =
      if is_no_outer c.algorithm
      then ok (plaintext, 0)
      else ok (
        encrypt_blocks c.algorithm c.key (plaintext ++ replicate (padding_of plaintext) 0),
        padding_of plaintext,
      )

  unfoldable pub decrypt : SrOuterCipher → List ℕ → ℕ → Result (List ℕ)
  decrypt c ciphertext padding_length =
      if is_no_outer c.algorithm
      then (if padding_length != 0
          then err (invalid_segment_routing "unencrypted SR packet declares padding")
          else ok ciphertext)
      else if length ciphertext == 0 || length ciphertext % block_len != 0
      then err (invalid_segment_routing "outer ciphertext is empty or not block-aligned")
      else if leb (length ciphertext) padding_length
      then err (invalid_segment_routing "outer padding is not smaller than plaintext")
      else let output = decrypt_blocks c.algorithm c.key ciphertext in
        ok (take (length output - padding_length) output)
