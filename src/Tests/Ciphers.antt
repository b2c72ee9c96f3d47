-- ===== src/Tests/Ciphers.antt =====
-- Runs of the ciphers of src/crypto.rs and src/sr.rs.
use openiwan.Prelude.{
  ℕ, ◌≤◌, ◌<◌, ◌+◌, ◌-◌, ◌%◌, bit_xor, ◌≡◌, refl, List, [], ◌∷◌, ◌++◌, length, get_or, replicate,
  arith,
}
use openiwan.Prelude.Words.{Bytes}
use openiwan.Error.{ok}
use openiwan.Crypto.Cipher.{xor_cipher, aes_cipher}
use openiwan.Crypto.Xor.{xor_cipher-round_trip}
use openiwan.Crypto.Aes.{aes_cipher-round_trip}
use openiwan.Sr.Header.{aes128}
use openiwan.Sr.Outer.{SrOuterCipher, new, required, encrypt, decrypt}
use openiwan.Sr.Outer.RoundTrip.{decrypt-encrypt}
use openiwan.Tests.{plain, plain-IsLawful}

abbrev key : List ℕ
key = replicate 16 1

key-Bytes : Bytes key
key-Bytes = ground arith

abbrev plaintext : List ℕ
plaintext = 1 ∷ 2 ∷ 3 ∷ []

plaintext-Bytes : Bytes plaintext
plaintext-Bytes = ground arith

xor_cipher-round_trip_example :
    (c : List ℕ) × ((xor_cipher key).encrypt plaintext ≡ ok c)
    × ((xor_cipher key).decrypt c ≡ ok plaintext)
    × (length c ≡ 3)
    × Bytes c
    × (get_or c 2 0 ≡ bit_xor 3 1)
xor_cipher-round_trip_example =
    xor_cipher-round_trip key plaintext 2 key-Bytes plaintext-Bytes (omega arith)

aes_cipher-round_trip_example :
    (c : List ℕ) × ((aes_cipher plain key).encrypt plaintext ≡ ok c)
    × ((aes_cipher plain key).decrypt c ≡ ok (plaintext ++ replicate (length c - 3) 0))
    × (length c % 16 ≡ 0)
    × (3 ≤ length c)
    × (length c < 19)
    × Bytes c
aes_cipher-round_trip_example =
    aes_cipher-round_trip plain plain-IsLawful key plaintext refl plaintext-Bytes

abbrev outer : SrOuterCipher
outer = record { algorithm = aes128; key = replicate 16 1 ++ replicate 16 0 }

decrypt-encrypt_example :
    (out : List ℕ) × (padding : ℕ) × (encrypt plain outer plaintext ≡ ok (out, padding))
    × (decrypt plain outer out padding ≡ ok plaintext)
    × (padding < 16)
    × (length out ≡ 3 + padding)
    × Bytes out
unfolding new required
decrypt-encrypt_example =
    decrypt-encrypt plain plain-IsLawful aes128 key outer plaintext refl plaintext-Bytes
      (omega arith)
