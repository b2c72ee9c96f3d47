-- ===== src/Crypto/Primitives.antt =====
-- The crates `md5` and `aes`, which src/crypto.rs and src/sr.rs call: a digest, and block ciphers
-- that take a key and a block. `IsLawful` is what their documentation promises.
use openiwan.Prelude.{ℕ, ◌≡◌, List, length}
use openiwan.Prelude.Words.{Bytes}

abbrev pub key_len : ℕ
key_len = 16

abbrev pub block_len : ℕ
block_len = 16

pub record Primitives : Type 0 where
  pub md5 : List ℕ → List ℕ
  pub aes128_encrypt : List ℕ → List ℕ → List ℕ
  pub aes128_decrypt : List ℕ → List ℕ → List ℕ
  pub aes256_encrypt : List ℕ → List ℕ → List ℕ
  pub aes256_decrypt : List ℕ → List ℕ → List ℕ

-- A block of 16 bytes.
abbrev pub IsBlock : List ℕ → Type 0
IsBlock block = (length block ≡ 16) × Bytes block

pub record IsLawful (p : Primitives) : Type 0 where
  pub md5_block : (message : List ℕ) → IsBlock (p.md5 message)
  pub aes128_block :
      (key block : List ℕ) → length key ≡ 16 → IsBlock block → IsBlock (p.aes128_encrypt key block)
  pub aes128_inverse :
      (key block : List ℕ)
      → length key ≡ 16
      → IsBlock block
      → p.aes128_decrypt key (p.aes128_encrypt key block) ≡ block
  pub aes256_block :
      (key block : List ℕ) → length key ≡ 32 → IsBlock block → IsBlock (p.aes256_encrypt key block)
  pub aes256_inverse :
      (key block : List ℕ)
      → length key ≡ 32
      → IsBlock block
      → p.aes256_decrypt key (p.aes256_encrypt key block) ≡ block
