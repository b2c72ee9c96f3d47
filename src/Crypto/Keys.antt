-- ===== src/Crypto/Keys.antt =====
-- src/crypto.rs: Java's US-ASCII bytes, the two derived keys and the encrypted password field. A
-- `&str` is the list of its Unicode scalar values.
use openiwan.Prelude.{
  ℕ, ◌<◌, ◌-◌, min, ltb, if◌then◌else◌, ◌≡◌, List, [], ◌∷◌, ◌++◌, map, length, take, replicate,
  length-map, arith,
}
use openiwan.Prelude.Words.{Bytes}
use openiwan.Crypto.Primitives.{Primitives, IsLawful, block_len}

-- `character.is_ascii()` keeps the character, any other becomes one `?`.
unfoldable pub ascii_byte : ℕ → ℕ
ascii_byte character = if ltb character 128 then character else b'?'

unfoldable pub java_us_ascii : List ℕ → List ℕ
unfolding ascii_byte
java_us_ascii value = map ascii_byte value

module _ (p : Primitives) where
  pub derive_session_key : List ℕ → List ℕ → List ℕ
  derive_session_key username password = p.md5 (java_us_ascii username ++ java_us_ascii password)

  pub derive_password_key : List ℕ → List ℕ
  derive_password_key username = p.md5 (b'm' ∷ b'w' ∷ java_us_ascii username)

-- `block[..copy_len].copy_from_slice(&password_bytes[..copy_len])` over a zeroed block.
unfoldable pub padded_password : List ℕ → List ℕ
padded_password password =
    let bytes = java_us_ascii password in
    let copy_len = min (length bytes) block_len in
    take copy_len bytes ++ replicate (block_len - copy_len) 0

module _ (p : Primitives) where
  unfoldable pub encrypt_password : List ℕ → List ℕ → List ℕ
  encrypt_password password username =
      p.aes128_encrypt (derive_password_key p username) (padded_password password)

ascii_byte-IsByte : (c : ℕ) → ascii_byte c < 128
unfolding ascii_byte
ascii_byte-IsByte c = ground arith

pub java_us_ascii-Bytes : (value : List ℕ) → Bytes (java_us_ascii value)
unfolding java_us_ascii
java_us_ascii-Bytes [] = tt
java_us_ascii-Bytes (c ∷ cs) = (omega (arith, ascii_byte-IsByte c), java_us_ascii-Bytes cs)

pub length-java_us_ascii : (value : List ℕ) → length (java_us_ascii value) ≡ length value
unfolding java_us_ascii
length-java_us_ascii value = length-map ascii_byte value

pub length-derive_password_key :
    (p : Primitives)
    → IsLawful p
    → (username : List ℕ) → length (derive_password_key p username) ≡ 16
unfolding derive_password_key
length-derive_password_key p lawful username = (lawful.md5_block _).0

pub length-derive_session_key :
    (p : Primitives)
    → IsLawful p
    → (username password : List ℕ) → length (derive_session_key p username password) ≡ 16
unfolding derive_session_key
length-derive_session_key p lawful username password = (lawful.md5_block _).0

pub derive_session_key-Bytes :
    (p : Primitives)
    → IsLawful p
    → (username password : List ℕ) → Bytes (derive_session_key p username password)
unfolding derive_session_key
derive_session_key-Bytes p lawful username password = (lawful.md5_block _).1
