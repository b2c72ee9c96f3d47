-- ===== src/Tests.antt =====
-- Concrete inputs for the properties: stand-ins for the digest and the block ciphers that satisfy
-- their laws.
pub mod Reassembly
pub mod Wire
pub mod Packets
pub mod Ciphers
pub mod Routing
pub mod Sessions
pub mod Handshakes
pub mod Names
use openiwan.Prelude.{ℕ, ◌≡◌, refl, List, replicate, length-replicate, arith}
use openiwan.Crypto.Primitives.{Primitives, IsLawful}
use openiwan.Crypto.Aes.{replicate-Bytes}

-- A constant digest, and ciphers that return the block.
abbrev pub plain : Primitives
plain = record {
  md5 = λ message. replicate 16 0;
  aes128_encrypt = λ key block. block;
  aes128_decrypt = λ key block. block;
  aes256_encrypt = λ key block. block;
  aes256_decrypt = λ key block. block;
}

pub plain-IsLawful : IsLawful plain
plain-IsLawful = record {
  md5_block = λ message. (length-replicate {A = ℕ} 16 0, replicate-Bytes 16);
  aes128_block = λ key block k b. b;
  aes128_inverse = λ key block k b. refl;
  aes256_block = λ key block k b. b;
  aes256_inverse = λ key block k b. refl;
}
