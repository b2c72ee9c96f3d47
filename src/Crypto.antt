-- ===== src/Crypto.antt =====
-- src/crypto.rs: key derivation (Keys), the data ciphers (Cipher) and their laws (Xor, Aes). The
-- digest and the block ciphers are third-party code, taken as a parameter (Primitives).
pub mod Primitives
pub mod Keys
pub mod Cipher
pub mod Xor
pub mod Aes
