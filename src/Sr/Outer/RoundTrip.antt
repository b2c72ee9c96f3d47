-- ===== src/Sr/Outer/RoundTrip.antt =====
-- src/sr.rs: `SrOuterCipher::decrypt` against `encrypt`.
use openiwan.Prelude.{
  ℕ, ◌+◌, ◌-◌, ◌%◌, ◌≤◌, ◌<◌, ◌≡◌, refl, ap, ap₂, sym, ◌∙◌, List, ◌++◌, length, take, replicate,
  false, length-append, length-replicate, length-take, take-append, All-append, arith,
}
use openiwan.Prelude.Words.{Bytes, IsByte}
use openiwan.Error.{ok}
use openiwan.Crypto.Primitives.{Primitives, IsLawful}
use openiwan.Crypto.Aes.{crypt_blocks_inverse, replicate-Bytes}
use openiwan.Sr.Header.{SrEncryptionAlgorithm, no_outer, aes128, aes256, is_no_outer}
use openiwan.Sr.Outer.{
  SrOuterCipher, required, new, padding_of, encrypt_blocks, decrypt_blocks, encrypt, decrypt,
}

new_parts :
    (a : SrEncryptionAlgorithm) (raw : List ℕ) (c : SrOuterCipher)
    → new a raw ≡ ok c
    → (required a ≤ length raw) × (c.key ≡ take (required a) raw ++ replicate (32 - required a) 0)
unfolding new
new_parts a raw c e = ground arith

required-le : (a : SrEncryptionAlgorithm) → required a ≤ 32
unfolding required
required-le no_outer = omega arith
required-le _ = omega arith

-- A cipher that `new` can make has a key of 32 bytes.
pub length-key :
    (a : SrEncryptionAlgorithm) (raw : List ℕ) (c : SrOuterCipher)
    → new a raw ≡ ok c
    → length c.key ≡ 32
length-key a raw c e =
    let (enough, shape) = new_parts a raw c e in
    omega (
      arith,
      ap length shape,
      length-append (take (required a) raw) (replicate (32 - required a) 0),
      length-take (required a) raw,
      length-replicate {A = ℕ} (32 - required a) 0,
      required-le a,
      enough,
    )

module _ (p : Primitives) (lawful : IsLawful p) where
  blocks_inverse :
      (a : SrEncryptionAlgorithm) (key bytes : List ℕ)
      → length key ≡ 32
      → length bytes % 16 ≡ 0
      → Bytes bytes
      → (decrypt_blocks p a key (encrypt_blocks p a key bytes) ≡ bytes)
        × (length (encrypt_blocks p a key bytes) ≡ length bytes)
        × Bytes (encrypt_blocks p a key bytes)
  unfolding decrypt_blocks encrypt_blocks
  blocks_inverse no_outer key bytes hk h b = (refl, refl, b)
  blocks_inverse aes128 key bytes hk h b =
      let short : length (take 16 key) ≡ 16 = omega (arith, length-take 16 key, hk) in
      crypt_blocks_inverse (p.aes128_encrypt (take 16 key)) (p.aes128_decrypt (take 16 key))
        (λ block w. lawful.aes128_block (take 16 key) block short w)
        (λ block w. lawful.aes128_inverse (take 16 key) block short w) bytes h b
  blocks_inverse aes256 key bytes hk h b =
      crypt_blocks_inverse (p.aes256_encrypt key) (p.aes256_decrypt key)
        (λ block w. lawful.aes256_block key block hk w)
        (λ block w. lawful.aes256_inverse key block hk w) bytes h b

  abbrev Reads : SrEncryptionAlgorithm → List ℕ → List ℕ → Type 0
  Reads a key plaintext =
      (out : List ℕ) × (padding : ℕ) × (encrypt p (record { algorithm = a; key = key }) plaintext
        ≡ ok (out, padding))
      × (decrypt p (record { algorithm = a; key = key }) out padding ≡ ok plaintext)
      × (padding < 16)
      × (length out ≡ length plaintext + padding)
      × Bytes out

  decrypt_from :
      (a : SrEncryptionAlgorithm) (key out plaintext zeros : List ℕ)
      → is_no_outer a ≡ false
      → length out % 16 ≡ 0
      → length out ≡ length plaintext + length zeros
      → 1 ≤ length plaintext
      → decrypt_blocks p a key out ≡ plaintext ++ zeros
      → decrypt p (record { algorithm = a; key = key }) out (length zeros) ≡ ok plaintext
  unfolding decrypt
  decrypt_from a key out plaintext zeros coded whole size some back =
      let cut : length (decrypt_blocks p a key out) - length zeros ≡ length plaintext =
        omega (arith, ap length back, length-append plaintext zeros) in
      let kept : take (length (decrypt_blocks p a key out) - length zeros)
            (decrypt_blocks p a key out)
          ≡ plaintext =
        ap₂ take cut back ∙ take-append (length plaintext) plaintext zeros refl in
      ground (arith, kept)

  Reads-blocks :
      (a : SrEncryptionAlgorithm) (key plaintext : List ℕ)
      → is_no_outer a ≡ false
      → length key ≡ 32
      → Bytes plaintext
      → 1 ≤ length plaintext
      → Reads a key plaintext
  unfolding encrypt padding_of
  Reads-blocks a key plaintext coded hk bytes some =
      let pad = padding_of plaintext in
      let zeros = replicate {A = ℕ} pad 0 in
      let size = length-append plaintext zeros in
      let zero_count = length-replicate {A = ℕ} pad 0 in
      let (back, same, out_bytes) =
        blocks_inverse a key (plaintext ++ zeros) hk (omega (arith, size, zero_count))
          (All-append IsByte plaintext zeros bytes (replicate-Bytes pad)) in
      let out = encrypt_blocks p a key (plaintext ++ zeros) in
      (
        out,
        pad,
        rw coded,
        ap (decrypt p (record { algorithm = a; key = key }) out) (sym zero_count)
            ∙ decrypt_from a key out plaintext zeros coded (omega (arith, same, size, zero_count))
                (omega (arith, same, size)) some back,
        omega arith,
        omega (arith, same, size, zero_count),
        out_bytes,
      )

  reads :
      (a : SrEncryptionAlgorithm) (key plaintext : List ℕ)
      → length key ≡ 32
      → Bytes plaintext
      → 1 ≤ length plaintext
      → Reads a key plaintext
  unfolding encrypt decrypt is_no_outer
  reads no_outer key plaintext hk bytes some =
      (plaintext, 0, refl, refl, omega arith, omega arith, bytes)
  reads aes128 key plaintext hk bytes some = Reads-blocks aes128 key plaintext refl hk bytes some
  reads aes256 key plaintext hk bytes some = Reads-blocks aes256 key plaintext refl hk bytes some

  -- Under the laws of the block ciphers, a cipher made by `new` encrypts every non-empty byte
  -- string, with a padding below 16 by which the ciphertext is longer, and decrypts the result
  -- with that padding to the same bytes.
  pub decrypt-encrypt :
      (a : SrEncryptionAlgorithm) (raw : List ℕ) (c : SrOuterCipher) (plaintext : List ℕ)
      → new a raw ≡ ok c
      → Bytes plaintext
      → 1 ≤ length plaintext
      → (out : List ℕ) × (padding : ℕ) × (encrypt p c plaintext ≡ ok (out, padding))
        × (decrypt p c out padding ≡ ok plaintext)
        × (padding < 16)
        × (length out ≡ length plaintext + padding)
        × Bytes out
  decrypt-encrypt a raw c plaintext made bytes some =
      reads c.algorithm c.key plaintext (length-key a raw c made) bytes some
