-- ===== src/Crypto/Aes.antt =====
-- src/crypto.rs: `AesCipher`, and the walk over blocks that src/sr.rs shares.
use openiwan.Prelude.{
  ℕ, zero, suc, ◌+◌, ◌-◌, ◌*◌, ◌/◌, ◌%◌, ◌≤◌, ◌<◌, ◌≡◌, refl, ap, ap₂, sym, ◌∙◌, List, [], ◌∷◌,
  ◌++◌, length, take, drop, replicate, length-append, length-take, length-drop, length-replicate,
  take-append, drop-append, take-append-drop, All-take, All-drop, All-append, arith,
}
use openiwan.Prelude.Words.{Bytes, IsByte}
use openiwan.Error.{ok}
use openiwan.Crypto.Primitives.{Primitives, IsLawful, IsBlock}
use openiwan.Crypto.Cipher.{
  map_blocks, crypt_blocks, padded_len, zero_pad, aes_encrypt, aes_decrypt, aes_cipher,
}

pub replicate-Bytes : (n : ℕ) → Bytes (replicate n 0)
replicate-Bytes zero = tt
replicate-Bytes (suc n) = (omega arith, replicate-Bytes n)

first-IsBlock :
    (n : ℕ) (bytes : List ℕ) → length bytes ≡ suc n * 16 → Bytes bytes → IsBlock (take 16 bytes)
first-IsBlock n bytes h b = (omega (arith, length-take 16 bytes), All-take IsByte 16 bytes b)

-- A block cipher and its inverse, walked over whole blocks.
module _ (f g : List ℕ → List ℕ) (keeps : (block : List ℕ) → IsBlock block → IsBlock (f block))
    (inverse : (block : List ℕ) → IsBlock block → g (f block) ≡ block) where
  map_blocks_shape :
      (n : ℕ) (bytes : List ℕ)
      → length bytes ≡ n * 16
      → Bytes bytes
      → (length (map_blocks f n bytes) ≡ n * 16) × Bytes (map_blocks f n bytes)
  unfolding map_blocks
  map_blocks_shape zero bytes h b = (h, b)
  map_blocks_shape (suc n) bytes h b =
      let block = keeps (take 16 bytes) (first-IsBlock n bytes h b) in
      let rest =
        map_blocks_shape n (drop 16 bytes) (omega (arith, length-drop 16 bytes))
          (All-drop IsByte 16 bytes b) in
      (
        omega (
          arith,
          length-append (f (take 16 bytes)) (map_blocks f n (drop 16 bytes)),
          block.0,
          rest.0,
        ),
        All-append IsByte _ _ block.1 rest.1,
      )

  map_blocks_inverse :
      (n : ℕ) (bytes : List ℕ)
      → length bytes ≡ n * 16
      → Bytes bytes
      → map_blocks g n (map_blocks f n bytes) ≡ bytes
  unfolding map_blocks
  map_blocks_inverse zero bytes h b = refl
  map_blocks_inverse (suc n) bytes h b =
      let first = first-IsBlock n bytes h b in
      let block = f (take 16 bytes) in
      let rest = map_blocks f n (drop 16 bytes) in
      let size = (keeps (take 16 bytes) first).0 in
      ap₂ ◌++◌ (ap g (take-append 16 block rest size) ∙ inverse (take 16 bytes) first) (
        ap (map_blocks g n) (drop-append 16 block rest size)
        ∙ map_blocks_inverse n (drop 16 bytes) (omega (arith, length-drop 16 bytes))
            (All-drop IsByte 16 bytes b))
      ∙ take-append-drop 16 bytes

  -- Over whole blocks of bytes the walk keeps the length and undoes itself.
  pub crypt_blocks_inverse :
      (bytes : List ℕ)
      → length bytes % 16 ≡ 0
      → Bytes bytes
      → (crypt_blocks g (crypt_blocks f bytes) ≡ bytes)
        × (length (crypt_blocks f bytes) ≡ length bytes)
        × Bytes (crypt_blocks f bytes)
  unfolding crypt_blocks
  crypt_blocks_inverse bytes h b =
      let whole : length bytes ≡ length bytes / 16 * 16 = omega arith in
      let shape = map_blocks_shape (length bytes / 16) bytes whole b in
      let same : length (map_blocks f (length bytes / 16) bytes) / 16 ≡ length bytes / 16 =
        omega (arith, shape.0) in
      (
        ap (λ (n : ℕ). map_blocks g n (map_blocks f (length bytes / 16) bytes)) same
            ∙ map_blocks_inverse (length bytes / 16) bytes whole b,
        shape.0 ∙ sym whole,
        shape.1,
      )

length-zero_pad :
    (plaintext : List ℕ)
    → (length (zero_pad plaintext) % 16 ≡ 0)
      × (length plaintext ≤ length (zero_pad plaintext))
      × (length (zero_pad plaintext) < length plaintext + 16)
unfolding zero_pad padded_len
length-zero_pad plaintext = omega (
  arith,
  length-append plaintext (replicate (padded_len (length plaintext) - length plaintext) 0),
  length-replicate {A = ℕ} (padded_len (length plaintext) - length plaintext) 0,
)

zero_pad-Bytes : (plaintext : List ℕ) → Bytes plaintext → Bytes (zero_pad plaintext)
unfolding zero_pad
zero_pad-Bytes plaintext b = All-append IsByte plaintext _ b (replicate-Bytes _)

aes_encrypt-crypt_blocks :
    (p : Primitives) (key plaintext : List ℕ)
    → aes_encrypt p key plaintext ≡ ok (crypt_blocks (p.aes128_encrypt key) (zero_pad plaintext))
unfolding aes_encrypt
aes_encrypt-crypt_blocks p key [] = unfold zero_pad padded_len crypt_blocks map_blocks in refl
aes_encrypt-crypt_blocks p key (b ∷ bs) = ground arith

aes_decrypt-crypt_blocks :
    (p : Primitives) (key c : List ℕ)
    → length c % 16 ≡ 0
    → aes_decrypt p key c ≡ ok (crypt_blocks (p.aes128_decrypt key) c)
unfolding aes_decrypt
aes_decrypt-crypt_blocks p key c h = rw h

zero_pad_to :
    (plaintext : List ℕ) (n : ℕ)
    → n ≡ length (zero_pad plaintext)
    → zero_pad plaintext ≡ plaintext ++ replicate (n - length plaintext) 0
unfolding zero_pad
zero_pad_to plaintext n h =
    let zeros = padded_len (length plaintext) - length plaintext in
    let e : zeros ≡ n - length plaintext =
      omega
        (arith, h, length-append plaintext (replicate zeros 0), length-replicate {A = ℕ} zeros 0) in
    ap (λ (k : ℕ). plaintext ++ replicate k 0) e

-- Under the block cipher's laws and with a key of 16 bytes the AES cipher encrypts every byte
-- string; the result has a whole number of blocks, less than one block longer than the plaintext,
-- and decrypts to the plaintext with zeros up to that length behind it.
pub aes_cipher-round_trip :
    (p : Primitives)
    → IsLawful p
    → (key plaintext : List ℕ) → length key ≡ 16
    → Bytes plaintext
    → (c : List ℕ) × ((aes_cipher p key).encrypt plaintext ≡ ok c)
      × ((aes_cipher p key).decrypt c ≡ ok (plaintext ++ replicate (length c - length plaintext) 0))
      × (length c % 16 ≡ 0)
      × (length plaintext ≤ length c)
      × (length c < length plaintext + 16)
      × Bytes c
unfolding aes_cipher
aes_cipher-round_trip p lawful key plaintext hk b =
    let padded = zero_pad plaintext in
    let size = length-zero_pad plaintext in
    let (back, same, bytes) =
      crypt_blocks_inverse (p.aes128_encrypt key) (p.aes128_decrypt key)
        (λ block h. lawful.aes128_block key block hk h)
        (λ block h. lawful.aes128_inverse key block hk h) padded size.0
        (zero_pad-Bytes plaintext b) in
    let c = crypt_blocks (p.aes128_encrypt key) padded in
    (
      c,
      aes_encrypt-crypt_blocks p key plaintext,
      aes_decrypt-crypt_blocks p key c (omega (arith, same, size))
          ∙ ap ok (back ∙ zero_pad_to plaintext (length c) same),
      omega (arith, same, size),
      omega (arith, same, size),
      omega (arith, same, size),
      bytes,
    )
