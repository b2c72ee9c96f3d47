-- ===== src/Crypto/Xor.antt =====
-- src/crypto.rs: `XorCipher`.
use openiwan.Prelude.{
  ℕ, suc, ◌+◌, ◌%◌, ◌≡◌, refl, ap, ap₂, ◌∙◌, bit_xor, List, [], ◌∷◌, length, get_or, take, arith,
  ◌<◌, All-take, zero,
}
use openiwan.Prelude.Bits.{bit_xor_cancel, bit_xor_bound}
use openiwan.Prelude.Words.{Bytes, IsByte}
use openiwan.Error.{ok}
use openiwan.Crypto.Cipher.{xor_from, xor_apply, xor_cipher}

xor_from_twice :
    (key : List ℕ) (i : ℕ) (input : List ℕ) → xor_from key i (xor_from key i input) ≡ input
unfolding xor_from
xor_from_twice key i [] = refl
xor_from_twice key i (b ∷ input) =
    ap₂ ◌∷◌ (bit_xor_cancel b (get_or key (i % 8) 0)) (xor_from_twice key (suc i) input)

get_or-IsByte : (xs : List ℕ) (i : ℕ) → Bytes xs → get_or xs i 0 < 256
get_or-IsByte [] i h = omega arith
get_or-IsByte (x ∷ xs) zero h = h.0
get_or-IsByte (x ∷ xs) (suc i) h = get_or-IsByte xs i h.1

length-xor_from :
    (key : List ℕ) (i : ℕ) (input : List ℕ) → length (xor_from key i input) ≡ length input
unfolding xor_from
length-xor_from key i [] = refl
length-xor_from key i (b ∷ input) = ap suc (length-xor_from key (suc i) input)

xor_from-Bytes :
    (key : List ℕ) (i : ℕ) (input : List ℕ) → Bytes key → Bytes input → Bytes (xor_from key i input)
unfolding xor_from
xor_from-Bytes key i [] hk h = tt
xor_from-Bytes key i (b ∷ input) hk h = (
  bit_xor_bound 8 b (get_or key (i % 8) 0) h.0 (get_or-IsByte key (i % 8) hk),
  xor_from-Bytes key (suc i) input hk h.1,
)

-- Only the first eight bytes of the key matter, and they repeat: the output at `i` is the input
-- byte xor the key byte at `i % 8`.
get_or-xor_from :
    (key : List ℕ) (i : ℕ) (input : List ℕ) (j : ℕ)
    → j < length input
    → get_or (xor_from key i input) j 0 ≡ bit_xor (get_or input j 0) (get_or key ((i + j) % 8) 0)
unfolding xor_from
get_or-xor_from key i [] j h = absurd (omega arith)
get_or-xor_from key i (b ∷ input) zero h =
    let e : i ≡ i + zero = omega arith in ap (λ (k : ℕ). bit_xor b (get_or key (k % 8) 0)) e
get_or-xor_from key i (b ∷ input) (suc j) h =
    let e : suc i + j ≡ i + suc j = omega arith in
    get_or-xor_from key (suc i) input j (omega arith)
    ∙ ap (λ (k : ℕ). bit_xor (get_or input j 0) (get_or key (k % 8) 0)) e

-- Decrypting what the XOR cipher encrypted gives the plaintext back, whatever the key bytes; the
-- length stays, bytes stay bytes, and the byte at any `j` of the plaintext is encrypted to its xor
-- with the byte at `j % 8` of the first eight key bytes.
pub xor_cipher-round_trip :
    (key plaintext : List ℕ) (j : ℕ)
    → Bytes key
    → Bytes plaintext
    → j < length plaintext
    → (c : List ℕ) × ((xor_cipher key).encrypt plaintext ≡ ok c)
      × ((xor_cipher key).decrypt c ≡ ok plaintext)
      × (length c ≡ length plaintext)
      × Bytes c
      × (get_or c j 0 ≡ bit_xor (get_or plaintext j 0) (get_or (take 8 key) (j % 8) 0))
unfolding xor_cipher xor_apply
xor_cipher-round_trip key plaintext j hk hp h = (
  xor_from (take 8 key) 0 plaintext,
  refl,
  ap ok (xor_from_twice (take 8 key) 0 plaintext),
  length-xor_from (take 8 key) 0 plaintext,
  xor_from-Bytes (take 8 key) 0 plaintext (All-take IsByte 8 key hk) hp,
  let e : 0 + j ≡ j = omega arith in
      get_or-xor_from (take 8 key) 0 plaintext j h
      ∙ ap (λ (k : ℕ). bit_xor (get_or plaintext j 0) (get_or (take 8 key) (k % 8) 0)) e,
)
