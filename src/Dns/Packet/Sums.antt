-- ===== src/Dns/Packet/Sums.antt =====
-- src/dns/packet.rs: the sums of `add_bytes` and `finish_checksum`, and what they are meant to be.
use openiwan.Prelude.{
  ℕ, zero, suc, ◌+◌, ◌-◌, ◌*◌, ◌/◌, ◌%◌, ◌^◌, ◌≤◌, ◌<◌, ◌≡◌, refl, ap, ◌∙◌, leb, ◌==◌, Bool-cases,
  ◌≢◌, sym, inl, inr, Bool, true, false, List, [], ◌∷◌, length, arith,
}
use openiwan.Prelude.Words.{Bytes, from_be, from_be-u16, u16_to_be}
use openiwan.Dns.Packet.{fold, finish_checksum, add_bytes, zeros}

abbrev folded : ℕ → ℕ
folded sum = sum % 2 ^ 16 + sum / 2 ^ 16

folded_same : (sum : ℕ) → folded sum % 65535 ≡ sum % 65535
folded_same sum = omega arith

fold_small : (fuel sum : ℕ) → sum < 65536 → fold fuel sum ≡ sum
unfolding fold
fold_small zero sum h = refl
fold_small (suc fuel) sum h = let e : sum / 65536 ≡ 0 = omega arith in rw e

fold_large : (fuel sum : ℕ) → 65536 ≤ sum → fold (suc fuel) sum ≡ fold fuel (folded sum)
unfolding fold
fold_large fuel sum h = ground arith

abbrev Folds : ℕ → ℕ → Type 0
Folds fuel sum = (fold fuel sum < 65536) × (fold fuel sum % 65535 ≡ sum % 65535)

small-Folds : (fuel sum : ℕ) → sum < 65536 → Folds fuel sum
small-Folds fuel sum h =
    let e = fold_small fuel sum h in (omega (arith, e), ap (λ (n : ℕ). n % 65535) e)

step-Folds : (fuel sum : ℕ) → (65536 ≤ sum → Folds fuel (folded sum)) → Folds (suc fuel) sum
step-Folds fuel sum next = elim (Bool-cases (leb 65536 sum)) [
  | inl large ↦
      let big : 65536 ≤ sum = ground arith in
      let (word, same) = next big in
      let e = fold_large fuel sum big in
      (omega (arith, e, word), ap (λ (n : ℕ). n % 65535) e ∙ same ∙ folded_same sum)
  | inr small ↦ small-Folds (suc fuel) sum (ground arith)
]

-- The folded sum is a word, with the same remainder.
fold_word : (sum : ℕ) → sum < 2 ^ 32 → Folds 3 sum
fold_word sum h = step-Folds 2 sum (λ large.
    step-Folds 1 (folded sum)
      (λ larger. small-Folds 1 (folded (folded sum)) (omega (arith, h, large, larger))))

-- The sum of the 16-bit words of a byte list, byte by byte: one at an even place is the high half of
-- its word, one at an odd place the low half, and a word without a low half has zero there.
unfoldable pub word_sum : Bool → List ℕ → ℕ
word_sum even [] = 0
word_sum true (byte ∷ bytes) = 256 * byte + word_sum false bytes
word_sum false (byte ∷ bytes) = byte + word_sum true bytes

pub add_bytes_lem : (s : ℕ) (bytes : List ℕ) → add_bytes s bytes ≡ s + word_sum true bytes
unfolding add_bytes word_sum
add_bytes_lem s [] = omega arith
add_bytes_lem s (a ∷ []) = omega arith
add_bytes_lem s (a ∷ (b ∷ bytes)) = omega (arith, add_bytes_lem (s + (a * 256 + b)) bytes)

pub word_sum_lem : (bytes : List ℕ) → word_sum true bytes ≡ add_bytes 0 bytes
word_sum_lem bytes = omega (arith, add_bytes_lem 0 bytes)

-- The complement of a sum makes it a multiple of 65535.
pub finish_checksum_sum :
    (sum : ℕ)
    → sum < 2 ^ 32
    → (finish_checksum sum < 2 ^ 16) × ((sum + finish_checksum sum) % 65535 ≡ 0)
unfolding finish_checksum
finish_checksum_sum sum h =
    let (word, same) = fold_word sum h in
    elim (Bool-cases (0xffff - fold 3 sum % 65536 == 0)) [
      | inl none_left ↦
          let full : fold 3 sum ≡ 65535 = ground (arith, word) in
          rw none_left (omega arith, omega (arith, full, same))
      | inr some_left ↦ rw some_left (omega (arith, word), omega (arith, word, same))
    ]

pub add_bytes_shift : (c s : ℕ) (bytes : List ℕ) → add_bytes (s + c) bytes ≡ add_bytes s bytes + c
add_bytes_shift c s bytes = omega (arith, add_bytes_lem (s + c) bytes, add_bytes_lem s bytes)

pub add_bytes_bound :
    (s : ℕ) (bytes : List ℕ) → Bytes bytes → add_bytes s bytes ≤ s + 65536 * length bytes
unfolding add_bytes
add_bytes_bound s [] h = omega arith
add_bytes_bound s (a ∷ []) h = omega (arith, h.0)
add_bytes_bound s (a ∷ (b ∷ bytes)) h =
    let (ha, (hb, rest)) = h in
    omega (arith, ha, hb, add_bytes_bound (s + (a * 256 + b)) bytes rest)

finish_checksum-ne-zero : (sum : ℕ) → finish_checksum sum ≢ 0
unfolding finish_checksum
finish_checksum-ne-zero sum = ground arith

-- A checksum's bytes are not both zero.
pub checksum_bytes :
    (sum : ℕ) → finish_checksum sum < 2 ^ 16 → u16_to_be (finish_checksum sum) ≢ zeros
unfolding from_be
checksum_bytes sum h e =
    finish_checksum-ne-zero sum (sym (from_be-u16 (finish_checksum sum) h) ∙ ap from_be e)
