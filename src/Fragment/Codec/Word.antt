-- ===== src/Fragment/Codec/Word.antt =====
-- src/fragment.rs: the packed word of the fragment prefix as arithmetic: bit 0 is the end of the
-- packet, bit 1 the direction, then 13 bits of offset and 11 bits of length.
use openiwan.Prelude.{
  ℕ, ◌+◌, ◌-◌, ◌*◌, ◌/◌, ◌%◌, ◌^◌, ◌<◌, bool_to_ℕ, bit_and, bit_or, Bool, true, false, ◌≡◌, ap, ◌∙◌,
  arith, length,
}
use openiwan.Prelude.Bits.{
  bit_or_low, bit_or_high, bit_or_split, bit_and_low_part, bit_and_high_part,
}
use openiwan.Fragment.Codec.{Fragment, pack}

pub low_mask :
    (k a : ℕ)
    → a % 2 ^ k < 2 ^ k
    → a ≡ a / 2 ^ k * 2 ^ k + a % 2 ^ k
    → bit_and a (2 ^ k - 1) ≡ a % 2 ^ k
low_mask k a h e =
    ap (λ (t : ℕ). bit_and t (2 ^ k - 1)) e ∙ bit_and_low_part k (a / 2 ^ k) (a % 2 ^ k) h

pub mask_1 : (a : ℕ) → bit_and a 1 ≡ a % 2
mask_1 a = low_mask 1 a (omega arith) (omega arith)

pub mask_13 : (a : ℕ) → bit_and a 0x1fff ≡ a % 2 ^ 13
mask_13 a = low_mask 13 a (omega arith) (omega arith)

pub mask_11 : (a : ℕ) → bit_and a 0x07ff ≡ a % 2 ^ 11
mask_11 a = low_mask 11 a (omega arith) (omega arith)

pub mask_second : (a : ℕ) → bit_and a 2 ≡ a / 2 % 2 * 2
mask_second a =
    let e : a ≡ a / 2 * 2 + a % 2 = omega arith in
    ap (λ (t : ℕ). bit_and t 2) e
    ∙ bit_and_high_part 1 (a / 2) (a % 2) 1 (omega arith)
    ∙ ap (λ (t : ℕ). t * 2) (mask_1 (a / 2))

pub mask_reserved : (a : ℕ) → a < 2 ^ 32 → bit_and a 0xfc00_0000 ≡ a / 2 ^ 26 * 2 ^ 26
mask_reserved a h =
    let e : a ≡ a / 2 ^ 26 * 2 ^ 26 + a % 2 ^ 26 = omega arith in
    let m : bit_and (a / 2 ^ 26) 63 ≡ a / 2 ^ 26 % 2 ^ 6 =
      low_mask 6 (a / 2 ^ 26) (omega arith) (omega arith) in
    let small : a / 2 ^ 26 % 2 ^ 6 ≡ a / 2 ^ 26 = omega arith in
    ap (λ (t : ℕ). bit_and t 0xfc00_0000) e
    ∙ bit_and_high_part 26 (a / 2 ^ 26) (a % 2 ^ 26) 63 (omega arith)
    ∙ ap (λ (t : ℕ). t * 2 ^ 26) (m ∙ small)

bool-lt : (b : Bool) → bool_to_ℕ b < 2
bool-lt true = omega arith
bool-lt false = omega arith

pub pack_value :
    (f : Fragment)
    → f.offset < 2 ^ 13
    → length f.payload < 2 ^ 11
    → pack f
      ≡ length f.payload * 2 ^ 15
        + f.offset * 2 ^ 2
        + bool_to_ℕ f.from_in * 2
        + bool_to_ℕ f.end_of_packet
unfolding pack
pack_value f ho hl =
    let o = f.offset in
    let l = length f.payload in
    let e = bool_to_ℕ f.end_of_packet in
    let d = bool_to_ℕ f.from_in in
    let he = bool-lt f.end_of_packet in
    let hd = bool-lt f.from_in in
    let q = o + l * 2 ^ 13 in
    let fields : o * 2 ^ 2 + l * 2 ^ 15 ≡ q * 2 ^ 2 = omega arith in
    ap (λ (t : ℕ). bit_or (bit_or t e) (d * 2))
      (bit_or_high 15 (o * 2 ^ 2) l (omega arith) ∙ fields)
    ∙ ap (λ (t : ℕ). bit_or t (d * 2)) (bit_or_low 2 q e (omega (arith, he)))
    ∙ bit_or_split 2 q e (d * 2) (omega (arith, he)) (omega (arith, hd))
    ∙ ap (λ (t : ℕ). q * 2 ^ 2 + t) (bit_or_high 1 e d (omega (arith, he)))
    ∙ omega arith
