-- ===== src/Prelude/Bits.antt =====
-- The native bit operations at variables: one equation for the lowest digit, then the masks,
-- fields and exclusive or that the wire formats use.
use Prim.Native.Nat.{
  ℕ, zero, suc, ◌+◌, ◌-◌, ◌*◌, ◌/◌, ◌%◌, ◌^◌, ◌≤◌, ◌<◌, min, max, bit_and, bit_or, bit_xor, bitwise,
  digits, bit_and-bitwise, bit_or-bitwise, bit_xor-bitwise, differ,
}
use mathlib.Core.Path.{◌≡◌, refl, sym, ap, ap₂, ◌∙◌}
use native.Mathlib.Nat.{le_refl, pow-suc, one-le-pow}
use native.Mathlib.Omega.{arith}

module _ (z : ℕ → ℕ) (f : ℕ → ℕ → ℕ) where
  enough_fuel : (n m a b : ℕ) → a ≤ n → a ≤ m → digits z f n a b ≡ digits z f m a b
  enough_fuel zero zero a b p q = refl
  enough_fuel zero (suc m) zero b p q = refl
  enough_fuel zero (suc m) (suc a) b p q = absurd (omega arith)
  enough_fuel (suc n) zero zero b p q = refl
  enough_fuel (suc n) zero (suc a) b p q = absurd (omega arith)
  enough_fuel (suc n) (suc m) zero b p q = refl
  enough_fuel (suc n) (suc m) (suc a) b p q =
      ap (λ (t : ℕ). t * 2 + f (suc a % 2) (b % 2))
        (enough_fuel n m (suc a / 2) (b / 2) (omega arith) (omega arith))

  lowest_digit :
      (x y : ℕ)
      → bitwise z f (suc x) y ≡ bitwise z f (suc x / 2) (y / 2) * 2 + f (suc x % 2) (y % 2)
  lowest_digit x y =
      ap (λ (high : ℕ). high * 2 + f (suc x % 2) (y % 2))
        (enough_fuel x (suc x / 2) (suc x / 2) (y / 2) (omega arith) (le_refl _))

bit_and_digit : (a b : ℕ) → bit_and a b ≡ bit_and (a / 2) (b / 2) * 2 + min (a % 2) (b % 2)
bit_and_digit zero b = simp bit_and-bitwise (omega arith)
bit_and_digit (suc a) b = simp bit_and-bitwise (lowest_digit (λ y. 0) min a b)

bit_or_digit : (a b : ℕ) → bit_or a b ≡ bit_or (a / 2) (b / 2) * 2 + max (a % 2) (b % 2)
bit_or_digit zero b = simp bit_or-bitwise (omega arith)
bit_or_digit (suc a) b = simp bit_or-bitwise (lowest_digit (λ y. y) max a b)

bit_xor_digit : (a b : ℕ) → bit_xor a b ≡ bit_xor (a / 2) (b / 2) * 2 + differ (a % 2) (b % 2)
bit_xor_digit zero b = simp bit_xor-bitwise (omega arith)
bit_xor_digit (suc a) b = simp bit_xor-bitwise (lowest_digit (λ y. y) differ a b)

double : (q k : ℕ) → q * 2 ^ suc k ≡ q * 2 ^ k * 2
double q k = omega (arith, ap (λ (t : ℕ). q * t) (pow-suc 2 k))

bit_or-zero_below : (x bound : ℕ) → x ≤ bound → bit_or x 0 ≡ x
bit_or-zero_below zero bound below = refl
bit_or-zero_below (suc x) zero below = absurd (omega arith)
bit_or-zero_below (suc x) (suc bound) below =
    omega (arith, bit_or_digit (suc x) 0, bit_or-zero_below (suc x / 2) bound (omega arith))

pub bit_or-zero : (a : ℕ) → bit_or a 0 ≡ a
bit_or-zero a = bit_or-zero_below a a (le_refl a)

-- `hi | lo` and `lo | hi` where `lo` fits below the `k` bits that `hi` leaves free.
pub bit_or_low : (k q r : ℕ) → r < 2 ^ k → bit_or (q * 2 ^ k) r ≡ q * 2 ^ k + r
bit_or_low zero q zero h = omega (arith, bit_or-zero (q * 1))
bit_or_low zero q (suc r) h = absurd (omega arith)
bit_or_low (suc k) q r h = omega (
  arith,
  bit_or_digit (q * 2 ^ suc k) r,
  double q k,
  pow-suc 2 k,
  ap (λ (t : ℕ). bit_or t (r / 2)) half,
  bit_or_low k q (r / 2) (omega (arith, pow-suc 2 k)),
)
  where
    half : q * 2 ^ suc k / 2 ≡ q * 2 ^ k
    half = omega (arith, double q k)

pub bit_or_high : (k r q : ℕ) → r < 2 ^ k → bit_or r (q * 2 ^ k) ≡ r + q * 2 ^ k
bit_or_high zero zero q h = simp bit_or-bitwise (omega arith)
bit_or_high zero (suc r) q h = absurd (omega arith)
bit_or_high (suc k) r q h = omega (
  arith,
  bit_or_digit r (q * 2 ^ suc k),
  double q k,
  pow-suc 2 k,
  ap (λ (t : ℕ). bit_or (r / 2) t) half,
  bit_or_high k (r / 2) q (omega (arith, pow-suc 2 k)),
)
  where
    half : q * 2 ^ suc k / 2 ≡ q * 2 ^ k
    half = omega (arith, double q k)

bit_and-zero_below : (x bound : ℕ) → x ≤ bound → bit_and x 0 ≡ 0
bit_and-zero_below zero bound below = refl
bit_and-zero_below (suc x) zero below = absurd (omega arith)
bit_and-zero_below (suc x) (suc bound) below =
    omega (arith, bit_and_digit (suc x) 0, bit_and-zero_below (suc x / 2) bound (omega arith))

-- A number cut at bit `k`: `&` with the `k` low bits keeps the low part, and `&` with a mask that
-- starts at bit `k` works on the high part.
pub bit_and_low_part : (k q r : ℕ) → r < 2 ^ k → bit_and (q * 2 ^ k + r) (2 ^ k - 1) ≡ r
bit_and_low_part zero q r h =
    omega (arith, bit_and-zero_below (q * 1 + r) (q * 1 + r) (le_refl (q * 1 + r)))
bit_and_low_part (suc k) q r h = omega (
  arith,
  bit_and_digit (q * 2 ^ suc k + r) (2 ^ suc k - 1),
  double q k,
  pow-suc 2 k,
  one-le-pow k 2 (omega arith),
  ap₂ bit_and half_value half_mask,
  bit_and_low_part k q (r / 2) (omega (arith, pow-suc 2 k)),
)
  where
    half_mask : (2 ^ suc k - 1) / 2 ≡ 2 ^ k - 1
    half_mask = omega (arith, pow-suc 2 k)

    half_value : (q * 2 ^ suc k + r) / 2 ≡ q * 2 ^ k + r / 2
    half_value = omega (arith, double q k)

pub bit_and_high_part :
    (k q r m : ℕ) → r < 2 ^ k → bit_and (q * 2 ^ k + r) (m * 2 ^ k) ≡ bit_and q m * 2 ^ k
bit_and_high_part zero q r m h =
    let e : q * 1 + r ≡ q = omega arith in
    let e' : m * 1 ≡ m = omega arith in ap₂ bit_and e e' ∙ omega arith
bit_and_high_part (suc k) q r m h = omega (
  arith,
  bit_and_digit (q * 2 ^ suc k + r) (m * 2 ^ suc k),
  double q k,
  double m k,
  double (bit_and q m) k,
  pow-suc 2 k,
  ap₂ bit_and half_value half_mask,
  bit_and_high_part k q (r / 2) m (omega (arith, pow-suc 2 k)),
)
  where
    half_mask : m * 2 ^ suc k / 2 ≡ m * 2 ^ k
    half_mask = omega (arith, double m k)

    half_value : (q * 2 ^ suc k + r) / 2 ≡ q * 2 ^ k + r / 2
    half_value = omega (arith, double q k)

differ_bit : (a b : ℕ) → a < 2 → b < 2 → (differ (differ a b) b ≡ a) × (differ a b < 2)
differ_bit zero zero h k = omega arith
differ_bit zero (suc zero) h k = omega arith
differ_bit (suc zero) zero h k = omega arith
differ_bit (suc zero) (suc zero) h k = omega arith
differ_bit (suc (suc a)) b h k = absurd (omega arith)
differ_bit zero (suc (suc b)) h k = absurd (omega arith)
differ_bit (suc zero) (suc (suc b)) h k = absurd (omega arith)

-- Applying the same key twice gives the value back.
bit_xor_cancel_fuel : (n a b : ℕ) → a ≤ n → b ≤ n → bit_xor (bit_xor a b) b ≡ a
bit_xor_cancel_fuel zero zero zero h k = refl
bit_xor_cancel_fuel zero zero (suc b) h k = absurd (omega arith)
bit_xor_cancel_fuel zero (suc a) b h k = absurd (omega arith)
bit_xor_cancel_fuel (suc n) a b h k = omega (
  arith,
  bit_xor_digit a b,
  bit_xor_digit (bit_xor a b) b,
  low,
  low_bit.0,
  low_bit.1,
  ap (λ (t : ℕ). bit_xor t (b / 2)) half,
  bit_xor_cancel_fuel n (a / 2) (b / 2) (omega arith) (omega arith),
)
  where
    low_bit : (differ (differ (a % 2) (b % 2)) (b % 2) ≡ a % 2) × (differ (a % 2) (b % 2) < 2)
    low_bit = differ_bit (a % 2) (b % 2) (omega arith) (omega arith)

    half : bit_xor a b / 2 ≡ bit_xor (a / 2) (b / 2)
    half = omega (arith, bit_xor_digit a b, low_bit.1)

    low : differ (bit_xor a b % 2) (b % 2) ≡ a % 2
    low =
        let e : bit_xor a b % 2 ≡ differ (a % 2) (b % 2) =
          omega (arith, bit_xor_digit a b, low_bit.1) in
        ap (λ (t : ℕ). differ t (b % 2)) e ∙ low_bit.0

pub bit_xor_cancel : (a b : ℕ) → bit_xor (bit_xor a b) b ≡ a
bit_xor_cancel a b = bit_xor_cancel_fuel (a + b) a b (omega arith) (omega arith)

pub bit_xor_bound : (k a b : ℕ) → a < 2 ^ k → b < 2 ^ k → bit_xor a b < 2 ^ k
bit_xor_bound zero zero zero h l = omega arith
bit_xor_bound zero zero (suc b) h l = absurd (omega arith)
bit_xor_bound zero (suc a) b h l = absurd (omega arith)
bit_xor_bound (suc k) a b h l = omega (
  arith,
  pow-suc 2 k,
  bit_xor_digit a b,
  (differ_bit (a % 2) (b % 2) (omega arith) (omega arith)).1,
  bit_xor_bound k (a / 2) (b / 2) (omega (arith, pow-suc 2 k)) (omega (arith, pow-suc 2 k)),
)

-- `|` of two values below bit `k` leaves what stands above it.
pub bit_or_split :
    (k q r b : ℕ) → r < 2 ^ k → b < 2 ^ k → bit_or (q * 2 ^ k + r) b ≡ q * 2 ^ k + bit_or r b
bit_or_split zero q zero zero h l =
    let e : q * 1 + 0 ≡ q = omega arith in ap (λ (t : ℕ). bit_or t 0) e ∙ bit_or-zero q ∙ sym e
bit_or_split zero q (suc r) b h l = absurd (omega arith)
bit_or_split zero q zero (suc b) h l = absurd (omega arith)
bit_or_split (suc k) q r b h l = omega (
  arith,
  bit_or_digit (q * 2 ^ suc k + r) b,
  bit_or_digit r b,
  double q k,
  pow-suc 2 k,
  ap (λ (t : ℕ). bit_or t (b / 2)) half_value,
  bit_or_split k q (r / 2) (b / 2) (omega (arith, pow-suc 2 k)) (omega (arith, pow-suc 2 k)),
)
  where
    half_value : (q * 2 ^ suc k + r) / 2 ≡ q * 2 ^ k + r / 2
    half_value = omega (arith, double q k)
