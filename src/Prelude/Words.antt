-- ===== src/Prelude/Words.antt =====
-- Machine words as bytes: `to_be_bytes`, `to_le_bytes`, `from_be_bytes` and `from_le_bytes` of
-- Rust's unsigned integers. A byte is a number below 256.
use openiwan.Prelude.Lists.{
  length, All, take, drop, slice, length-take, length-drop, All-take, All-drop,
}
use Prim.Native.Nat.{◌-◌, ℕ, zero, suc, ◌≤◌, ◌+◌, ◌*◌, ◌/◌, ◌%◌, ◌^◌, ◌<◌}
use mathlib.Core.Path.{◌≡◌, refl, sym, ap, ap₂, ◌∙◌}
use mathlib.Core.List.{List, [], ◌∷◌}
use native.Mathlib.Nat.{pow-suc}
use native.Mathlib.Omega.{arith}

abbrev pub IsByte : ℕ → Type 0
IsByte b = b < 256

abbrev pub IsU16 : ℕ → Type 0
IsU16 v = v < 2 ^ 16

abbrev pub IsU32 : ℕ → Type 0
IsU32 v = v < 2 ^ 32

abbrev pub IsU64 : ℕ → Type 0
IsU64 v = v < 2 ^ 64

abbrev pub Bytes : List ℕ → Type 0
Bytes xs = All IsByte xs

-- Little endian, `n` bytes.
unfoldable pub to_le : ℕ → ℕ → List ℕ
to_le zero v = []
to_le (suc n) v = (v % 256) ∷ to_le n (v / 256)

unfoldable pub from_le : List ℕ → ℕ
from_le [] = 0
from_le (b ∷ bs) = b + 256 * from_le bs

-- Big endian.
unfoldable pub u16_to_be : ℕ → List ℕ
u16_to_be v = (v / 256 % 256) ∷ (v % 256) ∷ []

unfoldable pub u32_to_be : ℕ → List ℕ
u32_to_be v = (v / 2 ^ 24 % 256) ∷ (v / 2 ^ 16 % 256) ∷ (v / 2 ^ 8 % 256) ∷ (v % 256) ∷ []

from_be_onto : ℕ → List ℕ → ℕ
from_be_onto acc [] = acc
from_be_onto acc (b ∷ bs) = from_be_onto (acc * 256 + b) bs

unfoldable pub from_be : List ℕ → ℕ
unfolding from_be_onto
from_be bs = from_be_onto 0 bs

pub length-to_le : (n v : ℕ) → length (to_le n v) ≡ n
unfolding to_le
length-to_le zero v = refl
length-to_le (suc n) v = ap suc (length-to_le n (v / 256))

pub to_le-Bytes : (n v : ℕ) → Bytes (to_le n v)
unfolding to_le
to_le-Bytes zero v = tt
to_le-Bytes (suc n) v = (omega arith, to_le-Bytes n (v / 256))

pub from_le-to_le : (n v : ℕ) → v < 256 ^ n → from_le (to_le n v) ≡ v
unfolding to_le from_le
from_le-to_le zero v h = omega arith
from_le-to_le (suc n) v h = omega (arith, from_le-to_le n (v / 256) (omega (arith, pow-suc 256 n)))

pub to_le-from_le : (bs : List ℕ) → Bytes bs → to_le (length bs) (from_le bs) ≡ bs
unfolding to_le from_le
to_le-from_le [] h = refl
to_le-from_le (b ∷ bs) h = ap₂ ◌∷◌ first (ap (to_le (length bs)) rest ∙ to_le-from_le bs h.1)
  where
    first : (b + 256 * from_le bs) % 256 ≡ b
    first = omega arith

    rest : (b + 256 * from_le bs) / 256 ≡ from_le bs
    rest = omega arith

pub from_le-lt : (bs : List ℕ) → Bytes bs → from_le bs < 256 ^ length bs
unfolding from_le
from_le-lt [] h = omega arith
from_le-lt (b ∷ bs) h = omega (arith, from_le-lt bs h.1, pow-suc 256 (length bs))

pub from_be-u16 : (v : ℕ) → IsU16 v → from_be (u16_to_be v) ≡ v
unfolding from_be u16_to_be
from_be-u16 v h = omega arith

pub from_be-u32 : (v : ℕ) → IsU32 v → from_be (u32_to_be v) ≡ v
unfolding from_be u32_to_be
from_be-u32 v h = omega arith

pub u16_to_be-from_be :
    (a b : ℕ) → IsByte a → IsByte b → u16_to_be (from_be (a ∷ b ∷ [])) ≡ a ∷ b ∷ []
unfolding from_be u16_to_be
u16_to_be-from_be a b h k =
    let ea : (0 * 256 + a) * 256 + b ≡ a * 256 + b = omega arith in
    let e0 : ((0 * 256 + a) * 256 + b) / 256 % 256 ≡ a = omega arith in
    let e1 : ((0 * 256 + a) * 256 + b) % 256 ≡ b = omega arith in ap₂ (λ x y. x ∷ y ∷ []) e0 e1

pub u32_to_be-from_be :
    (a b c d : ℕ)
    → IsByte a
    → IsByte b
    → IsByte c
    → IsByte d
    → u32_to_be (from_be (a ∷ b ∷ c ∷ d ∷ [])) ≡ a ∷ b ∷ c ∷ d ∷ []
unfolding from_be u32_to_be
u32_to_be-from_be a b c d ha hb hc hd = ground arith

pub from_be-IsU16 : (a b : ℕ) → IsByte a → IsByte b → IsU16 (from_be (a ∷ b ∷ []))
unfolding from_be
from_be-IsU16 a b ha hb = omega arith

pub from_be-IsU32 :
    (a b c d : ℕ) → IsByte a → IsByte b → IsByte c → IsByte d → IsU32 (from_be (a ∷ b ∷ c ∷ d ∷ []))
unfolding from_be
from_be-IsU32 a b c d ha hb hc hd = omega arith

pub length-u16 : (v : ℕ) → length (u16_to_be v) ≡ 2
unfolding u16_to_be
length-u16 v = refl

pub length-u32 : (v : ℕ) → length (u32_to_be v) ≡ 4
unfolding u32_to_be
length-u32 v = refl

pub u16-Bytes : (v : ℕ) → Bytes (u16_to_be v)
unfolding u16_to_be
u16-Bytes v = omega arith

pub u32-Bytes : (v : ℕ) → Bytes (u32_to_be v)
unfolding u32_to_be
u32-Bytes v = omega arith

-- A field of `n` bytes at offset `k` is written back as it was read.
pub field_back :
    (n k : ℕ) (body : List ℕ)
    → Bytes body
    → n + k ≤ length body
    → to_le n (from_le (take n (drop k body))) ≡ take n (drop k body)
field_back n k body bytes h =
    let field = take n (drop k body) in
    let size : length field ≡ n = omega (arith, length-take n (drop k body), length-drop k body) in
    ap (λ (m : ℕ). to_le m (from_le field)) (sym size)
    ∙ to_le-from_le field (All-take IsByte n (drop k body) (All-drop IsByte k body bytes))

pub from_be-word : (bs : List ℕ) → Bytes bs → length bs ≤ 2 → IsU16 (from_be bs)
unfolding from_be
from_be-word [] h k = omega arith
from_be-word (a ∷ []) h k = omega (arith, h.0)
from_be-word (a ∷ (b ∷ [])) h k = omega (arith, h.0, h.1.0)
from_be-word (a ∷ (b ∷ (c ∷ bs))) h k = absurd (omega arith)

pub from_be-double : (bs : List ℕ) → Bytes bs → length bs ≤ 4 → IsU32 (from_be bs)
unfolding from_be
from_be-double [] h k = omega arith
from_be-double (a ∷ []) h k = omega (arith, h.0)
from_be-double (a ∷ (b ∷ [])) h k = omega (arith, h.0, h.1.0)
from_be-double (a ∷ (b ∷ (c ∷ []))) h k = omega (arith, h.0, h.1.0, h.1.1.0)
from_be-double (a ∷ (b ∷ (c ∷ (d ∷ [])))) h k = omega (arith, h.0, h.1.0, h.1.1.0, h.1.1.1.0)
from_be-double (a ∷ (b ∷ (c ∷ (d ∷ (e ∷ bs))))) h k = absurd (omega arith)

pub slice-Bytes : (a b : ℕ) (bs : List ℕ) → Bytes bs → Bytes (slice a b bs)
slice-Bytes a b bs h = All-take IsByte (b - a) (drop a bs) (All-drop IsByte a bs h)

length-slice-le : (a b : ℕ) (bs : List ℕ) → length (slice a b bs) ≤ b - a
length-slice-le a b bs = omega (arith, length-take (b - a) (drop a bs))

pub word_at : (a b : ℕ) (bs : List ℕ) → Bytes bs → b ≤ a + 2 → IsU16 (from_be (slice a b bs))
word_at a b bs h k =
    from_be-word (slice a b bs) (slice-Bytes a b bs h) (omega (arith, k, length-slice-le a b bs))

pub double_at : (a b : ℕ) (bs : List ℕ) → Bytes bs → b ≤ a + 4 → IsU32 (from_be (slice a b bs))
double_at a b bs h k =
    from_be-double (slice a b bs) (slice-Bytes a b bs h) (omega (arith, k, length-slice-le a b bs))
