-- ===== src/Client/Rejection.antt =====
-- src/client.rs: what a rejection says. A message is the list of its Unicode scalar values. The
-- standard library's Unicode tables are parameters.
use openiwan.Prelude.{
  ℕ, suc, ◌==◌, ◌!=◌, ◌&&◌, ◌||◌, if◌then◌else◌, Bool, true, false, Option, none, some, List, [],
  ◌∷◌, length, take,
}
use openiwan.Error.{
  Error, Result, ok, err, stuck, ◌>>=◌, ◌>>◌, bail, authentication_verify_mismatch,
  authentication_rejected,
}
use openiwan.Protocol.Types.{TlvType, find, tlv_code, username, auth_verify, error_message}
use openiwan.Protocol.Tlv.{Tlv, parse_complete, first_u32}

-- `String::from_utf8_lossy`, `str::trim` and `str::to_uppercase`.
pub record Text : Type 0 where
  pub from_utf8_lossy : List ℕ → List ℕ
  pub trim : List ℕ → List ℕ
  pub to_uppercase : List ℕ → List ℕ

unfoldable pub find_tlv : List Tlv → TlvType → Option Tlv
find_tlv attributes kind = find (λ (t : Tlv). tlv_code t.kind == tlv_code kind) attributes

-- `str::starts_with` and `str::contains`.
unfoldable pub starts_with : List ℕ → List ℕ → Bool
starts_with [] text = true
starts_with (c ∷ word) [] = false
starts_with (c ∷ word) (d ∷ text) = c == d && starts_with word text

unfoldable pub contains : List ℕ → List ℕ → Bool
unfolding starts_with
contains word [] = starts_with word []
contains word (d ∷ text) = starts_with word (d ∷ text) || contains word text

abbrev pub keywords : List (List ℕ × ℕ)
keywords =
    (b'T' ∷ b'O' ∷ b'O' ∷ b'L' ∷ b'O' ∷ b'N' ∷ b'G' ∷ [], 2100)
    ∷ (b'F' ∷ b'R' ∷ b'E' ∷ b'E' ∷ b'I' ∷ b'P' ∷ [], 2111)
    ∷ (b'P' ∷ b'P' ∷ b'P' ∷ b'O' ∷ b'E' ∷ b'C' ∷ b'L' ∷ b'N' ∷ b'T' ∷ [], 2108)
    ∷ (b'P' ∷ b'P' ∷ b'O' ∷ b'E' ∷ b'C' ∷ b'L' ∷ b'N' ∷ b'T' ∷ [], 2108)
    ∷ (b'C' ∷ b'L' ∷ b'N' ∷ b'T' ∷ [], 2108)
    ∷ (b'P' ∷ b'P' ∷ b'P' ∷ b'O' ∷ b'E' ∷ b'_' ∷ b'I' ∷ b'N' ∷ b'S' ∷ b'T' ∷ b'A' ∷ b'L' ∷ [], 2112)
    ∷ (b'P' ∷ b'P' ∷ b'O' ∷ b'E' ∷ b'_' ∷ b'I' ∷ b'N' ∷ b'S' ∷ b'T' ∷ b'A' ∷ b'L' ∷ [], 2112)
    ∷ (b'P' ∷ b'P' ∷ b'P' ∷ b'O' ∷ b'E' ∷ b'I' ∷ b'N' ∷ b'S' ∷ b'T' ∷ b'A' ∷ b'L' ∷ b'L' ∷ [], 2112)
    ∷ (b'P' ∷ b'P' ∷ b'O' ∷ b'E' ∷ b'I' ∷ b'N' ∷ b'S' ∷ b'T' ∷ b'A' ∷ b'L' ∷ b'L' ∷ [], 2112)
    ∷ (b'P' ∷ b'P' ∷ b'P' ∷ b'O' ∷ b'E' ∷ [], 2112)
    ∷ (b'P' ∷ b'P' ∷ b'O' ∷ b'E' ∷ [], 2112)
    ∷ (b'F' ∷ b'A' ∷ b'I' ∷ b'L' ∷ [], 2116)
    ∷ (b'N' ∷ b'A' ∷ b'M' ∷ b'E' ∷ [], 2102)
    ∷ (b'P' ∷ b'A' ∷ b'S' ∷ b'S' ∷ [], 2105)
    ∷ (b'A' ∷ b'B' ∷ b'L' ∷ b'E' ∷ b'D' ∷ [], 2103)
    ∷ (b'P' ∷ b'I' ∷ b'R' ∷ b'E' ∷ b'D' ∷ [], 2104)
    ∷ (b'F' ∷ b'U' ∷ b'L' ∷ b'L' ∷ [], 2115)
    ∷ (b'E' ∷ b'M' ∷ b'P' ∷ b'T' ∷ b'Y' ∷ [], 2115)
    ∷ (b'P' ∷ b'O' ∷ b'O' ∷ b'L' ∷ [], 2106)
    ∷ (b'N' ∷ b'O' ∷ b'_' ∷ b'E' ∷ b'N' ∷ b'T' ∷ b'R' ∷ b'Y' ∷ [], 2107)
    ∷ (b'E' ∷ b'N' ∷ b'T' ∷ b'R' ∷ b'Y' ∷ [], 2107)
    ∷ (b'B' ∷ b'I' ∷ b'N' ∷ b'D' ∷ [], 2109)
    ∷ (b'N' ∷ b'U' ∷ b'L' ∷ b'L' ∷ [], 2110)
    ∷ (b'P' ∷ b'O' ∷ b'L' ∷ b'L' ∷ [], 2101)
    ∷ []

unfoldable pub first_code : List (List ℕ × ℕ) → List ℕ → ℕ
first_code [] text = 2999
first_code (entry ∷ entries) text =
    if contains entry.0 text then entry.1 else first_code entries text

module _ (t : Text) where
  unfoldable pub rejection_code : List ℕ → ℕ
  rejection_code message = first_code keywords (t.to_uppercase (t.trim message))

-- The attributes at an offset, if they are the ones that the search wants.
abbrev pub usable : Option Tlv → Option Tlv → Bool
usable (some _) (some auth) = length auth.value == 4
usable _ _ = false

abbrev pub message_or : List ℕ → Option Tlv → List ℕ
message_or text none = text
message_or text (some attribute) = attribute.value

unfoldable pub message_at : ℕ → List Tlv → List ℕ → Tlv → Result (List ℕ)
message_at expected_nonce attributes before auth = do
  nonce ← first_u32 auth
  bail (nonce != expected_nonce) authentication_verify_mismatch
  ok (message_or before (find_tlv attributes error_message))

-- The loop over the offsets, from one on: `rest` is `body[offset..]`.
unfoldable pub message_from : ℕ → List ℕ → ℕ → List ℕ → Result (List ℕ)
unfolding message_at
message_from expected_nonce body offset [] = ok body
message_from expected_nonce body offset (byte ∷ rest) =
    let later = message_from expected_nonce body (suc offset) rest in
    elim (parse_complete (byte ∷ rest)) [
      | ok attributes ↦ elim (find_tlv attributes auth_verify) [
        | some auth ↦
            if usable (find_tlv attributes username) (some auth)
            then message_at expected_nonce attributes (take offset body) auth
            else later
        | none ↦ later
      ]
      | err e ↦ later
      | stuck ↦ stuck
    ]

module _ (t : Text) where
  unfoldable pub parse_rejection : List ℕ → ℕ → Result Error
  unfolding message_from
  parse_rejection body expected_nonce = do
    message_bytes ← message_from expected_nonce body 0 body
    let message = t.trim (t.from_utf8_lossy message_bytes)
    ok (authentication_rejected (rejection_code t message) message)
