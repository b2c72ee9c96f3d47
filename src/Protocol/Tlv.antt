-- ===== src/Protocol/Tlv.antt =====
-- src/protocol.rs: `Tlv`, its constructors, encoder, the two parsers and the value readers.
pub mod Parsing
pub mod RoundTrip
use openiwan.Prelude.{
  ℕ, zero, suc, ◌+◌, ◌-◌, ◌≤◌, ltb, ◌!=◌, if◌then◌else◌, List, [], ◌∷◌, ◌++◌, length, get_or, drop,
  slice, take,
}
use openiwan.Prelude.Words.{u16_to_be, u32_to_be, from_be, Bytes}
use openiwan.Error.{
  Result, ok, err, stuck, ◌>>=◌, ◌>>◌, bail, map_err, tlv_too_large, invalid_tlv, unknown_type,
  invalid_total_length, declared_length_exceeds, trailing_bytes, invalid_tlv_value,
}
use openiwan.Protocol.Types.{
  TlvType, EncryptionMethod, tlv_code, tlv_name, tlv_type_try_from, method_code,
}
use openiwan.Protocol.Types

pub record Tlv : Type 0 where
  pub kind : TlvType
  pub value : List ℕ

unfoldable pub new : TlvType → List ℕ → Result Tlv
new kind value =
    if ltb 253 (length value)
    then err (tlv_too_large (tlv_name kind) (length value))
    else ok (record { kind = kind; value = value })

-- Appends to the output buffer; `u8::try_from(len + 2)` fails from 256 on.
unfoldable pub encode : Tlv → List ℕ → Result (List ℕ)
encode t output =
    if ltb 255 (length t.value + 2)
    then err (tlv_too_large (tlv_name t.kind) (length t.value))
    else ok (output ++ (tlv_code t.kind ∷ (length t.value + 2) ∷ t.value))

-- `for attribute in &attributes { attribute.encode(&mut body)?; }`
unfoldable pub encode_all : List Tlv → List ℕ → Result (List ℕ)
encode_all [] output = ok output
encode_all (t ∷ ts) output = encode t output >>= encode_all ts

-- One attribute at `rest`, which is `input[offset..]`: the body of the loop, with the declared
-- length.
unfoldable pub parse_one : ℕ → List ℕ → Result (Tlv × ℕ)
parse_one offset rest = do
  kind ←
      map_err (tlv_type_try_from (get_or rest 0 0))
        (invalid_tlv offset (unknown_type (get_or rest 0 0)))
  let len = get_or rest 1 0
  bail (ltb len 2) (invalid_tlv offset (invalid_total_length len))
  bail (ltb (length rest) len) (invalid_tlv offset (declared_length_exceeds len (length rest)))
  ok (record { kind = kind; value = slice 2 len rest }, len)

-- `while input.len() - offset >= 3`, with fuel for the rounds left.
unfoldable pub parse_loop : ℕ → ℕ → List ℕ → List Tlv → Result (List Tlv)
parse_loop zero offset rest attributes = stuck
parse_loop (suc fuel) offset rest attributes =
    let round : Result (List Tlv) = (do
      (t, len) ← parse_one offset rest
      parse_loop fuel (offset + len) (drop len rest) (attributes ++ (t ∷ []))) in
    if ltb (length rest) 3 then ok attributes else round

-- Each round takes two bytes at least, so `input.len() + 1` rounds are enough.
unfoldable pub parse_all : List ℕ → Result (List Tlv)
unfolding parse_loop parse_one
parse_all input = parse_loop (suc (length input)) 0 input []

abbrev pub parsed_len : List Tlv → ℕ
parsed_len [] = 0
parsed_len (t ∷ ts) = length t.value + 2 + parsed_len ts

unfoldable pub parse_complete : List ℕ → Result (List Tlv)
parse_complete input = do
  attributes ← parse_all input
  bail (parsed_len attributes != length input) (invalid_tlv (parsed_len attributes) trailing_bytes)
  ok attributes

unfoldable pub mtu : ℕ → Tlv
mtu v = record { kind = Types.mtu; value = u16_to_be v }

unfoldable pub encrypted_password : List ℕ → Tlv
encrypted_password password = record { kind = Types.password; value = password }

unfoldable pub encryption : EncryptionMethod → Tlv
encryption m = record { kind = Types.encrypt; value = method_code m ∷ [] }

unfoldable pub link : ℕ → Tlv
link v = record { kind = Types.link; value = u32_to_be v }

unfoldable pub auth_verify : ℕ → Tlv
auth_verify nonce = record { kind = Types.auth_verify; value = u32_to_be nonce }

-- The defined widths of a protocol integer are 1, 2 and 4 bytes.
integer_of : TlvType → List ℕ → Result ℕ
integer_of kind (a ∷ []) = ok a
integer_of kind (a ∷ b ∷ []) = ok (from_be (a ∷ b ∷ []))
integer_of kind (a ∷ b ∷ c ∷ d ∷ []) = ok (from_be (a ∷ b ∷ c ∷ d ∷ []))
integer_of kind _ = err (invalid_tlv_value (tlv_name kind))

unfoldable pub as_integer : Tlv → Result ℕ
unfolding integer_of
as_integer t = integer_of t.kind t.value

unfoldable pub first_u32 : Tlv → Result ℕ
first_u32 t =
    if ltb (length t.value) 4
    then err (invalid_tlv_value (tlv_name t.kind))
    else ok (from_be (take 4 t.value))
