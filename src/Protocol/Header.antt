-- ===== src/Protocol/Header.antt =====
-- src/protocol.rs: `PacketHeader`, its encoding in eight bytes and the two decoders.
pub mod RoundTrip
use openiwan.Prelude.{ℕ, ◌<◌, ltb, ◌==◌, if◌then◌else◌, List, [], ◌∷◌, ◌++◌, length, get_or}
use openiwan.Prelude.Words.{u16_to_be, u32_to_be, from_be, IsU16, IsU32}
use openiwan.Error.{Result, ok, err, ◌>>=◌, packet_too_short, invalid_segment_routing}
use openiwan.Protocol.Types.{
  PacketType, EncryptionMethod, segment_routing, packet_code, packet_type_try_from, method_code,
  method_try_from,
}

abbrev pub header_len : ℕ
header_len = 8

pub record PacketHeader : Type 0 where
  pub packet_type : PacketType
  pub encryption : EncryptionMethod
  pub session_id : ℕ
  pub token : ℕ

-- The ranges of the fields `session_id : u16` and `token : u32`.
pub record IsValid (h : PacketHeader) : Type 0 where
  pub session_id_range : IsU16 h.session_id
  pub token_range : IsU32 h.token

unfoldable pub encode : PacketHeader → List ℕ
unfolding packet_code method_code
encode h =
    packet_code h.packet_type
    ∷ method_code h.encryption
    ∷ (u16_to_be h.session_id ++ u32_to_be h.token)

-- `input[i]`; every index stands behind the check of the length.
unfoldable pub decode_inner : List ℕ → Result PacketHeader
decode_inner input =
    if ltb (length input) header_len then err (packet_too_short header_len (length input)) else do
      packet_type ← packet_type_try_from (get_or input 0 0)
      encryption ← method_try_from (get_or input 1 0)
      ok (record {
        packet_type = packet_type;
        encryption = encryption;
        session_id = from_be (get_or input 2 0 ∷ get_or input 3 0 ∷ []);
        token =
            from_be
              (get_or input 4 0 ∷ get_or input 5 0 ∷ get_or input 6 0 ∷ get_or input 7 0 ∷ []);
      })

unfoldable pub decode : List ℕ → Result PacketHeader
decode input =
    if ltb (length input) header_len
    then err (packet_too_short header_len (length input))
    else if get_or input 0 0 == packet_code segment_routing
    then err (invalid_segment_routing "SR envelope must be parsed as an SR header")
    else decode_inner input
