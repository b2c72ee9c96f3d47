-- ===== src/Protocol/Packet.antt =====
-- src/protocol.rs: control packets, which carry a signature, data packets, and the packets that the
-- client builds. The digest is a parameter. The `debug_assert!`s of the encoders are absent from
-- release builds.
pub mod Framing
pub mod Opening
pub mod Echo
use openiwan.Prelude.{
  ℕ, ◌+◌, ltb, ◌==◌, ◌!=◌, ◌&&◌, if◌then◌else◌, Bool, true, false, Option, none, some, List, [],
  ◌∷◌, ◌++◌, length, drop, slice, not,
}
use openiwan.Error.{Result, ok, err, ◌>>=◌, packet_too_short, invalid_signature}
use openiwan.Protocol.Types.{
  PacketType, EncryptionMethod, TlvType, open_packet, close, is_control, is_close, no_encryption,
}
use openiwan.Protocol.Types
use openiwan.Protocol.Header.{PacketHeader, header_len, encode, decode}
use openiwan.Protocol.Tlv.{Tlv}
use openiwan.Protocol.Tlv
use openiwan.Crypto.Primitives.{Primitives}
use openiwan.Crypto.Keys.{java_us_ascii, encrypt_password}

abbrev pub signature_len : ℕ
signature_len = 16

abbrev pub control_prefix_len : ℕ
control_prefix_len = 24

pub record DecodedPacket : Type 0 where
  pub header : PacketHeader
  pub signature : Option (List ℕ)
  pub body : List ℕ

-- `==` on byte arrays.
unfoldable pub bytes_eq : List ℕ → List ℕ → Bool
bytes_eq [] [] = true
bytes_eq [] (b ∷ bs) = false
bytes_eq (a ∷ as') [] = false
bytes_eq (a ∷ as') (b ∷ bs) = a == b && bytes_eq as' bs

unfoldable pub encode_data : PacketHeader → List ℕ → List ℕ
encode_data header body = encode header ++ body

module _ (p : Primitives) where
  unfoldable pub calculate_signature : PacketHeader → List ℕ
  calculate_signature header = p.md5 (encode header ++ (b'm' ∷ b'w' ∷ []))

  unfoldable pub encode_control : PacketHeader → List ℕ → List ℕ
  encode_control header body = encode header ++ (calculate_signature header ++ body)

  unfoldable pub decode_control : PacketHeader → List ℕ → Result DecodedPacket
  decode_control header input =
      if is_close header.packet_type && length input == header_len
      then ok (record { header = header; signature = none; body = [] })
      else if ltb (length input) control_prefix_len
      then err (packet_too_short control_prefix_len (length input))
      else if not
          (bytes_eq (slice header_len control_prefix_len input) (calculate_signature header))
      then err invalid_signature
      else ok (record {
        header = header;
        signature = some (slice header_len control_prefix_len input);
        body = drop control_prefix_len input;
      })

  unfoldable pub decode_packet : List ℕ → Result DecodedPacket
  unfolding decode_control
  decode_packet input = do
    header ← decode input
    if is_control header.packet_type
        then decode_control header input
        else ok (record { header = header; signature = none; body = drop header_len input })

-- `Option::filter(|nonce| *nonce != 0)`
abbrev pub nonzero : Option ℕ → Option ℕ
nonzero none = none
nonzero (some nonce) = if nonce != 0 then some nonce else none

abbrev pub push_some : (ℕ → Tlv) → Option ℕ → List Tlv → List Tlv
push_some f none attributes = attributes
push_some f (some v) attributes = attributes ++ (f v ∷ [])

module _ (p : Primitives) where
  -- The arguments are username, password, MTU, method, first-hop link and nonce.
  unfoldable pub open_attributes :
      List ℕ → List ℕ → ℕ → EncryptionMethod → Option ℕ → Option ℕ → Result (List Tlv)
  open_attributes username password mtu encryption first_hop_link auth_verify = do
    name ← Tlv.new Types.username (java_us_ascii username)
    ok (
        push_some Tlv.auth_verify (nonzero auth_verify) (
          push_some Tlv.link first_hop_link (
            Tlv.mtu mtu
            ∷ name
            ∷ Tlv.encrypted_password (encrypt_password p password username)
            ∷ Tlv.encryption encryption
            ∷ [])))

  unfoldable pub build_open :
      List ℕ → List ℕ → ℕ → EncryptionMethod → Option ℕ → Option ℕ → Result (List ℕ)
  build_open username password mtu encryption first_hop_link auth_verify = do
    attributes ← open_attributes username password mtu encryption first_hop_link auth_verify
    body ← Tlv.encode_all attributes []
    ok (
        encode_control p
          (record { packet_type = open_packet; encryption = encryption; session_id = 0; token = 0 })
          body)

  unfoldable pub build_close : PacketHeader → List ℕ
  build_close header = encode_control p (record header { packet_type = close }) []

unfoldable pub build_probe_close : PacketHeader → List ℕ
build_probe_close header = encode (record header { packet_type = close })
