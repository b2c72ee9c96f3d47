-- ===== src/Sr/Datagram.antt =====
-- src/sr.rs: one IP packet as one or two segment-routing datagrams, and back.
pub mod Acceptance
pub mod Return
use openiwan.Prelude.{
  ℕ, ◌+◌, ◌%◌, ltb, ◌==◌, ◌!=◌, ◌||◌, ◌&&◌, not, if◌then◌else◌, Bool, true, false, Option, none,
  some, List, [], ◌∷◌, ◌++◌, length, drop,
}
use openiwan.Error.{
  Result, ok, err, stuck, ◌>>=◌, ◌>>◌, bail, packet_too_short, invalid_fragment,
  invalid_segment_routing, fragment_encryption_unsupported,
}
use openiwan.Protocol.Types.{
  PacketType, EncryptionMethod, data_packet, data_ipv6, data_encrypted, ip_fragment,
  ip_fragment_ipv6, echo_request, echo_response, no_encryption, xor, aes, method_code, packet_code,
}
use openiwan.Protocol.Header.{PacketHeader, header_len, decode_inner}
use openiwan.Protocol.Header
use openiwan.Crypto.Primitives.{Primitives, block_len}
use openiwan.Crypto.Cipher.{DataCipher}
use openiwan.Fragment.Codec.{Fragment}
use openiwan.Fragment.Codec
use openiwan.Fragment.Trim.{trim_ip_packet, ip_version}
use openiwan.Fragment.Split.{fragment_sr_packet}
use openiwan.Fragment.Segmented.{Reassembler, insert}
use openiwan.Sr.Header.{
  SrHeader, SrEncryptionAlgorithm, no_outer, algorithm_code, is_no_outer, outbound,
  validate_return_path,
}
use openiwan.Sr.Header as SrHeaders
use openiwan.Sr.Outer.{SrOuterCipher, encrypt, decrypt}
use openiwan.Sr.Session.{SrSessionTuple, header}
use openiwan.Sr.Monitor.{SrMonitorBody, is_echo}
use openiwan.Sr.Monitor

-- `==` of the two enums, by their codes.
abbrev pub same_method : EncryptionMethod → EncryptionMethod → Bool
same_method a b = method_code a == method_code b

abbrev pub same_algorithm : SrEncryptionAlgorithm → SrEncryptionAlgorithm → Bool
same_algorithm a b = algorithm_code a == algorithm_code b

unfoldable pub is_plain : EncryptionMethod → Bool
is_plain no_encryption = true
is_plain _ = false

-- One datagram of an oversized packet.
unfoldable pub fragment_datagram : List ℕ → SrSessionTuple → PacketType → Fragment → Result (List ℕ)
fragment_datagram forward_links session packet_type fragment = do
  sr_header ← outbound forward_links no_outer 0
  prefix ← SrHeaders.encode sr_header
  tail ← Codec.encode_sr fragment
  ok (prefix ++ (Header.encode (header session packet_type no_encryption) ++ tail))

-- The branch of a packet that is longer than the payload MTU.
unfoldable pub encode_fragments :
    List ℕ → ℕ → ℕ → List ℕ → SrSessionTuple → SrEncryptionAlgorithm → ℕ → Result (List (List ℕ))
encode_fragments packet payload_mtu fragment_id forward_links session algorithm version = do
  bail ((version == 4 && not (is_plain session.encryption)) || not (is_no_outer algorithm))
      fragment_encryption_unsupported
  (head, tail) ← fragment_sr_packet packet payload_mtu fragment_id
  let packet_type = if version == 4 then ip_fragment else ip_fragment_ipv6
  first ← fragment_datagram forward_links session packet_type head
  second ← fragment_datagram forward_links session packet_type tail
  ok (first ∷ second ∷ [])

-- The inner packet's type, method and payload, for IPv4 by the session's method.
unfoldable pub inner_ipv4 :
    EncryptionMethod → DataCipher → List ℕ → Result (PacketType × EncryptionMethod × List ℕ)
inner_ipv4 no_encryption cipher packet = ok (data_packet, no_encryption, packet)
inner_ipv4 xor cipher packet = do payload ← cipher.encrypt packet; ok (data_encrypted, xor, payload)
inner_ipv4 aes cipher packet = do
  bail (length packet % block_len != 0) fragment_encryption_unsupported
  payload ← cipher.encrypt packet
  ok (data_encrypted, aes, payload)

unfoldable pub inner_packet :
    ℕ → EncryptionMethod → DataCipher → List ℕ → Result (PacketType × EncryptionMethod × List ℕ)
unfolding inner_ipv4
inner_packet version method cipher packet =
    if version == 6 then ok (data_ipv6, no_encryption, packet) else inner_ipv4 method cipher packet

pub data SrDecoded : Type 0 where
  data_of : List ℕ → SrDecoded
  fragment_of : PacketType → Fragment → SrDecoded
  echo_request_of : SrMonitorBody → SrDecoded
  echo_response_of : SrMonitorBody → SrDecoded

abbrev pub is_xor_or_aes : EncryptionMethod → Bool
is_xor_or_aes method = not (is_plain method)

-- The condition under which an echo or a fragment is refused.
abbrev pub is_wrapped : SrHeader → PacketHeader → Bool
is_wrapped sr_header inner =
    not (is_no_outer sr_header.algorithm)
    || sr_header.padding_length != 0
    || not (is_plain inner.encryption)

unfoldable pub decode_echo_body : SrHeader → PacketHeader → List ℕ → Result SrMonitorBody
decode_echo_body sr_header inner wire_payload = do
  bail (is_wrapped sr_header inner) (invalid_segment_routing "SR echo packet is encrypted")
  Monitor.decode wire_payload

unfoldable pub decode_fragment : PacketType → SrHeader → PacketHeader → List ℕ → Result SrDecoded
decode_fragment packet_type sr_header inner wire_payload = do
  bail (is_wrapped sr_header inner) fragment_encryption_unsupported
  fragment ← Codec.parse_sr wire_payload
  ok (fragment_of packet_type fragment)

unfoldable pub plain_of :
    PacketHeader → SrSessionTuple → DataCipher → Bool → List ℕ → Result (List ℕ)
plain_of inner session cipher is_encrypted outer_plain =
    if is_encrypted
    then (if not (same_method inner.encryption session.encryption) || is_plain session.encryption
        then err (invalid_segment_routing "inner encryption does not match session")
        else cipher.decrypt outer_plain)
    else if not (is_plain inner.encryption)
    then err (invalid_segment_routing "plain inner packet has a nonzero encryption method")
    else ok outer_plain

module _ (p : Primitives) where
  unfoldable pub encode_data :
      List ℕ → ℕ → ℕ → List ℕ → SrSessionTuple → DataCipher → SrOuterCipher → Result (List (List ℕ))
  encode_data raw payload_mtu fragment_id forward_links session session_cipher outer_cipher = do
    bail (length raw == 0) (invalid_fragment "empty inner IP packet")
    let version = ip_version raw
    bail (not (version == 4 || version == 6)) (invalid_fragment "unknown inner IP version")
    packet ← trim_ip_packet raw
    let single : Result (List (List ℕ)) = (do
      (packet_type, method, payload) ← inner_packet version session.encryption session_cipher packet
      bail (ltb payload_mtu (length payload)) fragment_encryption_unsupported
      (outer_payload, padding) ← encrypt p outer_cipher payload
      bail (ltb payload_mtu (length outer_payload)) fragment_encryption_unsupported
      sr_header ← outbound forward_links outer_cipher.algorithm padding
      prefix ← SrHeaders.encode sr_header
      ok ((prefix ++ (Header.encode (header session packet_type method) ++ outer_payload)) ∷ []))
    if ltb payload_mtu (length packet)
        then encode_fragments packet payload_mtu fragment_id forward_links session
            outer_cipher.algorithm version
        else single

  unfoldable pub decode_data :
      Bool
      → ℕ
      → SrHeader
      → PacketHeader
      → SrSessionTuple
      → DataCipher
      → SrOuterCipher
      → List ℕ
      → Result SrDecoded
  decode_data is_encrypted expected_version sr_header inner session cipher outer wire_payload = do
    bail (not (same_algorithm sr_header.algorithm outer.algorithm))
        (invalid_segment_routing "outer algorithm does not match configuration")
    outer_plain ← decrypt p outer wire_payload sr_header.padding_length
    plain ← plain_of inner session cipher is_encrypted outer_plain
    packet ← trim_ip_packet plain
    bail (ip_version packet != expected_version)
        (invalid_segment_routing "inner packet type does not match IP version")
    ok (data_of packet)

  -- The match on the inner packet's type.
  unfoldable pub decode_inner_packet :
      PacketType
      → SrHeader
      → PacketHeader
      → SrSessionTuple
      → DataCipher
      → SrOuterCipher
      → List ℕ
      → Result SrDecoded
  decode_inner_packet echo_request sr_header inner session cipher outer wire_payload = do
    monitor ← decode_echo_body sr_header inner wire_payload
    ok (echo_request_of monitor)
  decode_inner_packet echo_response sr_header inner session cipher outer wire_payload = do
    monitor ← decode_echo_body sr_header inner wire_payload
    ok (echo_response_of monitor)
  decode_inner_packet ip_fragment sr_header inner session cipher outer wire_payload =
      decode_fragment ip_fragment sr_header inner wire_payload
  decode_inner_packet ip_fragment_ipv6 sr_header inner session cipher outer wire_payload =
      decode_fragment ip_fragment_ipv6 sr_header inner wire_payload
  decode_inner_packet data_packet sr_header inner session cipher outer wire_payload =
      decode_data false 4 sr_header inner session cipher outer wire_payload
  decode_inner_packet data_ipv6 sr_header inner session cipher outer wire_payload =
      decode_data false 6 sr_header inner session cipher outer wire_payload
  decode_inner_packet data_encrypted sr_header inner session cipher outer wire_payload =
      decode_data true 4 sr_header inner session cipher outer wire_payload
  decode_inner_packet _ sr_header inner session cipher outer wire_payload =
      err (invalid_segment_routing "unsupported SR inner packet type")

  unfoldable pub decode_datagram :
      List ℕ → List ℕ → SrSessionTuple → DataCipher → SrOuterCipher → Result SrDecoded
  unfolding decode_inner_packet
  decode_datagram datagram forward_links session session_cipher outer_cipher = do
    (sr_header, sr_header_len) ← SrHeaders.parse datagram
    validate_return_path sr_header forward_links
    bail (ltb (length datagram) (sr_header_len + header_len))
        (packet_too_short (sr_header_len + header_len) (length datagram))
    inner ← decode_inner (drop sr_header_len datagram)
    bail (inner.session_id != session.session_id || inner.token != session.token)
        (invalid_segment_routing "inner session tuple does not match")
    decode_inner_packet inner.packet_type sr_header inner session session_cipher outer_cipher
        (drop (sr_header_len + header_len) datagram)

unfoldable pub expected_version : PacketType → ℕ
expected_version ip_fragment = 4
expected_version _ = 6

-- What `insert_fragment` does with a packet that the reassembler returned.
unfoldable pub check_reassembled : PacketType → Option (List ℕ) → Result (Option (List ℕ))
check_reassembled packet_type none = ok none
check_reassembled packet_type (some raw) = do
  packet ← trim_ip_packet raw
  bail (ip_version packet != expected_version packet_type)
      (invalid_fragment "reassembled IP version does not match SR fragment type")
  ok (some packet)

unfoldable pub insert_fragment :
    PacketType → Fragment → ℕ → Reassembler → Reassembler × Result (Option (List ℕ))
insert_fragment packet_type fragment now reassembler =
    let (after, result) = insert fragment now reassembler in
    (after, result >>= check_reassembled packet_type)
