-- ===== src/Tests/Wire.antt =====
-- Runs of the codecs of src/protocol.rs, src/fragment.rs and src/sr.rs.
use openiwan.Prelude.{
  ℕ, ◌≤◌, ◌≡◌, ◌≢◌, ◌↔◌, refl, true, false, List, [], ◌∷◌, ◌++◌, drop, replicate, All, arith,
}
use openiwan.Prelude.Words.{Bytes, IsU32, from_be}
use openiwan.Error.{ok, stuck}
use openiwan.Protocol.Types.{data_packet, no_encryption, segment_routing}
use openiwan.Protocol.Types
use openiwan.Protocol.Header.{PacketHeader}
use openiwan.Protocol.Header
use openiwan.Protocol.Header.RoundTrip.{decode-encode_exact}
use openiwan.Protocol.Tlv.{Tlv, parse_all, parse_complete}
use openiwan.Protocol.Tlv.Parsing.{bytes_of_all, Readable, Fits, Parsed, parse_all-ne-stuck}
use openiwan.Protocol.Tlv.RoundTrip.{parse_all_exact, parse_complete_exact}
use openiwan.Fragment.Codec.{Fragment, big, little}
use openiwan.Fragment.Codec
use openiwan.Fragment.Codec.RoundTrip.{FitsWire, encode_exact}
use openiwan.Fragment.Codec.Exact.{parse_exact}
use openiwan.Fragment.Split.{Splits}
use openiwan.Fragment.Trim.{
  trim_ip_packet, declared_length, ipv4_length, ip_version, trim_ip_packet_exact,
}
use openiwan.Sr.Header.{SrHeader, no_outer}
use openiwan.Sr.Header as SrHeaders
use openiwan.Sr.Header.Exact.{Found, parse_header_exact}

abbrev header : PacketHeader
header = record {
  packet_type = data_packet;
  encryption = no_encryption;
  session_id = 258;
  token = 16909060;
}

abbrev header_input : List ℕ
header_input = 0x14 ∷ 0 ∷ 1 ∷ 2 ∷ 1 ∷ 2 ∷ 3 ∷ 4 ∷ 9 ∷ []

header_input-Bytes : Bytes header_input
header_input-Bytes = ground arith

decode-encode_exact_example : (Header.decode header_input ≡ ok header) ↔ (
    (header_input ≡ Header.encode header ++ drop 8 header_input)
    × Header.IsValid header
    × (data_packet ≢ segment_routing))
decode-encode_exact_example = decode-encode_exact header_input header header_input-Bytes

abbrev name : Tlv
name = record { kind = Types.username; value = 65 ∷ [] }

abbrev size : Tlv
size = record { kind = Types.mtu; value = 5 ∷ 220 ∷ [] }

abbrev attributes : List ℕ
attributes = 1 ∷ 3 ∷ 65 ∷ 3 ∷ 4 ∷ 5 ∷ 220 ∷ []

attributes-Bytes : Bytes attributes
attributes-Bytes = ground arith

parse_all_exact_example :
    (parse_all attributes ≡ ok (name ∷ size ∷ [])) ↔ Parsed attributes (name ∷ size ∷ [])
parse_all_exact_example = parse_all_exact attributes (name ∷ size ∷ []) attributes-Bytes

parse_complete_exact_example : (parse_complete attributes ≡ ok (name ∷ size ∷ [])) ↔ (
    (attributes ≡ bytes_of_all (name ∷ size ∷ []))
    × All Fits (name ∷ size ∷ [])
    × Readable (name ∷ size ∷ []) 0)
parse_complete_exact_example = parse_complete_exact attributes (name ∷ size ∷ []) attributes-Bytes

parse_all-ne-stuck_example : parse_all attributes ≢ stuck
parse_all-ne-stuck_example = parse_all-ne-stuck attributes

abbrev fragment : Fragment
fragment = record {
  id = 16909060;
  end_of_packet = true;
  from_in = false;
  offset = 2;
  payload = 170 ∷ 187 ∷ [];
}

abbrev fragment_input : List ℕ
fragment_input = 1 ∷ 2 ∷ 3 ∷ 4 ∷ 9 ∷ 0 ∷ 1 ∷ 0 ∷ 170 ∷ 187 ∷ []

fragment_input-Bytes : Bytes fragment_input
fragment_input-Bytes = ground arith

parse_exact_example : (Codec.parse big fragment_input ≡ ok fragment) ↔ (
    FitsWire fragment
    × IsU32 16909060
    × (fragment_input ≡ Codec.wire big fragment ++ drop 10 fragment_input))
parse_exact_example = parse_exact big fragment_input fragment fragment_input-Bytes

fragment-FitsWire : FitsWire fragment
fragment-FitsWire = record {
  some_payload = omega arith;
  short_payload = omega arith;
  offset_range = omega arith;
  end_range = omega arith;
}

fragment-encode : Codec.encode little fragment ≡ ok (Codec.wire little fragment)
fragment-encode =
    (encode_exact little fragment (Codec.wire little fragment)).1 (fragment-FitsWire, refl)

abbrev packet : List ℕ
packet = 1 ∷ 2 ∷ 3 ∷ []

packet-Splits : Splits packet 2
packet-Splits = record {
  some_mtu = omega arith;
  short_mtu = omega arith;
  longer = omega arith;
  within_two = omega arith;
}

abbrev datagram : List ℕ
datagram = 0x45 ∷ 0 ∷ 0 ∷ 20 ∷ replicate 16 0

trim_ip_packet_exact_example :
    (datagram ≡ datagram)
    × (20 ≤ 22)
    × (20 ≤ 20)
    × (ip_version datagram ≡ ip_version (datagram ++ (0 ∷ 0 ∷ [])))
    × (trim_ip_packet (datagram ++ (5 ∷ [])) ≡ ok datagram)
unfolding trim_ip_packet declared_length ip_version ipv4_length from_be
trim_ip_packet_exact_example =
    trim_ip_packet_exact (datagram ++ (0 ∷ 0 ∷ [])) datagram (5 ∷ []) refl

abbrev route : SrHeader
route = record { next_id = 1; links = 5 ∷ 6 ∷ []; algorithm = no_outer; padding_length = 0 }

abbrev route_input : List ℕ
route_input = 0x28 ∷ 1 ∷ 2 ∷ 0 ∷ 0 ∷ 0 ∷ 0 ∷ 5 ∷ 0 ∷ 0 ∷ 0 ∷ 6 ∷ 9 ∷ []

route_input-Bytes : Bytes route_input
route_input-Bytes = ground arith

parse_header_exact_example :
    (SrHeaders.parse route_input ≡ ok (route, 12)) ↔ Found route_input route 12
parse_header_exact_example = parse_header_exact route_input route 12 route_input-Bytes
