-- ===== src/Tests/Packets.antt =====
-- Runs of the packets that src/protocol.rs builds and decodes.
use openiwan.Prelude.{ℕ, ◌≡◌, ◌↔◌, none, some, List, [], ◌∷◌, ◌++◌, take, replicate, arith}
use openiwan.Prelude.Words.{Bytes}
use openiwan.Error.{ok}
use openiwan.Protocol.Types.{echo_request, echo_response, open_packet, no_encryption}
use openiwan.Protocol.Header.{PacketHeader, IsValid}
use openiwan.Protocol.Tlv.{Tlv, parse_complete}
use openiwan.Protocol.Packet.{
  DecodedPacket, decode_packet, calculate_signature, build_open, open_attributes,
}
use openiwan.Protocol.Packet.Framing.{Framed, decode_packet_exact}
use openiwan.Protocol.Packet.Opening.{build_open-decode_packet}
use openiwan.Protocol.Packet.Echo.{
  EchoBody, IsValidEcho, build_echo_response, build_echo_response-decode_packet,
}
use openiwan.Tests.{plain, plain-IsLawful}

abbrev request : PacketHeader
request = record {
  packet_type = echo_request;
  encryption = no_encryption;
  session_id = 5;
  token = 9;
}

abbrev answer : PacketHeader
answer = record {
  packet_type = echo_response;
  encryption = no_encryption;
  session_id = 5;
  token = 9;
}

request-IsValid : IsValid request
request-IsValid = record { session_id_range = omega arith; token_range = omega arith }

abbrev input : List ℕ
input = 0x15 ∷ 0 ∷ 0 ∷ 5 ∷ 0 ∷ 0 ∷ 0 ∷ 9 ∷ (replicate 16 0 ++ (7 ∷ []))

input-Bytes : Bytes input
input-Bytes = ground arith

abbrev decoded : DecodedPacket
decoded = record { header = request; signature = some (replicate 16 0); body = 7 ∷ [] }

decode_packet_exact_example :
    (decode_packet plain input ≡ ok decoded) ↔ (Framed plain input decoded × IsValid request)
decode_packet_exact_example = decode_packet_exact plain plain-IsLawful input decoded input-Bytes

abbrev long_body : List ℕ
long_body = replicate 21 3

long_body-Bytes : Bytes long_body
long_body-Bytes = ground arith

build_echo_response-decode_packet_example :
    (packet : List ℕ) × (build_echo_response plain request long_body ≡ ok packet)
    × (decode_packet plain packet
        ≡ ok (record {
          header = answer;
          signature = some (calculate_signature plain answer);
          body = take 20 long_body;
        }))
build_echo_response-decode_packet_example =
    build_echo_response-decode_packet plain plain-IsLawful request long_body request-IsValid
      long_body-Bytes (omega arith)

abbrev echo : EchoBody
echo = record {
  tick_micros = 1;
  delay_stats = record { current_micros = 2; minimum_micros = 3; maximum_micros = 4 };
}

echo-IsValid : IsValidEcho echo
echo-IsValid = record {
  tick_range = omega arith;
  current_range = omega arith;
  minimum_range = omega arith;
  maximum_range = omega arith;
}

abbrev opening : PacketHeader
opening = record {
  packet_type = open_packet;
  encryption = no_encryption;
  session_id = 0;
  token = 0;
}

build_open-decode_packet_example :
    (packet body : List ℕ) × (ts : List Tlv) × (build_open plain
        (65 ∷ [])
        (66 ∷ [])
        1500
        no_encryption
        (some 5)
        none
      ≡ ok packet)
    × (open_attributes plain (65 ∷ []) (66 ∷ []) 1500 no_encryption (some 5) none ≡ ok ts)
    × (decode_packet plain packet
        ≡ ok (record {
          header = opening;
          signature = some (calculate_signature plain opening);
          body = body;
        }))
    × (parse_complete body ≡ ok ts)
build_open-decode_packet_example =
    build_open-decode_packet plain plain-IsLawful (65 ∷ []) (66 ∷ []) 1500 no_encryption (some 5)
      none (omega arith)
