-- ===== src/Dns/Packet.antt =====
-- src/dns/packet.rs: the engine that looks at each packet of the device, and the responses that it
-- builds. An address is its number. The policy and the codec of DNS messages are parameters.
pub mod Response
pub mod Sums
pub mod Checksum
use openiwan.Prelude.{
  ℕ, zero, suc, ◌+◌, ◌-◌, ◌*◌, ◌/◌, ◌%◌, ◌^◌, ltb, leb, ◌==◌, ◌!=◌, ◌&&◌, ◌||◌, if◌then◌else◌,
  bit_and, Bool, true, false, Option, none, some, List, [], ◌∷◌, ◌++◌, length, take, slice, get_or,
}
use openiwan.Prelude.Words.{from_be, u16_to_be, u32_to_be}

abbrev pub ipv4_min_header : ℕ
ipv4_min_header = 20

abbrev pub udp_header : ℕ
udp_header = 8

abbrev pub dns_port : ℕ
dns_port = 53

abbrev pub encrypted_dns_port : ℕ
encrypted_dns_port = 853

pub record DnsRelayRequest : Type 0 where
  pub dns_request : List ℕ
  pub source : ℕ
  pub destination : ℕ
  pub source_port : ℕ
  pub destination_port : ℕ
  pub identification : ℕ

pub data DnsPacketAction : Type 0 where
  pass drop : DnsPacketAction
  inject : List ℕ → DnsPacketAction
  relay : DnsRelayRequest → DnsPacketAction

pub record Ipv4Packet : Type 0 where
  pub source : ℕ
  pub destination : ℕ
  pub identification : ℕ
  pub protocol : ℕ
  pub fragmented : Bool
  pub payload : List ℕ

abbrev pub header_length : List ℕ → ℕ
header_length packet = get_or packet 0 0 % 16 * 4

abbrev pub total_length : List ℕ → ℕ
total_length packet = from_be (slice 2 4 packet)

unfoldable pub parse_ipv4 : List ℕ → Option Ipv4Packet
parse_ipv4 packet =
    if ltb (length packet) ipv4_min_header || get_or packet 0 0 / 16 != 4
    then none
    else if ltb (header_length packet) ipv4_min_header
        || ltb (total_length packet) (header_length packet)
        || ltb (length packet) (total_length packet)
    then none
    else some (record {
      source = from_be (slice 12 16 packet);
      destination = from_be (slice 16 20 packet);
      identification = from_be (slice 4 6 packet);
      protocol = get_or packet 9 0;
      fragmented = bit_and (from_be (slice 6 8 packet)) 0x3fff != 0;
      payload = slice (header_length packet) (total_length packet) packet;
    })

pub record UdpPacket : Type 0 where
  pub source_port : ℕ
  pub destination_port : ℕ
  pub payload : List ℕ

unfoldable pub parse_udp : List ℕ → Option UdpPacket
parse_udp packet =
    if ltb (length packet) udp_header
    then none
    else if ltb (from_be (slice 4 6 packet)) udp_header
        || ltb (length packet) (from_be (slice 4 6 packet))
    then none
    else some (record {
      source_port = from_be (slice 0 2 packet);
      destination_port = from_be (slice 2 4 packet);
      payload = slice udp_header (from_be (slice 4 6 packet)) packet;
    })

-- The big-endian words of the bytes, an odd last byte with a zero behind it; the `u32` sum cannot
-- overflow on the 65535 bytes of a packet.
unfoldable pub add_bytes : ℕ → List ℕ → ℕ
add_bytes sum [] = sum
add_bytes sum (a ∷ []) = sum + a * 256
add_bytes sum (a ∷ (b ∷ bytes)) = add_bytes (sum + (a * 256 + b)) bytes

-- `while sum >> 16 != 0`, on fuel.
unfoldable pub fold : ℕ → ℕ → ℕ
fold zero sum = sum
fold (suc fuel) sum =
    let next = fold fuel (sum % 2 ^ 16 + sum / 2 ^ 16) in if sum / 2 ^ 16 == 0 then sum else next

-- A `u32` takes at most two rounds.
unfoldable pub finish_checksum : ℕ → ℕ
unfolding fold
finish_checksum sum =
    let value = 0xffff - fold 3 sum % 2 ^ 16 in if value == 0 then 0xffff else value

unfoldable pub checksum : List ℕ → ℕ
unfolding add_bytes finish_checksum
checksum bytes = finish_checksum (add_bytes 0 bytes)

unfoldable pub udp_checksum : ℕ → ℕ → List ℕ → ℕ
unfolding add_bytes finish_checksum
udp_checksum source destination udp = finish_checksum (
    add_bytes (add_bytes (add_bytes 0 (u32_to_be source)) (u32_to_be destination) + 17 + length udp)
      udp)

-- The header with the given bytes in the place of its checksum.
unfoldable pub ip_header : ℕ → ℕ → ℕ → ℕ → List ℕ → List ℕ
ip_header total identification source destination check =
    0x45
    ∷ 0
    ∷ (u16_to_be total
        ++ (u16_to_be identification
            ++ (0x40 ∷ 0 ∷ 64 ∷ 17 ∷ (check ++ (u32_to_be source ++ u32_to_be destination)))))

unfoldable pub udp_bytes : ℕ → ℕ → ℕ → List ℕ → List ℕ → List ℕ
udp_bytes source_port destination_port len check payload =
    u16_to_be source_port ++ (u16_to_be destination_port ++ (u16_to_be len ++ (check ++ payload)))

abbrev pub zeros : List ℕ
zeros = 0 ∷ 0 ∷ []

unfoldable pub build_udp_response : ℕ → ℕ → ℕ → ℕ → ℕ → List ℕ → Option (List ℕ)
unfolding ip_header udp_bytes checksum udp_checksum
build_udp_response source destination source_port destination_port identification payload =
    let udp_length = udp_header + length payload in
    let total = ipv4_min_header + udp_length in
    if leb (2 ^ 16) udp_length || leb (2 ^ 16) total
    then none
    else (let ip_check = checksum (ip_header total identification source destination zeros) in
        let udp = udp_bytes source_port destination_port udp_length zeros payload in
        let udp_check = udp_checksum source destination udp in
        some (
          ip_header total identification source destination (u16_to_be ip_check)
          ++ udp_bytes source_port destination_port udp_length (u16_to_be udp_check) payload))
