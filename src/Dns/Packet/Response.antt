-- ===== src/Dns/Packet/Response.antt =====
-- src/dns/packet.rs: a response packet, read back as the engine reads packets.
use openiwan.Prelude.{
  ℕ, ◌+◌, ◌-◌, ◌^◌, ◌≤◌, ◌≡◌, refl, leb, le→ltb, ◌!=◌, bit_and, false, some, List, [], ◌∷◌, ◌++◌,
  length, take, take_all, arith,
}
use openiwan.Prelude.Words.{IsU16, IsU32, from_be, u16_to_be, u32_to_be, from_be-u16, from_be-u32}
use openiwan.Dns.Packet.{
  parse_ipv4, parse_udp, checksum, udp_checksum, zeros, ip_header, udp_bytes, build_udp_response,
}

parse_ipv4-ip_header :
    (total identification source destination : ℕ) (check udp : List ℕ)
    → length check ≡ 2
    → total ≡ 20 + length udp
    → IsU16 total
    → IsU16 identification
    → IsU32 source
    → IsU32 destination
    → parse_ipv4 (ip_header total identification source destination check ++ udp)
      ≡ some (record {
        source = source;
        destination = destination;
        identification = identification;
        protocol = 17;
        fragmented = false;
        payload = udp;
      })
unfolding parse_ipv4 ip_header u16_to_be u32_to_be
parse_ipv4-ip_header total identification source destination (a ∷ (b ∷ [])) udp size sum ht hi hs
      hd =
    let t : from_be (u16_to_be total) ≡ total = from_be-u16 total ht in
    let i : from_be (u16_to_be identification) ≡ identification = from_be-u16 identification hi in
    let s : from_be (u32_to_be source) ≡ source = from_be-u32 source hs in
    let d : from_be (u32_to_be destination) ≡ destination = from_be-u32 destination hd in
    let whole : take (total - 20) udp ≡ udp = take_all (total - 20) udp (omega (arith, sum)) in
    let flags : (bit_and (from_be (0x40 ∷ 0 ∷ [])) 0x3fff != 0) ≡ false = unfold from_be in refl in
    let long = le→ltb (20 + length udp) 20 (omega arith) in
    let enough = le→ltb total 20 (omega (arith, sum)) in
    let fits = le→ltb (20 + length udp) total (omega (arith, sum)) in
    rw (parse_ipv4, t, i, s, d, whole, flags) (ground (arith, sum))
parse_ipv4-ip_header total identification source destination [] udp size sum ht hi hs hd = cc
parse_ipv4-ip_header total identification source destination (a ∷ []) udp size sum ht hi hs hd =
    absurd (omega arith)
parse_ipv4-ip_header total identification source destination (a ∷ (b ∷ (c ∷ more))) udp size sum ht
      hi hs hd =
    absurd (omega arith)

parse_udp-udp_bytes :
    (source_port destination_port len : ℕ) (check payload : List ℕ)
    → length check ≡ 2
    → len ≡ 8 + length payload
    → IsU16 len
    → IsU16 source_port
    → IsU16 destination_port
    → parse_udp (udp_bytes source_port destination_port len check payload)
      ≡ some (record {
        source_port = source_port;
        destination_port = destination_port;
        payload = payload;
      })
unfolding parse_udp udp_bytes u16_to_be
parse_udp-udp_bytes source_port destination_port len (a ∷ (b ∷ [])) payload size sum hl hs hd =
    let l : from_be (u16_to_be len) ≡ len = from_be-u16 len hl in
    let s : from_be (u16_to_be source_port) ≡ source_port = from_be-u16 source_port hs in
    let d : from_be (u16_to_be destination_port) ≡ destination_port =
      from_be-u16 destination_port hd in
    let whole : take (len - 8) payload ≡ payload =
      take_all (len - 8) payload (omega (arith, sum)) in
    rw (parse_udp, l, s, d, whole) (ground (arith, sum))
parse_udp-udp_bytes source_port destination_port len [] payload size sum hl hs hd = cc
parse_udp-udp_bytes source_port destination_port len (a ∷ []) payload size sum hl hs hd =
    absurd (omega arith)
parse_udp-udp_bytes source_port destination_port len (a ∷ (b ∷ (c ∷ more))) payload size sum hl hs
      hd =
    absurd (omega arith)

-- A response with a payload of at most 65507 bytes is built, 28 bytes longer, and is read back, by
-- the engine's own parsers, as an unfragmented UDP packet with the given addresses, ports and
-- identification, and with the payload.
pub build_udp_response-parse :
    (source destination source_port destination_port identification : ℕ) (payload : List ℕ)
    → IsU32 source
    → IsU32 destination
    → IsU16 source_port
    → IsU16 destination_port
    → IsU16 identification
    → length payload ≤ 65507
    → (packet udp : List ℕ) × (build_udp_response source destination source_port destination_port
          identification payload
        ≡ some packet)
      × (length packet ≡ 28 + length payload)
      × (parse_ipv4 packet
          ≡ some (record {
            source = source;
            destination = destination;
            identification = identification;
            protocol = 17;
            fragmented = false;
            payload = udp;
          }))
      × (parse_udp udp
          ≡ some (record {
            source_port = source_port;
            destination_port = destination_port;
            payload = payload;
          }))
unfolding build_udp_response
build_udp_response-parse source destination source_port destination_port identification payload hs
      hd hp hq hi short =
    let len = 8 + length payload in
    let total = 20 + len in
    let ip_check = checksum (ip_header total identification source destination zeros) in
    let udp_check =
      udp_checksum source destination (udp_bytes source_port destination_port len zeros payload) in
    let udp = udp_bytes source_port destination_port len (u16_to_be udp_check) payload in
    let size : length udp ≡ len = unfold udp_bytes u16_to_be in omega arith in
    let short_udp : leb (2 ^ 16) len ≡ false = ground arith in
    let short_ip : leb (2 ^ 16) total ≡ false = ground arith in
    (
      ip_header total identification source destination (u16_to_be ip_check) ++ udp,
      udp,
      rw (build_udp_response, short_udp, short_ip),
      unfold ip_header u16_to_be u32_to_be in omega (arith, size),
      parse_ipv4-ip_header total identification source destination (u16_to_be ip_check) udp
          (unfold u16_to_be in refl) (omega (arith, size)) (omega arith) hi hs hd,
      parse_udp-udp_bytes source_port destination_port len (u16_to_be udp_check) payload
          (unfold u16_to_be in refl) refl (omega arith) hp hq,
    )
