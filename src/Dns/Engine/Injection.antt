-- ===== src/Dns/Engine/Injection.antt =====
-- src/dns/packet.rs: the packets that the engine sends back to the device.
use openiwan.Prelude.{
  ℕ, ◌+◌, ◌^◌, subst, ◌≤◌, ◌≡◌, refl, sym, ap, ◌∙◌, leb, ◌||◌, if◌then◌else◌, Bool-cases, inl, inr,
  Bool, true, false, none, some, List, length, arith,
}
use openiwan.Prelude.Words.{Bytes, IsU16, IsU32, word_at, double_at, slice-Bytes}
use openiwan.Dns.Policy.{EffectiveDnsPolicy, engine_enabled}
use openiwan.Dns.Packet.{
  inject, Ipv4Packet, UdpPacket, header_length, total_length, parse_ipv4, parse_udp,
  build_udp_response,
}
use openiwan.Dns.Packet.Response.{build_udp_response-parse}
use openiwan.Dns.Engine.{
  ResponseCode, Query, Message, Codec, relay_request, response_packet, process,
}
use openiwan.Dns.Engine.Asking.{
  Asked, Chosen, response_for, synthetic_response_lem, respond_with-inject, answer_query-inject,
  process_udp-inject, process_ip-inject, process-inject,
}

passed {ℓ} :
    {A : Type ℓ} (b c : Bool) (x y : A)
    → (if b then none else if c then none else some x) ≡ some y
    → x ≡ y
passed true c x y e = cc
passed false true x y e = cc
passed false false x y e = cc

-- The fields of a packet of bytes.
parse_ipv4-ranges :
    (packet : List ℕ) (ip : Ipv4Packet)
    → Bytes packet
    → parse_ipv4 packet ≡ some ip
    → IsU32 ip.source × IsU32 ip.destination × IsU16 ip.identification × Bytes ip.payload
unfolding parse_ipv4
parse_ipv4-ranges packet ip b e =
    subst
      (λ (i : Ipv4Packet).
        IsU32 i.source × IsU32 i.destination × IsU16 i.identification × Bytes i.payload)
      (passed _ _ _ ip e)
      (
        double_at 12 16 packet b (omega arith),
        double_at 16 20 packet b (omega arith),
        word_at 4 6 packet b (omega arith),
        slice-Bytes (header_length packet) (total_length packet) packet b,
      )

parse_udp-ranges :
    (packet : List ℕ) (udp : UdpPacket)
    → Bytes packet
    → parse_udp packet ≡ some udp
    → IsU16 udp.source_port × IsU16 udp.destination_port
unfolding parse_udp
parse_udp-ranges packet udp b e =
    subst (λ (u : UdpPacket). IsU16 u.source_port × IsU16 u.destination_port) (passed _ _ _ udp e)
      (word_at 0 2 packet b (omega arith), word_at 2 4 packet b (omega arith))

build_short :
    (source destination source_port destination_port identification : ℕ) (payload packet : List ℕ)
    → build_udp_response source destination source_port destination_port identification payload
      ≡ some packet
    → length payload ≤ 65507
unfolding build_udp_response
build_short source destination source_port destination_port identification payload packet e =
    elim (Bool-cases
      (leb (2 ^ 16) (8 + length payload) || leb (2 ^ 16) (20 + (8 + length payload)))) [
        | inl long ↦ let clash : none ≡ some packet = rw (build_udp_response, long) at e in cc
        | inr short ↦ ground arith
      ]

-- A packet that the engine gives back to the device answers the one that it took. That one is an
-- unfragmented UDP packet for port 53, whose payload the codec reads as a query with one question.
-- The answer is an unfragmented UDP packet from the address and the port that the query was for to
-- those that it came from, with the query's identification. Its payload is the codec's encoding of a
-- response with the query's identifier, operation code, wish for recursion and question. The code of
-- the response is NXDOMAIN if the policy blocks the name in the question, and no error otherwise; then the
-- policy routes names and the question is for an IPv6 address.
pub process-answers :
    (codec : Codec) (policy : EffectiveDnsPolicy) (packet r : List ℕ)
    → Bytes packet
    → process codec policy packet ≡ inject r
    → (engine_enabled policy ≡ true)
      × (ip ip' : Ipv4Packet) × (udp udp' : UdpPacket) × (request : Message) × (query : Query)
      × (code : ResponseCode) × (parse_ipv4 packet ≡ some ip)
      × (ip.fragmented ≡ false)
      × (ip.protocol ≡ 17)
      × (parse_udp ip.payload ≡ some udp)
      × (udp.destination_port ≡ 53)
      × Asked codec udp.payload request query
      × Chosen policy query code
      × (parse_ipv4 r ≡ some ip')
      × (ip'.fragmented ≡ false)
      × (ip'.protocol ≡ 17)
      × (ip'.source ≡ ip.destination)
      × (ip'.destination ≡ ip.source)
      × (ip'.identification ≡ ip.identification)
      × (parse_udp ip'.payload ≡ some udp')
      × (udp'.source_port ≡ udp.destination_port)
      × (udp'.destination_port ≡ udp.source_port)
      × (codec.to_vec (response_for codec request query code) ≡ some udp'.payload)
unfolding response_packet
process-answers codec policy packet r bytes e =
    let (enabled, ip, found, e1) = process-inject codec policy r packet e in
    let (udp, whole, is_udp, held, e2) = process_ip-inject codec policy r ip e1 in
    let (port, request, query, a, e3) = process_udp-inject codec policy r ip udp e2 in
    let q = relay_request ip udp in
    let (code, chosen, e4) = answer_query-inject codec policy r q request query e3 in
    let (dns, said, built) = respond_with-inject codec r q request code e4 in
    let (hs, hd, hi, inner) = parse_ipv4-ranges packet ip bytes found in
    let (hp, hq) = parse_udp-ranges ip.payload udp inner held in
    let (packet', body, same, _, read, read_udp) =
      build_udp_response-parse ip.destination ip.source udp.destination_port udp.source_port
        ip.identification dns hd hs hq hp hi
        (build_short ip.destination ip.source udp.destination_port udp.source_port ip.identification
          dns r built) in
    let alike : packet' ≡ r = cc in
    (
      enabled,
      ip,
      record {
        source = ip.destination;
        destination = ip.source;
        identification = ip.identification;
        protocol = 17;
        fragmented = false;
        payload = body;
      },
      udp,
      record {
        source_port = udp.destination_port;
        destination_port = udp.source_port;
        payload = dns;
      },
      request,
      query,
      code,
      found,
      whole,
      is_udp,
      held,
      port,
      a,
      chosen,
      ap parse_ipv4 (sym alike) ∙ read,
      refl,
      refl,
      refl,
      refl,
      refl,
      read_udp,
      refl,
      refl,
      synthetic_response_lem codec udp.payload request query code dns a said,
    )
