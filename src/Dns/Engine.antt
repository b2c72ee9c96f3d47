-- ===== src/Dns/Engine.antt =====
-- src/dns/packet.rs: `DnsPacketEngine::process`. The codec of DNS messages is a parameter.
pub mod Asking
pub mod Injection
use openiwan.Prelude.{
  ℕ, ltb, ◌==◌, ◌!=◌, ◌&&◌, ◌||◌, not, if◌then◌else◌, Bool, true, false, Option, none, some, List,
  [], ◌∷◌, length, slice,
}
use openiwan.Prelude.Words.{from_be}
use openiwan.Dns.Policy.{
  EffectiveDnsPolicy, engine_enabled, dns_routing_enabled, routes_through_tunnel, blocks_doh_host,
}
use openiwan.Dns.Packet.{
  dns_port, encrypted_dns_port, DnsRelayRequest, DnsPacketAction, pass, inject, relay, Ipv4Packet,
  UdpPacket, parse_ipv4, parse_udp, build_udp_response,
}

pub data ResponseCode : Type 0 where
  no_error serv_fail nx_domain : ResponseCode

-- `RecordType`: AAAA, or another one with its number.
pub data RecordType : Type 0 where
  aaaa : RecordType
  other : ℕ → RecordType

abbrev pub is_aaaa : RecordType → Bool
is_aaaa aaaa = true
is_aaaa (other _) = false

-- A question: its name as text, its type and its class.
pub record Query : Type 0 where
  pub name : List ℕ
  pub query_type : RecordType
  pub query_class : ℕ

-- The parts of a message that the code reads or sets; `id` and `op_code` are numbers.
pub record Message : Type 0 where
  pub id : ℕ
  pub op_code : ℕ
  pub is_query : Bool
  pub recursion_desired : Bool
  pub recursion_available : Bool
  pub response_code : ResponseCode
  pub queries : List Query

-- What src/dns/packet.rs calls of the crate hickory-proto: `Message::from_vec`, `Message::response`,
-- `add_queries` and `to_vec`.
pub record Codec : Type 0 where
  pub from_vec : List ℕ → Option Message
  pub response : ℕ → ℕ → Message
  pub add_queries : Message → List Query → Message
  pub to_vec : Message → Option (List ℕ)

-- `request.message_type == MessageType::Query && request.queries.len() == 1`
abbrev pub one_of : Bool → List Query → Option Query
one_of true (query ∷ []) = some query
one_of _ _ = none

-- A message with its only question.
abbrev pub with_query : Message → Option Query → Option (Message × Query)
with_query message none = none
with_query message (some query) = some (message, query)

unfoldable pub asked : Option Message → Option (Message × Query)
asked none = none
asked (some message) = with_query message (one_of message.is_query message.queries)

-- `payload.get(2..4)` for TCP and UDP.
unfoldable pub port_of : Ipv4Packet → Option ℕ
port_of ip =
    if (ip.protocol == 6 || ip.protocol == 17) && not (ltb (length ip.payload) 4)
    then some (from_be (slice 2 4 ip.payload))
    else none

abbrev pub is_encrypted_port : Option ℕ → Bool
is_encrypted_port none = false
is_encrypted_port (some port) = port == encrypted_dns_port

unfoldable pub synthetic : EffectiveDnsPolicy → Query → Option ResponseCode
synthetic policy query =
    if blocks_doh_host policy query.name
    then some nx_domain
    else if dns_routing_enabled policy && is_aaaa query.query_type
    then some no_error
    else none

unfoldable pub inject_or_pass : Option (List ℕ) → DnsPacketAction
inject_or_pass none = pass
inject_or_pass (some packet) = inject packet

abbrev pub relay_request : Ipv4Packet → UdpPacket → DnsRelayRequest
relay_request ip udp = record {
  dns_request = udp.payload;
  source = ip.source;
  destination = ip.destination;
  source_port = udp.source_port;
  destination_port = udp.destination_port;
  identification = ip.identification;
}

-- `response_packet`: from the server's address and port to the client's.
unfoldable pub response_packet : DnsRelayRequest → List ℕ → Option (List ℕ)
response_packet r dns_response =
    build_udp_response r.destination r.source r.destination_port r.source_port r.identification
      dns_response

module _ (codec : Codec) where
  -- The response before it is encoded.
  unfoldable pub response_to : Message → ResponseCode → Message
  response_to request code =
      codec.add_queries
        (record (codec.response request.id request.op_code) {
          recursion_desired = request.recursion_desired;
          recursion_available = true;
          response_code = code;
        })
        request.queries

  unfoldable pub synthetic_response : Message → ResponseCode → Option (List ℕ)
  unfolding response_to
  synthetic_response request code = codec.to_vec (response_to request code)

  unfoldable pub servfail_packet : DnsRelayRequest → Option (List ℕ)
  unfolding synthetic_response
  servfail_packet r = elim (codec.from_vec r.dns_request) [
    | none ↦ none
    | some request ↦ elim (synthetic_response request serv_fail) [
      | none ↦ none
      | some response ↦ response_packet r response
    ]
  ]

  unfoldable pub respond_with : DnsRelayRequest → Message → ResponseCode → DnsPacketAction
  unfolding inject_or_pass response_packet synthetic_response
  respond_with r request code = elim (synthetic_response request code) [
    | none ↦ pass
    | some dns ↦ inject_or_pass (response_packet r dns)
  ]

  unfoldable pub answer_query :
      EffectiveDnsPolicy → DnsRelayRequest → Message → Query → DnsPacketAction
  unfolding synthetic respond_with
  answer_query policy r request query = elim (synthetic policy query) [
    | some code ↦ respond_with r request code
    | none ↦
        if not (dns_routing_enabled policy) || routes_through_tunnel policy query.name
        then pass
        else relay r
  ]

  unfoldable pub process_udp : EffectiveDnsPolicy → Ipv4Packet → UdpPacket → DnsPacketAction
  unfolding answer_query asked
  process_udp policy ip udp =
      if udp.destination_port != dns_port then pass else elim (asked (codec.from_vec udp.payload)) [
        | some (request, query) ↦ answer_query policy (relay_request ip udp) request query
        | none ↦ pass
      ]

  abbrev pub process_payload : EffectiveDnsPolicy → Ipv4Packet → Option UdpPacket → DnsPacketAction
  process_payload policy ip none = pass
  process_payload policy ip (some udp) = process_udp policy ip udp

  unfoldable pub process_ip : EffectiveDnsPolicy → Ipv4Packet → DnsPacketAction
  unfolding process_udp port_of
  process_ip policy ip =
      if ip.fragmented
      then pass
      else if policy.block_encrypted_dns && is_encrypted_port (port_of ip)
      then DnsPacketAction.drop
      else if ip.protocol != 17
      then pass
      else process_payload policy ip (parse_udp ip.payload)

  unfoldable pub process : EffectiveDnsPolicy → List ℕ → DnsPacketAction
  unfolding process_ip
  process policy packet =
      if not (engine_enabled policy)
      then pass
      else elim (parse_ipv4 packet) [ some ip ↦ process_ip policy ip | none ↦ pass ]
