-- ===== src/Tests/Names.antt =====
-- A domain rule, a DNS policy, and a query that the engine answers.
use openiwan.Prelude.{
  ℕ, ◌+◌, ◌≡◌, ◌≢◌, ◌%◌, slice, ◌↔◌, refl, true, false, some, List, [], ◌∷◌, ◌++◌, length,
  All-append, take, drop, replicate, arith,
}
use openiwan.Prelude.Words.{Bytes, IsByte, from_be, u16_to_be, u32_to_be}
use openiwan.Protocol.Packet.{bytes_eq}
use openiwan.Crypto.Aes.{replicate-Bytes}
use openiwan.Dns.Names.{validate_name, normalize_name}
use openiwan.Dns.Rules.{DomainRuleKind, DomainRule, matches}
use openiwan.Dns.Rules.Matching.{Matched, matches_exact}
use openiwan.Dns.Settings.{
  default_defaults, no_overrides, default_doh_canary, DnsServerMode, SplitDnsMode,
}
use openiwan.Dns.Policy.{EffectiveDnsPolicy, resolve, engine_enabled, blocks_doh_host}
use openiwan.Dns.Policy.Soundness.{IsSound, resolve-IsSound}
use openiwan.Dns.Packet.{zeros, Ipv4Packet, UdpPacket, parse_ipv4, parse_udp, build_udp_response}
use openiwan.Dns.Packet.Response.{build_udp_response-parse}
use openiwan.Dns.Packet.Sums.{word_sum}
use openiwan.Dns.Packet.Checksum.{pseudo_header, build_udp_response-checksum}
use openiwan.Dns.Engine.{ResponseCode, no_error, RecordType, Query, Message, Codec, process}
use openiwan.Dns.Engine.Asking.{Asked, Chosen, response_for}
use openiwan.Dns.Engine.Injection.{process-answers}

-- The rule `@a.b`.
abbrev rule : DomainRule
rule = record {
  kind = DomainRuleKind.domain;
  domain = b'a' ∷ b'.' ∷ b'b' ∷ [];
  explicit_prefix = true;
}

-- `X.a.b.`
abbrev name : List ℕ
name = b'X' ∷ b'.' ∷ b'a' ∷ b'.' ∷ b'b' ∷ b'.' ∷ []

matches_exact_example :
    (matches rule name ≡ true)
    ↔ Matched DomainRuleKind.domain (b'a' ∷ b'.' ∷ b'b' ∷ []) (normalize_name name)
matches_exact_example = matches_exact rule name

abbrev policy : EffectiveDnsPolicy
policy = record {
  server_mode = DnsServerMode.server;
  servers = [];
  split_mode = SplitDnsMode.off;
  inclusive = [];
  exclusive = [];
  block_encrypted_dns = false;
  doh_hosts = default_doh_canary ∷ [];
}

resolve-IsSound_example : IsSound policy
unfolding resolve validate_name normalize_name
resolve-IsSound_example = resolve-IsSound default_defaults no_overrides [] policy refl

build_udp_response-parse_example :
    (packet udp : List ℕ) × (build_udp_response 1 2 53 4000 9 (7 ∷ []) ≡ some packet)
    × (length packet ≡ 28 + 1)
    × (parse_ipv4 packet
        ≡ some (record {
          source = 1;
          destination = 2;
          identification = 9;
          protocol = 17;
          fragmented = false;
          payload = udp;
        }))
    × (parse_udp udp
        ≡ some (record { source_port = 53; destination_port = 4000; payload = 7 ∷ [] }))
build_udp_response-parse_example =
    build_udp_response-parse 1 2 53 4000 9 (7 ∷ []) (omega arith) (omega arith) (omega arith)
      (omega arith) (omega arith) (omega arith)

build_udp_response-checksum_example :
    (packet : List ℕ) × (build_udp_response 1 2 53 4000 9 (7 ∷ []) ≡ some packet)
    × (word_sum true (take 20 packet) % 65535 ≡ 0)
    × (word_sum true (pseudo_header 1 2 (8 + 1) ++ drop 20 packet) % 65535 ≡ 0)
    × (slice 26 28 packet ≢ zeros)
build_udp_response-checksum_example =
    build_udp_response-checksum 1 2 53 4000 9 (7 ∷ []) (omega arith, tt) (omega arith)

-- A codec that reads every message as a query for the canary, and writes a message as its identifier.
abbrev codec : Codec
codec = record {
  from_vec = λ bytes. some (record {
    id = 7;
    op_code = 0;
    is_query = true;
    recursion_desired = true;
    recursion_available = false;
    response_code = no_error;
    queries =
        record { name = default_doh_canary; query_type = RecordType.other 1; query_class = 1 } ∷ [];
  });
  response = λ id op_code. record {
    id = id;
    op_code = op_code;
    is_query = false;
    recursion_desired = false;
    recursion_available = false;
    response_code = no_error;
    queries = [];
  };
  add_queries = λ message queries. record message { queries = message.queries ++ queries };
  to_vec = λ message. some (message.id ∷ []);
}

abbrev blocking : EffectiveDnsPolicy
blocking = record policy { block_encrypted_dns = true }

-- A query from port 4000 to port 53.
abbrev query : List ℕ
query =
    0x45
    ∷ 0
    ∷ 0
    ∷ 28
    ∷ 0
    ∷ 0
    ∷ 0
    ∷ 0
    ∷ 64
    ∷ 17
    ∷ (replicate 10 0 ++ (0x0f ∷ 0xa0 ∷ 0 ∷ 53 ∷ 0 ∷ 8 ∷ 0 ∷ 0 ∷ []))

abbrev response : List ℕ
response =
    0x45
    ∷ 0
    ∷ 0
    ∷ 29
    ∷ 0
    ∷ 0
    ∷ 0x40
    ∷ 0
    ∷ 64
    ∷ 17
    ∷ 58
    ∷ 209
    ∷ (replicate 8 0 ++ (0 ∷ 53 ∷ 0x0f ∷ 0xa0 ∷ 0 ∷ 9 ∷ 233 ∷ 7 ∷ 7 ∷ []))

query-Bytes : Bytes query
query-Bytes =
    All-append IsByte (0x45 ∷ 0 ∷ 0 ∷ 28 ∷ 0 ∷ 0 ∷ 0 ∷ 0 ∷ 64 ∷ 17 ∷ [])
      (replicate 10 0 ++ (0x0f ∷ 0xa0 ∷ 0 ∷ 53 ∷ 0 ∷ 8 ∷ 0 ∷ 0 ∷ []))
      (
        omega arith,
        (
          omega arith,
          (
            omega arith,
            (
              omega arith,
              (
                omega arith,
                (omega arith, (omega arith, (omega arith, (omega arith, (omega arith, tt))))),
              ),
            ),
          ),
        ),
      )
      (All-append IsByte (replicate 10 0) (0x0f ∷ 0xa0 ∷ 0 ∷ 53 ∷ 0 ∷ 8 ∷ 0 ∷ 0 ∷ [])
        (replicate-Bytes 10)
        (
          omega arith,
          (
            omega arith,
            (
              omega arith,
              (omega arith, (omega arith, (omega arith, (omega arith, (omega arith, tt))))),
            ),
          ),
        ))

process-answers_example :
    (engine_enabled blocking ≡ true)
    × (ip ip' : Ipv4Packet) × (udp udp' : UdpPacket) × (request : Message) × (query_ : Query)
    × (code : ResponseCode) × (parse_ipv4 query ≡ some ip)
    × (ip.fragmented ≡ false)
    × (ip.protocol ≡ 17)
    × (parse_udp ip.payload ≡ some udp)
    × (udp.destination_port ≡ 53)
    × Asked codec udp.payload request query_
    × Chosen blocking query_ code
    × (parse_ipv4 response ≡ some ip')
    × (ip'.fragmented ≡ false)
    × (ip'.protocol ≡ 17)
    × (ip'.source ≡ ip.destination)
    × (ip'.destination ≡ ip.source)
    × (ip'.identification ≡ ip.identification)
    × (parse_udp ip'.payload ≡ some udp')
    × (udp'.source_port ≡ udp.destination_port)
    × (udp'.destination_port ≡ udp.source_port)
    × (codec.to_vec (response_for codec request query_ code) ≡ some udp'.payload)
unfolding process engine_enabled parse_ipv4 from_be parse_udp blocks_doh_host bytes_eq
    normalize_name build_udp_response u16_to_be u32_to_be
process-answers_example = process-answers codec blocking query response query-Bytes refl
