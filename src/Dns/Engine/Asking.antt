-- ===== src/Dns/Engine/Asking.antt =====
-- src/dns/packet.rs: what a packet that the engine gives back says of the one that it took.
use openiwan.Prelude.{
  ◌∷◌, [], ◌⊎◌, ℕ, subst, ◌≡◌, refl, ap, ◌∙◌, ◌!=◌, ◌&&◌, ◌||◌, not, if◌then◌else◌, Bool-cases,
  Option-cases, inl, inr, Bool, true, false, Option, none, some, List, arith,
}
use openiwan.Dns.Policy.{
  EffectiveDnsPolicy, engine_enabled, dns_routing_enabled, routes_through_tunnel, blocks_doh_host,
}
use openiwan.Dns.Packet.{
  DnsRelayRequest, DnsPacketAction, pass, inject, relay, Ipv4Packet, UdpPacket, parse_ipv4,
  parse_udp,
}
use openiwan.Dns.Engine.{
  ResponseCode, nx_domain, no_error, RecordType, aaaa, is_aaaa, Query, Message, Codec, one_of,
  with_query, response_to, synthetic_response, asked, port_of, is_encrypted_port, synthetic,
  inject_or_pass, relay_request, response_packet, respond_with, answer_query, process_udp,
  process_payload, process_ip, process,
}

-- The bytes are a message that is a query with one question.
abbrev pub Asked : Codec → List ℕ → Message → Query → Type 0
Asked codec bytes request query =
    (codec.from_vec bytes ≡ some request)
    × (request.is_query ≡ true)
    × (request.queries ≡ query ∷ [])

-- NXDOMAIN for the name of a DNS-over-HTTPS host; no error for another name's IPv6 address while the
-- policy routes names.
abbrev pub Chosen : EffectiveDnsPolicy → Query → ResponseCode → Type 0
Chosen policy query code =
    ((blocks_doh_host policy query.name ≡ true) × (code ≡ nx_domain))
    ⊎ ((blocks_doh_host policy query.name ≡ false)
        × (dns_routing_enabled policy ≡ true)
        × (query.query_type ≡ aaaa)
        × (code ≡ no_error))

asked-Asked :
    (codec : Codec) (bytes : List ℕ) (request : Message) (query : Query)
    → asked (codec.from_vec bytes) ≡ some (request, query)
    → Asked codec bytes request query
unfolding asked
asked-Asked codec bytes request query e = go (codec.from_vec bytes) refl e
  where
    one :
        (m : Message) (is_query : Bool) (queries : List Query)
        → m.is_query ≡ is_query
        → m.queries ≡ queries
        → with_query m (one_of is_query queries) ≡ some (request, query)
        → (m ≡ request) × (m.is_query ≡ true) × (m.queries ≡ query ∷ [])
    one m true (x ∷ []) hq hl q =
        let same : m ≡ request = cc in
        let only : x ≡ query = cc in (same, hq, hl ∙ ap (λ y. y ∷ []) only)
    one m true [] hq hl q = cc
    one m true (x ∷ (y ∷ more)) hq hl q = cc
    one m false queries hq hl q = cc

    go :
        (found : Option Message)
        → codec.from_vec bytes ≡ found
        → asked found ≡ some (request, query)
        → Asked codec bytes request query
    go none h q = cc
    go (some m) h q =
        let (same, is_query, queries) = one m m.is_query m.queries refl refl q in
        (
          h ∙ ap some same,
          subst (λ (x : Message). x.is_query ≡ true) same is_query,
          subst (λ (x : Message). x.queries ≡ query ∷ []) same queries,
        )

module _ (codec : Codec) (r : List ℕ) where
  pub respond_with-inject :
      (q : DnsRelayRequest) (request : Message) (code : ResponseCode)
      → respond_with codec q request code ≡ inject r
      → (dns : List ℕ) × (synthetic_response codec request code ≡ some dns)
        × (response_packet q dns ≡ some r)
  unfolding respond_with inject_or_pass
  respond_with-inject q request code e =
      elim (Option-cases (synthetic_response codec request code)) [
        | inl silent ↦ let clash : pass ≡ inject r = rw (respond_with, silent) at e in cc
        | inr (dns, said) ↦
            (dns, said, built (response_packet q dns) (rw (respond_with, said) at e))
      ]
    where
      built : (o : Option (List ℕ)) → inject_or_pass o ≡ inject r → o ≡ some r
      built none h = cc
      built (some x) h = cc

synthetic-Chosen :
    (policy : EffectiveDnsPolicy) (query : Query) (code : ResponseCode)
    → synthetic policy query ≡ some code
    → Chosen policy query code
unfolding synthetic
synthetic-Chosen policy query code e =
    go (blocks_doh_host policy query.name) (dns_routing_enabled policy) (query.query_type) refl refl
      refl e
  where
    go :
        (blocked routed : Bool) (asked_type : RecordType)
        → blocks_doh_host policy query.name ≡ blocked
        → dns_routing_enabled policy ≡ routed
        → query.query_type ≡ asked_type
        → (if blocked
            then some nx_domain
            else if routed && is_aaaa asked_type
            then some no_error
            else none)
          ≡ some code
        → Chosen policy query code
    go true routed asked_type hb hr ht q = inl (hb, cc)
    go false true aaaa hb hr ht q = inr (hb, hr, ht, cc)
    go false true (RecordType.other n) hb hr ht q = cc
    go false false asked_type hb hr ht q = cc

module _ (codec : Codec) (policy : EffectiveDnsPolicy) (r : List ℕ) where
  pub answer_query-inject :
      (q : DnsRelayRequest) (request : Message) (query : Query)
      → answer_query codec policy q request query ≡ inject r
      → (code : ResponseCode) × Chosen policy query code
        × (respond_with codec q request code ≡ inject r)
  unfolding answer_query
  answer_query-inject q request query e = elim (Option-cases (synthetic policy query)) [
    | inl own ↦ absurd (
        goes_on (not (dns_routing_enabled policy) || routes_through_tunnel policy query.name)
          (rw (answer_query, own) at e))
    | inr (code, found) ↦
        (code, synthetic-Chosen policy query code found, rw (answer_query, found) at e)
  ]
    where
      goes_on : (b : Bool) → (if b then pass else relay q) ≡ inject r → ⊥
      goes_on true h = cc
      goes_on false h = cc

  pub process_udp-inject :
      (ip : Ipv4Packet) (udp : UdpPacket)
      → process_udp codec policy ip udp ≡ inject r
      → (udp.destination_port ≡ 53)
        × (request : Message) × (query : Query) × Asked codec udp.payload request query
        × (answer_query codec policy (relay_request ip udp) request query ≡ inject r)
  unfolding process_udp
  process_udp-inject ip udp e = elim (Bool-cases (udp.destination_port != 53)) [
    | inl other ↦ let clash : pass ≡ inject r = rw (process_udp, other) at e in cc
    | inr dns ↦ elim (Option-cases (asked (codec.from_vec udp.payload))) [
      | inl no_query ↦ let clash : pass ≡ inject r = rw (process_udp, dns, no_query) at e in cc
      | inr ((request, query), found) ↦ (
        ground arith,
        request,
        query,
        asked-Asked codec udp.payload request query found,
        rw (process_udp, dns, found) at e,
      )
    ]
  ]

  pub process_ip-inject :
      (ip : Ipv4Packet)
      → process_ip codec policy ip ≡ inject r
      → (udp : UdpPacket) × (ip.fragmented ≡ false)
        × (ip.protocol ≡ 17)
        × (parse_udp ip.payload ≡ some udp)
        × (process_udp codec policy ip udp ≡ inject r)
  unfolding process_ip
  process_ip-inject ip e =
      go ip.fragmented (policy.block_encrypted_dns && is_encrypted_port (port_of ip))
        (ip.protocol != 17) (parse_udp ip.payload) refl refl e
    where
      go :
          (fragmented blocked other : Bool) (found : Option UdpPacket)
          → ip.fragmented ≡ fragmented
          → (ip.protocol != 17) ≡ other
          → (if fragmented
              then pass
              else if blocked
              then DnsPacketAction.drop
              else if other
              then pass
              else process_payload codec policy ip found)
            ≡ inject r
          → (udp : UdpPacket) × (ip.fragmented ≡ false)
            × (ip.protocol ≡ 17)
            × (found ≡ some udp)
            × (process_udp codec policy ip udp ≡ inject r)
      go true blocked other found hf hp q = cc
      go false true other found hf hp q = cc
      go false false true found hf hp q = cc
      go false false false none hf hp q = cc
      go false false false (some udp) hf hp q = (udp, hf, ground arith, refl, q)

  pub process-inject :
      (packet : List ℕ)
      → process codec policy packet ≡ inject r
      → (engine_enabled policy ≡ true)
        × (ip : Ipv4Packet) × (parse_ipv4 packet ≡ some ip)
        × (process_ip codec policy ip ≡ inject r)
  unfolding process
  process-inject packet e = elim (Bool-cases (not (engine_enabled policy))) [
    | inl idle ↦ let clash : pass ≡ inject r = rw (process, idle) at e in cc
    | inr busy ↦ elim (Option-cases (parse_ipv4 packet)) [
      | inl other ↦ let clash : pass ≡ inject r = rw (process, busy, other) at e in cc
      | inr (ip, found) ↦ (ground arith, ip, found, rw (process, busy, found) at e)
    ]
  ]

-- The response of a code to a query with one question.
abbrev pub response_for : Codec → Message → Query → ResponseCode → Message
response_for codec request query code =
    codec.add_queries
      (record (codec.response request.id request.op_code) {
        recursion_desired = request.recursion_desired;
        recursion_available = true;
        response_code = code;
      })
      (query ∷ [])

pub synthetic_response_lem :
    (codec : Codec) (bytes : List ℕ) (request : Message) (query : Query) (code : ResponseCode)
    (dns : List ℕ)
    → Asked codec bytes request query
    → synthetic_response codec request code ≡ some dns
    → codec.to_vec (response_for codec request query code) ≡ some dns
unfolding synthetic_response response_to
synthetic_response_lem codec bytes request query code dns (_, _, one) said = rw one at said
