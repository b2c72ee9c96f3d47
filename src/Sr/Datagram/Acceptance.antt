-- ===== src/Sr/Datagram/Acceptance.antt =====
-- src/sr.rs: what `decode_datagram` accepts.
use openiwan.Prelude.{
  ℕ, ◌+◌, ◌≤◌, ◌≡◌, ◌⊎◌, inl, inr, sym, ap, ◌∙◌, Bool, true, false, List, [], length, drop,
  append-nil, arith,
}
use openiwan.Error.{ok, >>=-eq-ok, Result-cases}
use openiwan.Protocol.Types.{
  PacketType, echo_request, echo_response, ip_fragment, ip_fragment_ipv6, data_packet, data_ipv6,
  data_encrypted,
}
use openiwan.Protocol.Header.{PacketHeader, decode_inner}
use openiwan.Protocol.Packet.Framing.{bytes_eq_iff}
use openiwan.Crypto.Primitives.{Primitives}
use openiwan.Crypto.Cipher.{DataCipher}
use openiwan.Fragment.Trim.{trim_ip_packet, ip_version, trim_ip_packet_exact}
use openiwan.Sr.Header.{SrHeader, parse, validate_return_path}
use openiwan.Sr.Outer.{SrOuterCipher, decrypt}
use openiwan.Sr.Session.{SrSessionTuple}
use openiwan.Sr.Datagram.{
  SrDecoded, data_of, decode_datagram, plain_of, decode_inner_packet, decode_data, decode_fragment,
  decode_echo_body,
}

return_path_sound :
    (h : SrHeader) (links : List ℕ)
    → validate_return_path h links ≡ ok tt
    → (h.next_id ≡ 0) × (h.links ≡ links)
unfolding validate_return_path
return_path_sound h links e = ground (arith, bytes_eq_iff h.links links)

module _ (p : Primitives) (session : SrSessionTuple) (cipher : DataCipher)
    (outer : SrOuterCipher) where
  decode_datagram_parts :
      (datagram forward_links : List ℕ) (d : SrDecoded)
      → decode_datagram p datagram forward_links session cipher outer ≡ ok d
      → (h : SrHeader) × (n : ℕ) × (inner : PacketHeader) × (parse datagram ≡ ok (h, n))
        × (validate_return_path h forward_links ≡ ok tt)
        × (n + 8 ≤ length datagram)
        × (decode_inner (drop n datagram) ≡ ok inner)
        × (inner.session_id ≡ session.session_id)
        × (inner.token ≡ session.token)
        × (decode_inner_packet p inner.packet_type h inner session cipher outer
              (drop (n + 8) datagram)
            ≡ ok d)
  unfolding decode_datagram
  decode_datagram_parts datagram forward_links d e =
      let (hn, parsed, e1) = >>=-eq-ok (parse datagram) _ e in
      elim (Result-cases (decode_inner (drop hn.1 datagram))) [
        | inl (inner, decoded) ↦ (
          hn.0,
          hn.1,
          inner,
          parsed,
          ground arith,
          ground arith,
          decoded,
          ground arith,
          ground arith,
          ground arith,
        )
        | inr (inl failed) ↦ absurd (ground arith)
        | inr (inr failed) ↦ absurd (ground arith)
      ]

  -- An accepted datagram came back along the configured path: its header parses with next index 0
  -- and exactly the configured links, and the inner header behind it carries the session's
  -- identifier and token.
  pub decode_datagram_authentic :
      (datagram forward_links : List ℕ) (d : SrDecoded)
      → decode_datagram p datagram forward_links session cipher outer ≡ ok d
      → (h : SrHeader) × (n : ℕ) × (inner : PacketHeader) × (parse datagram ≡ ok (h, n))
        × (h.next_id ≡ 0)
        × (h.links ≡ forward_links)
        × (decode_inner (drop n datagram) ≡ ok inner)
        × (inner.session_id ≡ session.session_id)
        × (inner.token ≡ session.token)
  decode_datagram_authentic datagram forward_links d e =
      let (h, n, inner, parsed, path, long, decoded, id, token, rest) =
        decode_datagram_parts datagram forward_links d e in
      let (next, links) = return_path_sound h forward_links path in
      (h, n, inner, parsed, next, links, decoded, id, token)

  decode_data_trimmed :
      (is_encrypted : Bool) (v : ℕ) (h : SrHeader) (inner : PacketHeader) (wire packet : List ℕ)
      → decode_data p is_encrypted v h inner session cipher outer wire ≡ ok (data_of packet)
      → (raw : List ℕ) × (trim_ip_packet raw ≡ ok packet) × (ip_version packet ≡ v)
  unfolding decode_data
  decode_data_trimmed is_encrypted v h inner wire packet e =
      elim (Result-cases (decrypt p outer wire h.padding_length)) [
        | inl (outer_plain, opened) ↦
            elim (Result-cases (plain_of inner session cipher is_encrypted outer_plain)) [
              | inl (raw, unlocked) ↦ (raw, ground arith, ground arith)
              | inr failed ↦ absurd (ground arith)
            ]
        | inr (inl failed) ↦ absurd (ground arith)
        | inr (inr failed) ↦ absurd (ground arith)
      ]

  decode_inner_packet_trimmed :
      (k : PacketType) (h : SrHeader) (inner : PacketHeader) (wire packet : List ℕ)
      → decode_inner_packet p k h inner session cipher outer wire ≡ ok (data_of packet)
      → (raw : List ℕ) × (trim_ip_packet raw ≡ ok packet)
        × ((ip_version packet ≡ 4) ⊎ (ip_version packet ≡ 6))
  unfolding decode_inner_packet decode_fragment decode_echo_body
  decode_inner_packet_trimmed echo_request h inner wire packet e = ground arith
  decode_inner_packet_trimmed echo_response h inner wire packet e = ground arith
  decode_inner_packet_trimmed ip_fragment h inner wire packet e = ground arith
  decode_inner_packet_trimmed ip_fragment_ipv6 h inner wire packet e = ground arith
  decode_inner_packet_trimmed data_packet h inner wire packet e =
      let (raw, trimmed, version) = decode_data_trimmed false 4 h inner wire packet e in
      (raw, trimmed, inl version)
  decode_inner_packet_trimmed data_ipv6 h inner wire packet e =
      let (raw, trimmed, version) = decode_data_trimmed false 6 h inner wire packet e in
      (raw, trimmed, inr version)
  decode_inner_packet_trimmed data_encrypted h inner wire packet e =
      let (raw, trimmed, version) = decode_data_trimmed true 4 h inner wire packet e in
      (raw, trimmed, inl version)
  decode_inner_packet_trimmed _ h inner wire packet e = absurd cc

  -- A packet that is delivered has exactly the length that its IP header declares: trimming it
  -- again gives the packet itself; and its IP version is 4 or 6.
  pub decode_datagram-trim_ip_packet :
      (datagram forward_links packet : List ℕ)
      → decode_datagram p datagram forward_links session cipher outer ≡ ok (data_of packet)
      → (trim_ip_packet packet ≡ ok packet) × ((ip_version packet ≡ 4) ⊎ (ip_version packet ≡ 6))
  decode_datagram-trim_ip_packet datagram forward_links packet e =
      let (h, n, inner, parsed, path, long, decoded, id, token, rest) =
        decode_datagram_parts datagram forward_links (data_of packet) e in
      let (raw, trimmed, version) =
        decode_inner_packet_trimmed inner.packet_type h inner (drop (n + 8) datagram) packet rest in
      (
        sym (ap trim_ip_packet (append-nil packet))
            ∙ (trim_ip_packet_exact raw packet [] trimmed).4,
        version,
      )
