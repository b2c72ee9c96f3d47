-- ===== src/Sr/Datagram/Return.antt =====
-- src/sr.rs: `decode_datagram` on datagrams that came back along the configured path.
use openiwan.Prelude.{
  ℕ, ◌+◌, ◌*◌, ◌≤◌, ◌≡◌, refl, sym, ap, ◌∙◌, false, List, [], ◌++◌, length, length-append,
  append-nil, subst, drop, drop-append, drop-drop, ltb, le→ltb, ==_iff, arith,
}
use openiwan.Prelude.Words.{Bytes, IsU16, IsU32}
use openiwan.Error.{ok, ok-injective}
use openiwan.Protocol.Types.{echo_response, data_packet, no_encryption}
use openiwan.Protocol.Header.{PacketHeader, encode, decode_inner}
use openiwan.Protocol.Header as PacketHeaders
use openiwan.Protocol.Header.RoundTrip.{decode_inner-encode, length-encode}
use openiwan.Protocol.Packet.Framing.{bytes_eq_iff}
use openiwan.Crypto.Primitives.{Primitives, IsLawful}
use openiwan.Crypto.Cipher.{DataCipher}
use openiwan.Fragment.Trim.{trim_ip_packet, ip_version}
use openiwan.Sr.Header.{
  SrHeader, SrEncryptionAlgorithm, wire, validate_return_path, validate_links, no_outer,
  is_no_outer, algorithm_code,
}
use openiwan.Sr.Header.Exact.{IsValid, any_bad, parse-wire, length-link_bytes}
use openiwan.Sr.Outer.{SrOuterCipher, new, encrypt, decrypt}
use openiwan.Sr.Outer.RoundTrip.{decrypt-encrypt}
use openiwan.Sr.Session.{SrSessionTuple, header}
use openiwan.Sr.Monitor.{SrMonitorBody, IsValidBody}
use openiwan.Sr.Monitor
use openiwan.Sr.Monitor.RoundTrip.{decode_body-encode}
use openiwan.Sr.Datagram.{
  data_of, echo_response_of, decode_datagram, decode_inner_packet, decode_data, decode_echo_body,
  plain_of, is_plain,
}

-- The header of a datagram that has reached the end of its path.
pub record Returned (h : SrHeader) (forward_links : List ℕ) : Type 0 where
  pub valid : IsValid h
  pub at_end : h.next_id ≡ 0
  pub same_path : h.links ≡ forward_links

-- The fields of `session_id : u16` and `token : u32`.
pub record IsValidSession (session : SrSessionTuple) : Type 0 where
  pub session_id_range : IsU16 session.session_id
  pub token_range : IsU32 session.token

length-wire : (h : SrHeader) → length (wire h) ≡ 4 + 4 * length h.links
unfolding wire
length-wire h = omega (arith, length-link_bytes h.links)

links_accepted : (h : SrHeader) → IsValid h → validate_links h.links ≡ ok tt
unfolding validate_links
links_accepted h v = ground (arith, (any_bad h.links).1 v.links_range)

return_path_accepted :
    (h : SrHeader) (links : List ℕ) → Returned h links → validate_return_path h links ≡ ok tt
unfolding validate_return_path
return_path_accepted h links r =
    let same = (bytes_eq_iff h.links h.links).1 refl in
    let good = links_accepted h r.valid in rw (sym r.same_path) (rw (good, r.at_end, same) refl)

module _ (p : Primitives) (session : SrSessionTuple) (cipher : DataCipher)
    (outer : SrOuterCipher) where
  decode-Returned :
      (h : SrHeader) (inner : PacketHeader) (payload forward_links : List ℕ)
      → Returned h forward_links
      → PacketHeaders.IsValid inner
      → inner.session_id ≡ session.session_id
      → inner.token ≡ session.token
      → decode_datagram p (wire h ++ (encode inner ++ payload)) forward_links session cipher outer
        ≡ decode_inner_packet p inner.packet_type h inner session cipher outer payload
  unfolding decode_datagram
  decode-Returned h inner payload forward_links r v id token =
      let n = 4 + 4 * length h.links in
      let body = encode inner ++ payload in
      let parsed = parse-wire h body r.valid in
      let path = return_path_accepted h forward_links r in
      let front : drop n (wire h ++ body) ≡ body = drop-append n (wire h) body (length-wire h) in
      let long : ltb (length (wire h ++ body)) (n + 8) ≡ false = le→ltb _ _ (
        omega (
          arith,
          length-append (wire h) body,
          length-append (encode inner) payload,
          length-wire h,
          length-encode inner,
        )) in
      let decoded = decode_inner-encode inner payload v in
      let rest : drop (n + 8) (wire h ++ body) ≡ payload =
        sym (drop-drop 8 n (wire h ++ body))
        ∙ ap (drop 8) front
        ∙ drop-append 8 (encode inner) payload (length-encode inner) in
      let same_id = (==_iff session.session_id session.session_id).1 refl in
      rw (parsed, path, long, front, decoded, rest) (ground arith)

  -- A returned datagram with an unwrapped echo response of the session is decoded to the monitor
  -- body that it carries.
  pub decode_datagram-echo_response :
      (h : SrHeader) (b : SrMonitorBody) (forward_links : List ℕ)
      → Returned h forward_links
      → h.algorithm ≡ no_outer
      → h.padding_length ≡ 0
      → IsValidSession session
      → IsValidBody b
      → decode_datagram p
          (wire h ++ (encode (header session echo_response no_encryption) ++ Monitor.encode b))
          forward_links
          session
          cipher
          outer
        ≡ ok (echo_response_of b)
  unfolding header decode_inner_packet decode_echo_body is_no_outer is_plain
  decode_datagram-echo_response h b forward_links r plain unpadded v range =
      let body =
        ap Monitor.decode (sym (append-nil (Monitor.encode b))) ∙ decode_body-encode b [] range in
      let valid : PacketHeaders.IsValid (header session echo_response no_encryption) = record {
        session_id_range = v.session_id_range;
        token_range = v.token_range;
      } in
      decode-Returned h (header session echo_response no_encryption) (Monitor.encode b)
        forward_links r valid refl refl
      ∙ rw (plain, unpadded, body) refl

  -- Under the laws of the block ciphers: an IPv4 packet that is its own trimming, sent without inner
  -- encryption under an outer cipher made by `new`, is delivered unchanged from a returned datagram
  -- whose header carries that cipher's algorithm and the padding that `encrypt` returned.
  pub decode_datagram-encrypt :
      IsLawful p
      → (a : SrEncryptionAlgorithm) (raw : List ℕ) (h : SrHeader)
        (packet out forward_links : List ℕ)
      → new a raw ≡ ok outer
      → Bytes packet
      → 1 ≤ length packet
      → trim_ip_packet packet ≡ ok packet
      → ip_version packet ≡ 4
      → encrypt p outer packet ≡ ok (out, h.padding_length)
      → h.algorithm ≡ outer.algorithm
      → Returned h forward_links
      → IsValidSession session
      → decode_datagram p
          (wire h ++ (encode (header session data_packet no_encryption) ++ out))
          forward_links
          session
          cipher
          outer
        ≡ ok (data_of packet)
  unfolding header decode_inner_packet decode_data plain_of is_plain
  decode_datagram-encrypt lawful a raw h packet out forward_links made bytes some trimmed v4 sent
        same r v =
      let (out', padding, sent', back, small, size, range) =
        decrypt-encrypt p lawful a raw outer packet made bytes some in
      let pair : (out', padding) ≡ (out, h.padding_length) = ok-injective (sym sent' ∙ sent) in
      let opened : decrypt p outer out h.padding_length ≡ ok packet =
        subst (λ (c : List ℕ × ℕ). decrypt p outer c.0 c.1 ≡ ok packet) pair back in
      let valid : PacketHeaders.IsValid (header session data_packet no_encryption) = record {
        session_id_range = v.session_id_range;
        token_range = v.token_range;
      } in
      decode-Returned h (header session data_packet no_encryption) out forward_links r valid refl
        refl
      ∙ ground (arith, ==_iff (algorithm_code outer.algorithm) (algorithm_code outer.algorithm))
