-- ===== src/Client/Tunnel.antt =====
-- src/client.rs: a packet from the sender of one end to the receiver of the other, over the same
-- session. Both ends derive the cipher from the same credentials.
pub mod Reading
use openiwan.Prelude.{
  ℕ, ◌+◌, ◌-◌, ◌≤◌, ◌<◌, ◌==◌, ltb, le→ltb, if◌then◌else◌, ◌≡◌, ◌≢◌, ◌⊎◌, inl, inr, refl, sym, ap,
  ◌∙◌, subst, Bool, true, false, Option, none, some, List, [], ◌∷◌, ◌++◌, length, replicate,
  append-nil, All-append, All-take, get_or, arith,
}
use openiwan.Prelude.Words.{Bytes, IsByte, IsU16, IsU32}
use openiwan.Error.{Result, ok, ◌>>=◌, ◌>>◌, ok-injective}
use openiwan.Protocol.Types.{
  PacketType, EncryptionMethod, data_packet, data_encrypted, segment_routing, no_encryption, xor,
  aes, is_control, packet_code, method_code,
}
use openiwan.Protocol.Header.{PacketHeader, IsValid, encode}
use openiwan.Protocol.Header.RoundTrip.{encode-Bytes}
use openiwan.Protocol.Packet.{DecodedPacket, decode_packet, encode_data}
use openiwan.Protocol.Packet.Framing.{Framed, data_form, decode_packet_exact}
use openiwan.Crypto.Primitives.{Primitives, IsLawful}
use openiwan.Crypto.Keys.{derive_session_key, length-derive_session_key, derive_session_key-Bytes}
use openiwan.Crypto.Cipher.{DataCipher, create_cipher, no_cipher, xor_cipher, aes_cipher}
use openiwan.Crypto.Xor.{xor_cipher-round_trip}
use openiwan.Crypto.Aes.{aes_cipher-round_trip}
use openiwan.Fragment.Trim.{trim_ip_packet, trim_ip_packet_exact}
use openiwan.Client.Session.{SessionInfo, ConnectedSession, SessionEnd}
use openiwan.Client.Outbound.{
  validate_inner_packet, traditional_parts, send_packet, encapsulate, data_header,
  encode_traditional_data,
}
use openiwan.Client.Inbound.{
  Io, Link, wrote, PacketAction, deliver, write_inner_packet, require_encryption, plain_packet,
  decrypted_packet, process_type, process_standard_packet,
}
use openiwan.Client.Receive.{
  settle, end_of_action, other_session, receive_standard, receive_datagram,
}
use openiwan.Client.Tunnel.Reading.{ReadBack, Parts, cipher-Parts}

delivered :
    (env : Io) (link : Link) (r : Result (List ℕ)) (packet : List ℕ)
    → r ≡ ok packet
    → env.write_packet packet ≡ ok (length packet)
    → settle (deliver env link r) ≡ (link, wrote packet ∷ [], none)
unfolding deliver write_inner_packet end_of_action
delivered env link r packet e wrote_all = rw e (ground (arith, wrote_all))

module _ (p : Primitives) (s : ConnectedSession) (env : Io) (link : Link) (packet : List ℕ)
    (wrote_all : env.write_packet packet ≡ ok (length packet)) where
  data_processed :
      (k : PacketType) (h : PacketHeader) (payload : List ℕ)
      → ReadBack s.cipher k h.encryption payload packet
      → settle
          (process_type p k env s (record { header = h; signature = none; body = payload }) link)
        ≡ (link, wrote packet ∷ [], none)
  unfolding process_type
  data_processed k h payload back = elim (back h refl) [
    | inl (is_data, plain) ↦ rw is_data (delivered env link _ packet plain wrote_all)
    | inr (sealed, opened) ↦ rw sealed (delivered env link _ packet opened wrote_all)
  ]

  own_session :
      (k : PacketType) (e : EncryptionMethod) (signature : Option (List ℕ)) (body : List ℕ)
      → other_session s.info
          (record { header = data_header s.info k e; signature = signature; body = body })
        ≡ false
  unfolding other_session
  own_session k e signature body = ground arith

  data_received :
      (k : PacketType) (e : EncryptionMethod) (payload : List ℕ)
      → (packet_code k == packet_code segment_routing) ≡ false
      → ReadBack s.cipher k e payload packet
      → decode_packet p (encode_data (data_header s.info k e) payload)
        ≡ ok (record { header = data_header s.info k e; signature = none; body = payload })
      → receive_datagram p env s (encode_data (data_header s.info k e) payload) link
        ≡ (link, wrote packet ∷ [], none)
  unfolding receive_datagram receive_standard process_standard_packet
  data_received k e payload not_sr back decoded =
      let first : (get_or (encode_data (data_header s.info k e) payload) 0 0
            == packet_code segment_routing)
          ≡ false =
        unfold encode_data encode in not_sr in
      rw (first, receive_standard, decoded, own_session k e none payload)
        (data_processed k (data_header s.info k e) payload back)

data_types :
    (c : DataCipher) (k : PacketType) (e : EncryptionMethod) (payload packet : List ℕ)
    (h : PacketHeader)
    → h.encryption ≡ e
    → ReadBack c k e payload packet
    → (is_control k ≡ false)
      × (k ≢ segment_routing)
      × ((packet_code k == packet_code segment_routing) ≡ false)
unfolding is_control packet_code
data_types c k e payload packet h same back = elim (back h same) [
  | inl (is_data, _) ↦ rw is_data (refl, (λ q. cc), refl)
  | inr (sealed, _) ↦ rw sealed (refl, (λ q. cc), refl)
]

tunnel_datagram :
    (p : Primitives)
    → IsLawful p
    → (username password packet : List ℕ) (s : ConnectedSession) (env : Io) (link : Link)
    → create_cipher p s.info.encryption username password ≡ ok s.cipher
    → IsU16 s.info.session_id
    → IsU32 s.info.token
    → Bytes packet
    → trim_ip_packet packet ≡ ok packet
    → length packet ≤ s.info.mtu
    → env.write_packet packet ≡ ok (length packet)
    → (d : List ℕ) × (encode_traditional_data packet s.info s.cipher ≡ ok (d ∷ []))
      × (receive_datagram p env s d link ≡ (link, wrote packet ∷ [], none))
tunnel_datagram p lawful username password packet s env link made id16 token32 bytes trimmed fits
      wrote_all =
    let (k, e, payload, shape, closed, back) =
      cipher-Parts p lawful username password packet bytes trimmed s.info.encryption s.cipher
        made in
    let h = data_header s.info k e in
    let (not_control, not_sr, first) = data_types s.cipher k e payload packet h refl back in
    let d = encode_data h payload in
    let input : Bytes d = unfold encode_data in All-append IsByte _ _ (encode-Bytes h) closed in
    let valid : IsValid h = record { session_id_range = id16; token_range = token32 } in
    (
      d,
      unfold encode_traditional_data in rw (le→ltb s.info.mtu (length packet) fits, shape),
      data_received p s env link packet wrote_all k e payload first back
          ((decode_packet_exact p lawful d _ input).1 (data_form not_control not_sr refl, valid)),
    )

sent_alone :
    (p : Primitives) (s : ConnectedSession) (buffer packet : List ℕ) (ds : List (List ℕ))
    → trim_ip_packet buffer ≡ ok packet
    → encode_traditional_data packet s.info s.cipher ≡ ok ds
    → send_packet p s none buffer ≡ (none, ds)
unfolding send_packet encapsulate validate_inner_packet
sent_alone p s buffer packet ds trimmed sealed = rw (send_packet, trimmed, encapsulate, sealed)

-- A device buffer of bytes that starts with a whole IP packet no longer than the MTU becomes one
-- datagram at the sender of a session without segment routing, whichever cipher the credentials
-- give; at the receiver of the same session, with a device that takes the packet whole, the datagram
-- writes exactly the packet, changes no tracker and no reassembly state, and does not end the
-- session.
pub tunnel_delivers :
    (p : Primitives)
    → IsLawful p
    → (username password buffer packet : List ℕ) (s : ConnectedSession) (env : Io) (link : Link)
    → create_cipher p s.info.encryption username password ≡ ok s.cipher
    → IsU16 s.info.session_id
    → IsU32 s.info.token
    → Bytes buffer
    → trim_ip_packet buffer ≡ ok packet
    → length packet ≤ s.info.mtu
    → env.write_packet packet ≡ ok (length packet)
    → (d : List ℕ) × (send_packet p s none buffer ≡ (none, d ∷ []))
      × (receive_datagram p env s d link ≡ (link, wrote packet ∷ [], none))
tunnel_delivers p lawful username password buffer packet s env link made id16 token32 bytes trimmed
      fits wrote_all =
    let (cut, _, _, _, whole) = trim_ip_packet_exact buffer packet [] trimmed in
    let again = ap trim_ip_packet (sym (append-nil packet)) ∙ whole in
    let closed = subst Bytes (sym cut) (All-take IsByte (length packet) buffer bytes) in
    let (d, sealed, opened) =
      tunnel_datagram p lawful username password packet s env link made id16 token32 closed again
        fits wrote_all in
    (d, sent_alone p s buffer packet (d ∷ []) trimmed sealed, opened)
