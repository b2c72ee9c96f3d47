-- ===== src/Client/Closing.antt =====
-- src/client.rs: which datagrams end a session as closed by the server.
pub mod Dispatch
use openiwan.Prelude.{
  ℕ, ◌≡◌, ◌≢◌, ◌⊎◌, ◌↔◌, ◌!=◌, ◌==◌, ◌||◌, ltb, if◌then◌else◌, Bool-cases, inl, inr, refl, ap, sym,
  subst, Bool, true, false, Option, none, some, List, [], ◌∷◌, Option-cases, ◌∙◌, get_or, arith,
}
use openiwan.Prelude.Words.{Bytes}
use openiwan.Error.{Error, Result, ok, err, stuck, io, ◌>>=◌, ◌>>◌, ok-injective, Result-cases}
use openiwan.Protocol.Types.{
  PacketType, data_packet, echo_request, echo_response, close, data_encrypted, data_dup,
  data_encrypted_dup, ip_fragment, data_ipv6, ip_fragment_ipv6, segment_routing, is_control,
  packet_code,
}
use openiwan.Protocol.Header.{PacketHeader, IsValid, encode}
use openiwan.Protocol.Packet.{
  DecodedPacket, decode_packet, encode_control, encode_data, calculate_signature,
}
use openiwan.Protocol.Packet.Echo.{decode_echo}
use openiwan.Protocol.Packet.Framing.{Framed, probe, control, data_form, decode_packet_exact}
use openiwan.Crypto.Primitives.{Primitives, IsLawful}
use openiwan.Fragment.Traditional.{insert_in_context}
use openiwan.Config.{monitor_sr_id}
use openiwan.Sr.Monitor.{SrMonitorBody}
use openiwan.Sr.Liveness.{SrMonitor, respond, accept_response}
use openiwan.Sr.Datagram.{
  SrDecoded, data_of, fragment_of, echo_request_of, echo_response_of, decode_datagram,
  insert_fragment,
}
use openiwan.Client.Session.{SessionInfo, SrRuntime, ConnectedSession, sr_tuple, SessionEnd}
use openiwan.Client.Inbound.{
  Io, Link, PacketAction, server_close, Outcome, deliver, deliver_some, fragment_in,
  process_fragment, process_echo_response, reply_with, process_type, process_standard_packet,
  reply_to, accept_monitor, process_decoded, process_sr, process_sr_packet,
}
use openiwan.Client.Receive.{
  Round, end_of_action, settle, receive_standard, receive_datagram, other_session,
}
use openiwan.Client.Closing.Dispatch.{
  process_type-close, process_sr-Open, end_of_action-close, Open,
}

-- Bytes that close a session with this header: the header alone, or signed.
abbrev pub Closes : Primitives → PacketHeader → List ℕ → Type 0
Closes p h bytes = (bytes ≡ encode h) ⊎ ((body : List ℕ) × (bytes ≡ encode_control p h body))

Framed-close :
    (p : Primitives) (bytes : List ℕ) (d : DecodedPacket)
    → Framed p bytes d
    → d.header.packet_type ≡ close
    → Closes p d.header bytes
unfolding is_control
Framed-close p bytes d (probe k shape) e = inl shape
Framed-close p bytes d (control {body = body} c shape) e = inr (body, shape)
Framed-close p bytes d (data_form {h = h} c not_sr shape) e =
    let clash : true ≡ false = ap is_control (sym e) ∙ c in cc

Closes-first :
    (p : Primitives) (h : PacketHeader) (bytes : List ℕ)
    → Closes p h bytes
    → get_or bytes 0 0 ≡ packet_code h.packet_type
unfolding encode encode_control
Closes-first p h bytes (inl shape) = ap (λ l. get_or l 0 0) shape
Closes-first p h bytes (inr (body, shape)) = ap (λ l. get_or l 0 0) shape

own_session :
    (info : SessionInfo) (d : DecodedPacket)
    → other_session info d ≡ false
    → (d.header.session_id ≡ info.session_id) × (d.header.token ≡ info.token)
unfolding other_session
own_session info d e = ground arith

same_session :
    (info : SessionInfo) (d : DecodedPacket)
    → d.header.session_id ≡ info.session_id
    → d.header.token ≡ info.token
    → other_session info d ≡ false
unfolding other_session
same_session info d e q = ground arith

module _ (p : Primitives) (env : Io) (s : ConnectedSession) (link : Link) where
  abbrev CloseOf : List ℕ → Type 0
  CloseOf bytes =
      (h : PacketHeader) × (h.packet_type ≡ close)
      × (h.session_id ≡ s.info.session_id)
      × (h.token ≡ s.info.token)
      × IsValid h
      × Closes p h bytes

  accepted_close :
      (bytes : List ℕ) (d : DecodedPacket)
      → IsLawful p
      → Bytes bytes
      → decode_packet p bytes ≡ ok d
      → other_session s.info d ≡ false
      → (process_standard_packet p env s d link).2 ≡ ok server_close
      → CloseOf bytes
  unfolding process_standard_packet
  accepted_close bytes d lawful b decoded own e =
      let (framed, valid) = (decode_packet_exact p lawful bytes d b).0 decoded in
      let k = process_type-close env link p s d d.header.packet_type e in
      let (id, token) = own_session s.info d own in
      (d.header, k, id, token, valid, Framed-close p bytes d framed k)

  standard_close :
      (bytes : List ℕ)
      → IsLawful p
      → Bytes bytes
      → (receive_standard p env s bytes link).2 ≡ some SessionEnd.server_close
      → CloseOf bytes
  unfolding receive_standard
  standard_close bytes lawful b e = elim (Result-cases (decode_packet p bytes)) [
    | inl (d, decoded) ↦ elim (Bool-cases (other_session s.info d)) [
      | inl other ↦
          let clash : none ≡ some SessionEnd.server_close =
            rw (receive_standard, decoded, other) at e in
          cc
      | inr own ↦
          let closed = rw (receive_standard, decoded, own) at e in
          accepted_close bytes d lawful b decoded own (end_of_action-close _ closed)
    ]
    | inr (inl (_, failed)) ↦
        let clash : none ≡ some SessionEnd.server_close = rw (receive_standard, failed) at e in cc
    | inr (inr failed) ↦
        let clash : none ≡ some SessionEnd.server_close = rw (receive_standard, failed) at e in cc
  ]

  close_received :
      (bytes : List ℕ) (d : DecodedPacket)
      → (get_or bytes 0 0 == packet_code segment_routing) ≡ false
      → decode_packet p bytes ≡ ok d
      → d.header.packet_type ≡ close
      → other_session s.info d ≡ false
      → (receive_datagram p env s bytes link).2 ≡ some SessionEnd.server_close
  unfolding receive_datagram receive_standard process_standard_packet process_type end_of_action
  close_received bytes d first decoded k own =
      rw (first, receive_standard, decoded, own, k, end_of_action)

  close_decoded :
      (bytes : List ℕ) (h : PacketHeader)
      → IsLawful p
      → Bytes bytes
      → h.packet_type ≡ close
      → IsValid h
      → Closes p h bytes
      → (d : DecodedPacket) × (decode_packet p bytes ≡ ok d) × (d.header ≡ h)
  unfolding is_control
  close_decoded bytes h lawful b k valid (inl shape) =
      let d : DecodedPacket = record { header = h; signature = none; body = [] } in
      (d, (decode_packet_exact p lawful bytes d b).1 (probe k shape, valid), refl)
  close_decoded bytes h lawful b k valid (inr (body, shape)) =
      let d : DecodedPacket = record {
        header = h;
        signature = some (calculate_signature p h);
        body = body;
      } in
      (d, (decode_packet_exact p lawful bytes d b).1 (control (ap is_control k) shape, valid), refl)

  -- Under the laws of the digest, and on bytes, a datagram ends the session as closed by the server
  -- exactly if it is the header of a close, alone or with its signature and any body, with this
  -- session's identifier and token.
  pub receive_datagram_close :
      (bytes : List ℕ)
      → IsLawful p
      → Bytes bytes
      → ((receive_datagram p env s bytes link).2 ≡ some SessionEnd.server_close) ↔ (
          (h : PacketHeader) × (h.packet_type ≡ close)
          × (h.session_id ≡ s.info.session_id)
          × (h.token ≡ s.info.token)
          × IsValid h
          × ((bytes ≡ encode h) ⊎ ((body : List ℕ) × (bytes ≡ encode_control p h body))))
  unfolding receive_datagram process_sr_packet packet_code
  receive_datagram_close bytes lawful b = (
    λ e. elim (Bool-cases (get_or bytes 0 0 == packet_code segment_routing)) [
      | inl sr ↦
          absurd (process_sr-Open env link p s s.sr bytes (end_of_action-close _ (rw sr at e)))
      | inr standard ↦ standard_close bytes lawful b (rw standard at e)
    ],
    λ (h, k, id, token, valid, shape).
        let first = Closes-first p h bytes shape ∙ ap packet_code k in
        let (d, decoded, same) = close_decoded bytes h lawful b k valid shape in
        close_received bytes d (rw first) decoded
          (ap (λ (x : PacketHeader). x.packet_type) same ∙ k)
          (same_session s.info d (ap (λ (x : PacketHeader). x.session_id) same ∙ id)
            (ap (λ (x : PacketHeader). x.token) same ∙ token)),
  )
