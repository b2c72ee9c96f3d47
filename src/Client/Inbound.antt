-- ===== src/Client/Inbound.antt =====
-- src/client.rs: what a connected session does with one datagram. The device and the socket answer
-- through `Io`; what reaches them is an `Effect`.
use openiwan.Prelude.{
  ℕ, ◌-◌, min, ltb, ◌!=◌, not, if◌then◌else◌, Option, none, some, List, [], ◌∷◌, length,
}
use openiwan.Error.{
  Result, ok, err, stuck, ◌>>=◌, ◌>>◌, bail, io, config_fault, encryption_mismatch, invalid_config,
  invalid_segment_routing,
}
use openiwan.Protocol.Types.{
  PacketType, EncryptionMethod, open_reject, open_ack, open_packet, data_packet, echo_request,
  echo_response, close, data_encrypted, data_dup, data_encrypted_dup, ip_fragment, data_ipv6,
  ip_fragment_ipv6, segment_routing, ping_request, ping_response, no_encryption, method_code,
}
use openiwan.Protocol.Header.{PacketHeader}
use openiwan.Protocol.Packet.{DecodedPacket}
use openiwan.Protocol.Packet.Echo.{decode_echo, build_echo_response}
use openiwan.Crypto.Primitives.{Primitives}
use openiwan.Crypto.Cipher.{DataCipher}
use openiwan.Fragment.Codec.{Fragment, parse_traditional}
use openiwan.Fragment.Traditional.{Pending, insert_in_context}
use openiwan.Fragment.Segmented.{Reassembler}
use openiwan.Config.{monitor_sr_id}
use openiwan.Sr.Monitor.{SrMonitorBody, encode_monitor_datagram}
use openiwan.Sr.Liveness.{SrMonitor, SrMonitorResponder, accept_response, respond}
use openiwan.Sr.Datagram.{
  SrDecoded, data_of, fragment_of, echo_request_of, echo_response_of, decode_datagram,
  insert_fragment, same_method,
}
use openiwan.Client.Session.{SessionInfo, sr_tuple, ConnectedSession, SrRuntime}
use openiwan.Client.Heartbeat.{HeartbeatTracker, u32_max, observe}
use openiwan.Client.Outbound.{validate_inner_packet}

-- The answers of the device and of the socket, and the clocks, during one datagram: nanoseconds for
-- `Instant::now()`, microseconds since the session's start for `monotonic_micros`.
pub record Io : Type 0 where
  pub write_packet : List ℕ → Result ℕ
  pub send : List ℕ → Result (Unit {0})
  pub now : ℕ
  pub now_micros : ℕ

pub data Effect : Type 0 where
  wrote : List ℕ → Effect
  sent : List ℕ → Effect

-- The state that the receive loop keeps, and the two trackers that it shares with the workers.
pub record Link : Type 0 where
  pub traditional : List Pending
  pub segmented : Reassembler
  pub responder : SrMonitorResponder
  pub heartbeat : HeartbeatTracker
  pub monitor : Option SrMonitor

pub data PacketAction : Type 0 where
  continue server_close : PacketAction

abbrev pub Outcome : Type 0
Outcome = Link × List Effect × Result PacketAction

unfoldable pub write_inner_packet : Io → List ℕ → Result (Unit {0})
write_inner_packet env packet = do
  written ← env.write_packet packet
  bail (written != length packet) io

-- A checked packet goes to the device, an error is returned.
unfoldable pub deliver : Io → Link → Result (List ℕ) → Outcome
deliver env link (ok packet) =
    (link, wrote packet ∷ [], write_inner_packet env packet >> ok continue)
deliver env link (err e) = (link, [], err e)
deliver env link stuck = (link, [], stuck)

unfoldable pub deliver_some :
    Io → Link → (List ℕ → Result (List ℕ)) → Result (Option (List ℕ)) → Outcome
unfolding deliver
deliver_some env link check (ok none) = (link, [], ok continue)
deliver_some env link check (ok (some packet)) = deliver env link (check packet)
deliver_some env link check (err e) = (link, [], err e)
deliver_some env link check stuck = (link, [], stuck)

unfoldable pub require_encryption : PacketHeader → EncryptionMethod → Result (Unit {0})
require_encryption header expected =
    bail (not (same_method header.encryption expected))
      (config_fault (encryption_mismatch (method_code header.encryption) (method_code expected)))

-- A body that must be a whole packet in the clear.
unfoldable pub plain_packet : DecodedPacket → Option ℕ → Result (List ℕ)
plain_packet packet expected_version = do
  require_encryption packet.header no_encryption
  validate_inner_packet packet.body expected_version

unfoldable pub decrypted_packet : DataCipher → DecodedPacket → Result (List ℕ)
decrypted_packet cipher packet = do
  require_encryption packet.header cipher.method
  plaintext ← cipher.decrypt packet.body
  validate_inner_packet plaintext none

unfoldable pub fragment_in : DecodedPacket → Result Fragment
fragment_in packet = do
  require_encryption packet.header no_encryption
  parse_traditional packet.body

unfoldable pub process_fragment : Io → ℕ → DecodedPacket → Link → Outcome
process_fragment env expected_version packet link = elim (fragment_in packet) [
  | ok fragment ↦
      let (groups, result) = insert_in_context expected_version fragment env.now link.traditional in
      deliver_some env (record link { traditional = groups })
        (λ inner. validate_inner_packet inner (some expected_version)) result
  | err e ↦ (link, [], err e)
  | stuck ↦ (link, [], stuck)
]

-- `u32::try_from(now - tick).unwrap_or(u32::MAX)`
abbrev pub rtt_of : ℕ → ℕ → ℕ
rtt_of now_micros tick_micros = min (now_micros - tick_micros) u32_max

unfoldable pub process_echo_response : Io → List ℕ → Link → Outcome
process_echo_response env body link = elim (decode_echo body) [
  | ok response ↦
      if ltb env.now_micros response.tick_micros
      then (link, [], err (invalid_config "heartbeat echoed a future monotonic tick"))
      else (
        record link {
          heartbeat = observe env.now (rtt_of env.now_micros response.tick_micros) link.heartbeat;
        },
        [],
        ok continue,
      )
  | err e ↦ (link, [], err e)
  | stuck ↦ (link, [], stuck)
]

-- A datagram that was built is sent, an error is returned.
unfoldable pub reply_with : Io → Link → Result (List ℕ) → Outcome
reply_with env link (ok datagram) = (link, sent datagram ∷ [], env.send datagram >> ok continue)
reply_with env link (err e) = (link, [], err e)
reply_with env link stuck = (link, [], stuck)

module _ (p : Primitives) where
  -- The match on the type of the packet.
  unfoldable pub process_type : PacketType → Io → ConnectedSession → DecodedPacket → Link → Outcome
  process_type data_packet env s packet link = deliver env link (plain_packet packet none)
  process_type data_dup env s packet link = deliver env link (plain_packet packet none)
  process_type data_ipv6 env s packet link = deliver env link (plain_packet packet (some 6))
  process_type data_encrypted env s packet link =
      deliver env link (decrypted_packet s.cipher packet)
  process_type data_encrypted_dup env s packet link =
      deliver env link (decrypted_packet s.cipher packet)
  process_type ip_fragment env s packet link = process_fragment env 4 packet link
  process_type ip_fragment_ipv6 env s packet link = process_fragment env 6 packet link
  process_type echo_response env s packet link = process_echo_response env packet.body link
  process_type echo_request env s packet link =
      reply_with env link (build_echo_response p packet.header packet.body)
  process_type close env s packet link = (link, [], ok server_close)
  process_type ping_request env s packet link = (link, [], ok continue)
  process_type ping_response env s packet link = (link, [], ok continue)
  process_type open_packet env s packet link = (link, [], ok continue)
  process_type open_ack env s packet link = (link, [], ok continue)
  process_type open_reject env s packet link = (link, [], ok continue)
  process_type segment_routing env s packet link = (link, [], ok continue)

  unfoldable pub process_standard_packet : Io → ConnectedSession → DecodedPacket → Link → Outcome
  unfolding process_type
  process_standard_packet env s packet link =
      process_type packet.header.packet_type env s packet link

unfoldable pub reply_to : Io → SessionInfo → SrRuntime → SrMonitorBody → Link → Outcome
reply_to env info runtime request link =
    let (responder, response) = respond request link.responder in
    let link' = record link { responder = responder } in
    elim response [
      | some body ↦
          reply_with env link'
            (encode_monitor_datagram echo_response body runtime.config.links (sr_tuple info))
      | none ↦ (link', [], ok continue)
    ]

unfoldable pub accept_monitor : Io → SrMonitorBody → Link → Option SrMonitor → Outcome
accept_monitor env response link none = (
  link,
  [],
  err (invalid_segment_routing "received SR monitor response while monitoring is disabled"),
)
accept_monitor env response link (some monitor) =
    let (after, result) =
      accept_response response env.now (rtt_of env.now_micros response.tick_micros) monitor in
    if ltb env.now_micros response.tick_micros
    then (link, [], err (invalid_segment_routing "SR response echoed a future tick"))
    else (record link { monitor = some after }, [], result >> ok continue)

unfoldable pub process_decoded : Io → SessionInfo → SrRuntime → Link → SrDecoded → Outcome
unfolding reply_to accept_monitor
process_decoded env info runtime link (data_of packet) = deliver env link (ok packet)
process_decoded env info runtime link (fragment_of packet_type fragment) =
    let (reassembler, result) = insert_fragment packet_type fragment env.now link.segmented in
    deliver_some env (record link { segmented = reassembler }) (λ packet. ok packet) result
process_decoded env info runtime link (echo_request_of request) =
    if request.sr_id != monitor_sr_id runtime.config
    then (link, [], err (invalid_segment_routing "SR monitor request has the wrong SR ID"))
    else reply_to env info runtime request link
process_decoded env info runtime link (echo_response_of response) =
    accept_monitor env response link link.monitor

module _ (p : Primitives) where
  unfoldable pub process_sr : Io → ConnectedSession → Option SrRuntime → List ℕ → Link → Outcome
  process_sr env s none datagram link =
      (link, [], err (invalid_segment_routing "received SR packet in traditional mode"))
  process_sr env s (some runtime) datagram link =
      elim (decode_datagram p datagram runtime.config.links (sr_tuple s.info) s.cipher
        runtime.outer_cipher) [
          | ok decoded ↦ process_decoded env s.info runtime link decoded
          | err e ↦ (link, [], err e)
          | stuck ↦ (link, [], stuck)
        ]

  unfoldable pub process_sr_packet : Io → ConnectedSession → List ℕ → Link → Outcome
  unfolding process_sr
  process_sr_packet env s datagram link = process_sr env s s.sr datagram link
