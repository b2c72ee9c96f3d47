-- ===== src/Client/Closure.antt =====
-- src/client.rs: how a session is closed, and the ping. `Drop` closes a session too.
pub mod Once
use openiwan.Prelude.{
  ℕ, ◌==◌, ◌!=◌, ◌||◌, not, if◌then◌else◌, Bool, true, false, List, [], ◌∷◌, ◌++◌, length,
}
use openiwan.Error.{
  Error, Result, ok, err, stuck, ◌>>=◌, ◌>>◌, bail, io, timeout, invalid_ping_response,
}
use openiwan.Protocol.Types.{EncryptionMethod, no_encryption, close, ping_response, packet_code}
use openiwan.Protocol.Packet.{
  DecodedPacket, control_prefix_len, decode_packet, build_close, build_probe_close,
}
use openiwan.Crypto.Primitives.{Primitives}
use openiwan.Sr.Datagram.{same_method}
use openiwan.Client.Session.{SessionInfo, header}
use openiwan.Client.Receive.{Received, datagram, nothing, failed}

-- The two flags of a session.
pub record Flags : Type 0 where
  pub running : Bool
  pub close_sent : Bool

-- The flags after the call, what was sent, and the result.
abbrev pub Sending : Type 0
Sending = Flags × List (List ℕ) × Result (Unit {0})

-- `if !self.close_sent.swap(true)` around a send.
abbrev pub send_once : (List ℕ → Result (Unit {0})) → List ℕ → Flags → Sending
send_once send bytes flags = (
  record flags { close_sent = true },
  if flags.close_sent then [] else bytes ∷ [],
  if flags.close_sent then ok tt else send bytes,
)

abbrev pub stopped : Flags → Flags
stopped flags = record flags { running = false }

module _ (p : Primitives) (send : List ℕ → Result (Unit {0})) (info : SessionInfo) where
  unfoldable pub send_close_once : Flags → Sending
  send_close_once flags = send_once send (build_close p (header info close)) flags

  unfoldable pub close_session : Flags → Sending
  unfolding send_close_once
  close_session flags = send_close_once (stopped flags)

  unfoldable pub close_probe : Flags → Sending
  close_probe flags = send_once send (build_probe_close (header info close)) (stopped flags)

  -- `Drop` drops the error.
  unfoldable pub drop_session : Flags → Sending
  unfolding send_close_once
  drop_session flags = let (after, out, _) = send_close_once (stopped flags) in (after, out, ok tt)

abbrev pub ping_session_id : ℕ
ping_session_id = 0xffff

abbrev pub ping_token : ℕ
ping_token = 0xffff_ffff

-- The answer to a ping: a signed response with nothing in it, of the reserved session.
unfoldable pub is_ping_response : DecodedPacket → Bool
is_ping_response response = not (
    packet_code response.header.packet_type != packet_code ping_response
    || not (same_method response.header.encryption no_encryption)
    || response.header.session_id != ping_session_id
    || response.header.token != ping_token
    || length response.body != 0)

module _ (p : Primitives) where
  unfoldable pub check_ping : List ℕ → Result (Unit {0})
  unfolding is_ping_response
  check_ping bytes = do
    bail (length bytes != control_prefix_len) invalid_ping_response
    response ← decode_packet p bytes
    bail (not (is_ping_response response)) invalid_ping_response

  unfoldable pub answer : Received → Result (Unit {0})
  unfolding check_ping
  answer (datagram bytes) = check_ping bytes
  answer nothing = err (timeout "ping")
  answer failed = err io

  -- `sent` is what opening the socket and sending the request give.
  unfoldable pub ping : Result (Unit {0}) → Received → Result (Unit {0})
  unfolding answer
  ping sent received = sent >> answer received
