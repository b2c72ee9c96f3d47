-- ===== src/Client/Outbound.antt =====
-- src/client.rs: the packet sender: one packet from the device becomes datagrams.
use openiwan.Prelude.{ℕ, ltb, Option, none, some, List, [], ◌∷◌, length}
use openiwan.Error.{Result, ok, err, stuck, ◌>>=◌, ◌>>◌, bail, fragment_too_large, invalid_fragment}
use openiwan.Prelude.{◌!=◌}
use openiwan.Protocol.Types.{
  PacketType, EncryptionMethod, data_packet, data_encrypted, no_encryption, xor, aes,
}
use openiwan.Protocol.Header.{PacketHeader}
use openiwan.Protocol.Packet.{encode_data}
use openiwan.Crypto.Primitives.{Primitives}
use openiwan.Crypto.Cipher.{DataCipher}
use openiwan.Fragment.Trim.{trim_ip_packet, ip_version}
use openiwan.Sr.Datagram as Datagram
use openiwan.Client.Session.{
  SessionInfo, sr_tuple, ConnectedSession, WorkerFailure, SrRuntime, next_fragment_id,
}

abbrev pub check_version : Option ℕ → List ℕ → Result (List ℕ)
check_version none packet = ok packet
check_version (some expected) packet = do
  bail (ip_version packet != expected)
      (invalid_fragment "inner IP version does not match packet type")
  ok packet

unfoldable pub validate_inner_packet : List ℕ → Option ℕ → Result (List ℕ)
validate_inner_packet packet expected_version =
    trim_ip_packet packet >>= check_version expected_version

-- The type, the method and the payload.
unfoldable pub traditional_parts :
    EncryptionMethod → DataCipher → List ℕ → Result (PacketType × EncryptionMethod × List ℕ)
traditional_parts no_encryption cipher packet = ok (data_packet, no_encryption, packet)
traditional_parts xor cipher packet = do
  payload ← cipher.encrypt packet
  ok (data_encrypted, xor, payload)
traditional_parts aes cipher packet = do
  payload ← cipher.encrypt packet
  ok (data_encrypted, aes, payload)

abbrev pub data_header : SessionInfo → PacketType → EncryptionMethod → PacketHeader
data_header info packet_type encryption = record {
  packet_type = packet_type;
  encryption = encryption;
  session_id = info.session_id;
  token = info.token;
}

unfoldable pub encode_traditional_data : List ℕ → SessionInfo → DataCipher → Result (List (List ℕ))
unfolding traditional_parts
encode_traditional_data packet info cipher = do
  bail (ltb info.mtu (length packet)) fragment_too_large
  (packet_type, encryption, payload) ← traditional_parts info.encryption cipher packet
  ok (encode_data (data_header info packet_type encryption) payload ∷ [])

-- What the device gives: nothing yet, a packet, or an error.
pub data DeviceRead : Type 0 where
  idle broken : DeviceRead
  given : List ℕ → DeviceRead

-- The datagrams that the socket took, and the failure to report.
unfoldable pub send_datagrams :
    (List ℕ → Result (Unit {0})) → List (List ℕ) → List (List ℕ) × Option WorkerFailure
send_datagrams send [] = ([], none)
send_datagrams send (datagram ∷ datagrams) =
    let (taken, failure) = send_datagrams send datagrams in
    elim (send datagram) [
      | ok _ ↦ (datagram ∷ taken, failure)
      | err e ↦ ([], some WorkerFailure.transport)
      | stuck ↦ ([], some WorkerFailure.transport)
    ]

module _ (p : Primitives) where
  -- The runtime after the call, and the datagrams to send.
  unfoldable pub encapsulate :
      ConnectedSession → Option SrRuntime → List ℕ → Option SrRuntime × Result (List (List ℕ))
  encapsulate s none inner = (none, encode_traditional_data inner s.info s.cipher)
  encapsulate s (some runtime) inner =
      let (fragment_id, after) = next_fragment_id runtime in
      (
        some after,
        Datagram.encode_data p inner s.info.mtu fragment_id runtime.config.links (sr_tuple s.info)
            s.cipher runtime.outer_cipher,
      )

  -- A round of the sender with a packet of the device: a packet that is no whole IP packet, or that
  -- cannot be encapsulated, is dropped.
  unfoldable pub send_packet :
      ConnectedSession → Option SrRuntime → List ℕ → Option SrRuntime × List (List ℕ)
  send_packet s sr buffer = elim (validate_inner_packet buffer none) [
    | ok inner ↦
        let (after, result) = encapsulate s sr inner in
        elim result [
          | ok datagrams ↦ (after, datagrams)
          | err e ↦ (after, [])
          | stuck ↦ (after, [])
        ]
    | err e ↦ (sr, [])
    | stuck ↦ (sr, [])
  ]

  -- The round with the device and the socket: a failing device, or the first datagram that cannot be
  -- sent, ends the worker.
  unfoldable pub sender_round :
      (List ℕ → Result (Unit {0}))
      → ConnectedSession
      → Option SrRuntime
      → DeviceRead
      → Option SrRuntime × List (List ℕ) × Option WorkerFailure
  unfolding send_packet send_datagrams
  sender_round send s sr idle = (sr, [], none)
  sender_round send s sr broken = (sr, [], some WorkerFailure.transport)
  sender_round send s sr (given buffer) =
      let (after, datagrams) = send_packet s sr buffer in
      let (taken, failure) = send_datagrams send datagrams in (after, taken, failure)
