-- ===== src/Client/Handshake.antt =====
-- src/client.rs: the answer to OPEN, and the loop that waits for it. Times are nanoseconds.
pub mod Agreement
pub mod Waiting
use openiwan.Prelude.{
  ℕ, zero, suc, ◌+◌, ◌-◌, ◌^◌, min, ltb, leb, ◌==◌, ◌!=◌, ◌&&◌, ◌||◌, if◌then◌else◌, Bool, true,
  false, Option, none, some, List, [], ◌∷◌, length, take,
}
use openiwan.Prelude.Words.{from_be}
use openiwan.Error.{
  Error, Result, ok, err, stuck, ◌>>=◌, ◌>>◌, bail, invalid_tlv_value,
  authentication_verify_mismatch, timeout, io,
}
use openiwan.Net.{IpAddr, v4, SocketAddr}
use openiwan.Config.{ClientConfig, SegmentRoutingConfig}
use openiwan.Protocol.Types.{
  PacketType, EncryptionMethod, TlvType, tlv_name, open_reject, open_ack, no_encryption, xor, aes,
}
use openiwan.Protocol.Types as Types
use openiwan.Protocol.Packet.{DecodedPacket, decode_packet}
use openiwan.Protocol.Tlv.{Tlv, parse_all, as_integer, first_u32}
use openiwan.Crypto.Primitives.{Primitives}
use openiwan.Crypto.Cipher.{DataCipher, create_cipher}
use openiwan.Client.Session.{SessionInfo, SrRuntime, new_runtime, ConnectedSession}
use openiwan.Client.Receive.{Received, datagram, nothing, failed}
use openiwan.Client.Rejection.{Text, find_tlv, parse_rejection}

-- 3 s, 13 s and 1 s
abbrev pub auth_attempt_timeout : ℕ
auth_attempt_timeout = 3_000_000_000

abbrev pub auth_overall_timeout : ℕ
auth_overall_timeout = 13_000_000_000

abbrev pub auth_retry_delay : ℕ
auth_retry_delay = 1_000_000_000

unfoldable pub first_ipv4 : Tlv → Result IpAddr
first_ipv4 t =
    if ltb (length t.value) 4
    then err (invalid_tlv_value (tlv_name t.kind))
    else ok (v4 (from_be (take 4 t.value)))

-- The nonce, if the server returns one, is the client's.
unfoldable pub check_nonce : Option Tlv → ℕ → Result (Unit {0})
check_nonce none expected_nonce = ok tt
check_nonce (some attribute) expected_nonce = do
  nonce ← first_u32 attribute
  bail (nonce != expected_nonce) authentication_verify_mismatch

-- A value that is no integer, no `u16`, or outside 576..=9000 gives way to the requested one.
unfoldable pub mtu_of : ℕ → Result ℕ → ℕ
mtu_of requested (ok value) = if leb 576 value && leb value 9_000 then value else requested
mtu_of requested (err _) = requested
mtu_of requested stuck = requested

abbrev pub address_or : Option IpAddr → Result IpAddr → Option IpAddr
address_or old (ok value) = some value
address_or old (err _) = old
address_or old stuck = old

unfoldable pub is_unspecified : IpAddr → Bool
is_unspecified (v4 a) = a == 0
is_unspecified (IpAddr.v6 a) = a == 0

abbrev pub servers_or : List IpAddr → Result IpAddr → List IpAddr
servers_or old (ok value) = if is_unspecified value then old else value ∷ []
servers_or old (err _) = old
servers_or old stuck = old

unfoldable pub method_of : Result ℕ → EncryptionMethod
method_of (ok value) = if value == 1 then xor else if value == 2 then aes else no_encryption
method_of (err _) = no_encryption
method_of stuck = no_encryption

-- The match on one attribute.
unfoldable pub apply_kind : TlvType → ℕ → Tlv → SessionInfo → SessionInfo
apply_kind Types.mtu requested t info = record info { mtu = mtu_of requested (as_integer t) }
apply_kind Types.ip requested t info = record info {
  address = address_or info.address (first_ipv4 t);
}
apply_kind Types.dns requested t info = record info {
  dns_servers = servers_or info.dns_servers (first_ipv4 t);
}
apply_kind Types.gateway requested t info = record info {
  gateway = address_or info.gateway (first_ipv4 t);
}
apply_kind Types.encrypt requested t info = record info { encryption = method_of (as_integer t) }
apply_kind _ requested t info = info

unfoldable pub apply_attributes : ℕ → List Tlv → SessionInfo → SessionInfo
unfolding apply_kind
apply_attributes requested [] info = info
apply_attributes requested (t ∷ ts) info =
    apply_attributes requested ts (apply_kind t.kind requested t info)

abbrev pub offered : DecodedPacket → SocketAddr → ℕ → SessionInfo
offered packet peer requested_mtu = record {
  peer = peer;
  session_id = packet.header.session_id;
  token = packet.header.token;
  encryption = packet.header.encryption;
  mtu = requested_mtu;
  address = none;
  gateway = none;
  dns_servers = [];
  segment_routing = false;
}

unfoldable pub parse_open_ack : DecodedPacket → SocketAddr → ℕ → ℕ → Result SessionInfo
parse_open_ack packet peer expected_nonce requested_mtu = do
  attributes ← parse_all packet.body
  check_nonce (find_tlv attributes Types.auth_verify) expected_nonce
  ok (apply_attributes requested_mtu attributes (offered packet peer requested_mtu))

unfoldable pub authentication_attempt_timeout : ℕ → ℕ → Option ℕ
authentication_attempt_timeout elapsed overall =
    let remaining = overall - elapsed in
    if remaining == 0 then none else some (min remaining auth_attempt_timeout)

-- One round: the time at its start and after the receive, whether OPEN could be sent, and what the
-- socket gives within the timeout.
pub record Trial : Type 0 where
  pub started : ℕ
  pub sent : Bool
  pub received : Received
  pub ended : ℕ

unfoldable pub runtime_of : Option SegmentRoutingConfig → ℕ → Result (Option SrRuntime)
runtime_of none random_id = ok none
runtime_of (some config) random_id = do runtime ← new_runtime config random_id; ok (some runtime)

-- What a client knows while it waits: its settings, the peer, the credentials, the nonce of its
-- OPEN and the random identifier of its first fragment.
pub record Opening : Type 0 where
  pub config : ClientConfig
  pub peer : SocketAddr
  pub username : List ℕ
  pub password : List ℕ
  pub nonce : ℕ
  pub random_id : ℕ

abbrev pub is_some {ℓ} : {A : Type ℓ} → Option A → Bool
is_some none = false
is_some (some _) = true

module _ (p : Primitives) (t : Text) (o : Opening) where
  unfoldable pub accept : DecodedPacket → Result ConnectedSession
  accept decoded = do
    agreed ← parse_open_ack decoded o.peer o.nonce o.config.mtu
    let info : SessionInfo = record agreed { segment_routing = is_some o.config.segment_routing }
    cipher ← create_cipher p info.encryption o.username o.password
    sr ← runtime_of o.config.segment_routing o.random_id
    ok (record { info = info; cipher = cipher; sr = sr })

  unfoldable pub reject : DecodedPacket → Result ConnectedSession
  reject decoded = parse_rejection t decoded.body o.nonce >>= λ e. err e

  -- The match on the type of the answer; `none` goes on waiting.
  unfoldable pub answer : PacketType → DecodedPacket → Option (Result ConnectedSession)
  unfolding accept reject
  answer open_reject decoded = some (reject decoded)
  answer open_ack decoded = some (accept decoded)
  answer _ decoded = none

  unfoldable pub answer_to : Received → Option (Result ConnectedSession)
  unfolding answer
  answer_to (datagram bytes) = elim (decode_packet p bytes) [
    | ok decoded ↦ answer decoded.header.packet_type decoded
    | err e ↦ some (err e)
    | stuck ↦ some stuck
  ]
  answer_to nothing = none
  answer_to failed = some (err io)

  abbrev pub outcome_of : Trial → Option (Result ConnectedSession)
  unfolding answer_to
  outcome_of trial = if trial.sent then answer_to trial.received else some (err io)

  -- `none` when the rounds ran out with the loop still waiting.
  unfoldable pub authenticate_loop : ℕ → List Trial → Option (Result ConnectedSession)
  authenticate_loop overall [] = none
  authenticate_loop overall (trial ∷ trials) =
      let rest = authenticate_loop overall trials in
      elim (authentication_attempt_timeout trial.started overall) [
        | none ↦ some (err (timeout "authentication"))
        | some _ ↦ elim (outcome_of trial) [
          | some result ↦ some result
          | none ↦
              if leb overall (trial.ended + auth_retry_delay)
              then some (err (timeout "authentication"))
              else rest
        ]
      ]

  unfoldable pub authenticate : List Trial → Option (Result ConnectedSession)
  unfolding authenticate_loop
  authenticate trials = authenticate_loop auth_overall_timeout trials

  unfoldable pub authenticate_once : List Trial → Option (Result ConnectedSession)
  unfolding authenticate_loop
  authenticate_once trials = authenticate_loop auth_attempt_timeout trials
