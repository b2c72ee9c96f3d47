-- ===== src/Client/Session.antt =====
-- src/client.rs: what authentication agreed on, and the parts of a connected session that stay the
-- same while it runs.
use openiwan.Prelude.{ℕ, ◌+◌, ◌%◌, ◌^◌, Bool, Option, List}
use openiwan.Error.{Result, ok, ◌>>=◌}
use openiwan.Net.{IpAddr, SocketAddr}
use openiwan.Config.{SegmentRoutingConfig}
use openiwan.Protocol.Types.{PacketType, EncryptionMethod}
use openiwan.Protocol.Header.{PacketHeader}
use openiwan.Crypto.Cipher.{DataCipher}
use openiwan.Sr.Session.{SrSessionTuple}
use openiwan.Sr.Outer.{SrOuterCipher}
use openiwan.Sr.Outer

pub record SessionInfo : Type 0 where
  pub peer : SocketAddr
  pub session_id : ℕ
  pub token : ℕ
  pub encryption : EncryptionMethod
  pub mtu : ℕ
  pub address : Option IpAddr
  pub gateway : Option IpAddr
  pub dns_servers : List IpAddr
  pub segment_routing : Bool

unfoldable pub header : SessionInfo → PacketType → PacketHeader
header info packet_type = record {
  packet_type = packet_type;
  encryption = info.encryption;
  session_id = info.session_id;
  token = info.token;
}

unfoldable pub sr_tuple : SessionInfo → SrSessionTuple
sr_tuple info = record {
  session_id = info.session_id;
  token = info.token;
  encryption = info.encryption;
}

pub data SessionEnd : Type 0 where
  local_shutdown server_close heartbeat_timeout transport_failure : SessionEnd

-- A transport failure's error is not kept.
pub data WorkerFailure : Type 0 where
  heartbeat_timeout transport : WorkerFailure

pub record SrRuntime : Type 0 where
  pub config : SegmentRoutingConfig
  pub outer_cipher : SrOuterCipher
  pub fragment_id : ℕ

-- The random identifier is an argument.
unfoldable pub new_runtime : SegmentRoutingConfig → ℕ → Result SrRuntime
new_runtime config random_id = do
  outer_cipher ← Outer.new config.encrypt_algo config.encrypt_key
  ok (record { config = config; outer_cipher = outer_cipher; fragment_id = random_id })

-- `fetch_add(1)` on an `AtomicU32`: the identifier, and the runtime after it.
unfoldable pub next_fragment_id : SrRuntime → ℕ × SrRuntime
next_fragment_id runtime =
    (runtime.fragment_id, record runtime { fragment_id = (runtime.fragment_id + 1) % 2 ^ 32 })

pub record ConnectedSession : Type 0 where
  pub info : SessionInfo
  pub cipher : DataCipher
  pub sr : Option SrRuntime
