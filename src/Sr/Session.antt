-- ===== src/Sr/Session.antt =====
-- src/sr.rs: `SrSessionTuple`, the session whose header each inner packet carries.
use openiwan.Prelude.{ℕ}
use openiwan.Protocol.Types.{PacketType, EncryptionMethod}
use openiwan.Protocol.Header.{PacketHeader}

pub record SrSessionTuple : Type 0 where
  pub session_id : ℕ
  pub token : ℕ
  pub encryption : EncryptionMethod

unfoldable pub header : SrSessionTuple → PacketType → EncryptionMethod → PacketHeader
header session packet_type encryption = record {
  packet_type = packet_type;
  encryption = encryption;
  session_id = session.session_id;
  token = session.token;
}
