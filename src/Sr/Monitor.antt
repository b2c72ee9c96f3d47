-- ===== src/Sr/Monitor.antt =====
-- src/sr.rs: `SrMonitorBody`, forty bytes of mixed byte order, and its datagram.
pub mod RoundTrip
use openiwan.Prelude.{
  ℕ, ◌+◌, ltb, ◌==◌, ◌||◌, not, if◌then◌else◌, Bool, true, false, List, [], ◌∷◌, ◌++◌, length,
  slice, get_or,
}
use openiwan.Prelude.Words.{from_be, from_le, to_le, u32_to_be, IsByte, IsU16, IsU32, IsU64}
use openiwan.Error.{Result, ok, err, ◌>>=◌, ◌>>◌, bail, packet_too_short, invalid_segment_routing}
use openiwan.Protocol.Types.{PacketType, echo_request, echo_response, no_encryption}
use openiwan.Protocol.Packet.{bytes_eq}
use openiwan.Protocol.Header
use openiwan.Sr.Header as SrHeaders
use openiwan.Sr.Header.{no_outer}
use openiwan.Sr.Session.{SrSessionTuple, header}

abbrev pub sr_monitor_body_len : ℕ
sr_monitor_body_len = 40

pub record SrMonitorBody : Type 0 where
  pub tick_micros : ℕ
  pub current_delay_micros : ℕ
  pub minimum_delay_micros : ℕ
  pub maximum_delay_micros : ℕ
  pub sr_id : ℕ
  pub version : ℕ
  pub marker : ℕ
  pub flags : ℕ
  pub tx_count : ℕ
  pub rx_count : ℕ

-- `b"SRID"`
abbrev pub magic : List ℕ
magic = 0x53 ∷ 0x52 ∷ 0x49 ∷ 0x44 ∷ []

unfoldable pub encode : SrMonitorBody → List ℕ
encode b =
    to_le 8 b.tick_micros
    ++ (to_le 4 b.current_delay_micros
        ++ (to_le 4 b.minimum_delay_micros
            ++ (to_le 4 b.maximum_delay_micros
                ++ (magic
                    ++ (u32_to_be b.sr_id
                        ++ (b.version
                            ∷ b.marker
                            ∷ (to_le 2 b.flags ++ (to_le 4 b.tx_count ++ to_le 4 b.rx_count))))))))

abbrev pub body_at : List ℕ → SrMonitorBody
body_at body = record {
  tick_micros = from_le (slice 0 8 body);
  current_delay_micros = from_le (slice 8 12 body);
  minimum_delay_micros = from_le (slice 12 16 body);
  maximum_delay_micros = from_le (slice 16 20 body);
  sr_id = from_be (slice 24 28 body);
  version = get_or body 28 0;
  marker = get_or body 29 0;
  flags = from_le (slice 30 32 body);
  tx_count = from_le (slice 32 36 body);
  rx_count = from_le (slice 36 40 body);
}

unfoldable pub decode : List ℕ → Result SrMonitorBody
decode body =
    if ltb (length body) sr_monitor_body_len
    then err (packet_too_short sr_monitor_body_len (length body))
    else if not (bytes_eq (slice 20 24 body) magic)
    then err (invalid_segment_routing "SR monitor magic does not equal SRID")
    else ok (body_at body)

unfoldable pub is_echo : PacketType → Bool
is_echo echo_request = true
is_echo echo_response = true
is_echo _ = false

unfoldable pub encode_monitor_datagram :
    PacketType → SrMonitorBody → List ℕ → SrSessionTuple → Result (List ℕ)
encode_monitor_datagram packet_type body forward_links session = do
  bail (not (is_echo packet_type)) (invalid_segment_routing "monitor inner type is not echo")
  sr_header ← SrHeaders.outbound forward_links no_outer 0
  datagram ← SrHeaders.encode sr_header
  ok (datagram ++ (Header.encode (header session packet_type no_encryption) ++ encode body))

-- The widths of the fields.
pub record IsValidBody (b : SrMonitorBody) : Type 0 where
  pub tick_range : IsU64 b.tick_micros
  pub current_range : IsU32 b.current_delay_micros
  pub minimum_range : IsU32 b.minimum_delay_micros
  pub maximum_range : IsU32 b.maximum_delay_micros
  pub sr_id_range : IsU32 b.sr_id
  pub version_range : IsByte b.version
  pub marker_range : IsByte b.marker
  pub flags_range : IsU16 b.flags
  pub tx_range : IsU32 b.tx_count
  pub rx_range : IsU32 b.rx_count
