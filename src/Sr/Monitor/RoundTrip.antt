-- ===== src/Sr/Monitor/RoundTrip.antt =====
-- src/sr.rs: the codec of the monitor body.
use openiwan.Prelude.{ℕ, ◌≡◌, List, ◌++◌, arith}
use openiwan.Prelude.Words.{to_le, from_le-to_le, from_be-u32, u32_to_be}
use openiwan.Error.{ok}
use openiwan.Protocol.Packet.{bytes_eq}
use openiwan.Sr.Monitor.{SrMonitorBody, encode, decode, IsValidBody}

-- A monitor body whose fields have their widths reads back from its forty bytes, whatever follows
-- them.
pub decode_body-encode :
    (b : SrMonitorBody) (rest : List ℕ) → IsValidBody b → decode (encode b ++ rest) ≡ ok b
unfolding decode encode to_le u32_to_be bytes_eq
decode_body-encode b rest v = ground (
  arith,
  from_le-to_le 8 b.tick_micros v.tick_range,
  from_le-to_le 4 b.current_delay_micros v.current_range,
  from_le-to_le 4 b.minimum_delay_micros v.minimum_range,
  from_le-to_le 4 b.maximum_delay_micros v.maximum_range,
  from_be-u32 b.sr_id v.sr_id_range,
  from_le-to_le 2 b.flags v.flags_range,
  from_le-to_le 4 b.tx_count v.tx_range,
  from_le-to_le 4 b.rx_count v.rx_range,
)
