-- ===== src/Tests/Routing.antt =====
-- Runs of the datagrams and of the path monitor of src/sr.rs.
use openiwan.Prelude.{
  ℕ, ◌≤◌, ◌<◌, ◌+◌, ◌≡◌, ◌⊎◌, refl, false, some, List, [], ◌∷◌, ◌++◌, drop, replicate, arith,
}
use openiwan.Prelude.Words.{from_be}
use openiwan.Error.{ok}
use openiwan.Protocol.Types.{
  no_encryption, packet_type_try_from, packet_code, method_try_from, method_code,
}
use openiwan.Protocol.Header.{PacketHeader, decode_inner}
use openiwan.Protocol.Packet.{bytes_eq}
use openiwan.Crypto.Cipher.{no_cipher}
use openiwan.Fragment.Trim.{trim_ip_packet, ip_version, declared_length, ipv4_length}
use openiwan.Sr.Header.{
  SrHeader, parse, no_outer, algorithm_try_from, algorithm_code, is_no_outer, validate_links,
  validate_return_path, parse_links,
}
use openiwan.Sr.Outer.{SrOuterCipher, decrypt}
use openiwan.Sr.Session.{SrSessionTuple}
use openiwan.Sr.Monitor.{SrMonitorBody, IsValidBody}
use openiwan.Sr.Monitor
use openiwan.Sr.Liveness.{
  SrMonitorResponder, new_monitor, established, peer_down, request, accept_response, respond,
  update_peer_state, is_initial,
}
use openiwan.Sr.Liveness.Exchange.{Synced, round-Synced, update_peer_state_after}
use openiwan.Sr.Datagram.{
  data_of, decode_datagram, decode_inner_packet, decode_data, plain_of, is_plain,
}
use openiwan.Sr.Datagram.Return.{
  Returned, IsValidSession, decode_datagram-echo_response, decode_datagram-encrypt,
}
use openiwan.Sr.Header.{aes128, wire}
use openiwan.Sr.Header.Exact.{IsValid}
use openiwan.Sr.Outer.{new, required, encrypt, encrypt_blocks, padding_of}
use openiwan.Sr.Session.{header}
use openiwan.Sr.Datagram.{echo_response_of}
use openiwan.Protocol.Types.{echo_response, data_packet}
use openiwan.Protocol.Header.{encode}
use openiwan.Crypto.Cipher.{crypt_blocks, map_blocks}
use openiwan.Prelude.Words.{Bytes}
use openiwan.Sr.Datagram.Acceptance.{decode_datagram_authentic, decode_datagram-trim_ip_packet}
use openiwan.Tests.{plain, plain-IsLawful}

abbrev body : SrMonitorBody
body = record {
  tick_micros = 1;
  current_delay_micros = 2;
  minimum_delay_micros = 3;
  maximum_delay_micros = 4;
  sr_id = 5;
  version = 0;
  marker = 0x79;
  flags = 2;
  tx_count = 6;
  rx_count = 7;
}

body-IsValid : IsValidBody body
body-IsValid = record {
  tick_range = omega arith;
  current_range = omega arith;
  minimum_range = omega arith;
  maximum_range = omega arith;
  sr_id_range = omega arith;
  version_range = omega arith;
  marker_range = omega arith;
  flags_range = omega arith;
  tx_range = omega arith;
  rx_range = omega arith;
}

abbrev quiet : SrMonitorResponder
quiet = record { active = false; receive_count = 0 }

fresh-Synced : Synced (new_monitor 5) quiet
unfolding is_initial
fresh-Synced = record { known = λ e. cc; counts = λ e. refl }

round-Synced_example :
    (reply : SrMonitorBody) × ((respond (request 1 (new_monitor 5)).1 quiet).1 ≡ some reply)
    × ((accept_response reply 20 30 (request 1 (new_monitor 5)).0).1 ≡ ok tt)
    × ((accept_response reply 20 30 (request 1 (new_monitor 5)).0).0.state ≡ established)
    × ((accept_response reply 20 30 (request 1 (new_monitor 5)).0).0.rx_count
        ≡ (accept_response reply 20 30 (request 1 (new_monitor 5)).0).0.tx_count)
    × Synced
        (accept_response reply 20 30 (request 1 (new_monitor 5)).0).0
        (respond (request 1 (new_monitor 5)).1 quiet).0
round-Synced_example = round-Synced 1 20 30 (new_monitor 5) quiet fresh-Synced

update_peer_state_after_example :
    ((6_000_000_000 ≤ 10 + 5_000_000_000)
      × ((update_peer_state 6_000_000_000 (accept_response body 10 30 (new_monitor 5)).0).state
          ≡ established))
    ⊎ ((10 + 5_000_000_000 < 6_000_000_000)
        × ((update_peer_state 6_000_000_000 (accept_response body 10 30 (new_monitor 5)).0).state
            ≡ peer_down))
unfolding accept_response
update_peer_state_after_example =
    update_peer_state_after body 10 30 6_000_000_000 (new_monitor 5) refl (omega arith)

abbrev packet : List ℕ
packet = 0x45 ∷ 0 ∷ 0 ∷ 20 ∷ replicate 16 0

abbrev datagram : List ℕ
datagram =
    0x28 ∷ 0 ∷ 1 ∷ 0 ∷ 0 ∷ 0 ∷ 0 ∷ 5 ∷ 0x14 ∷ 0 ∷ 0 ∷ 5 ∷ 0 ∷ 0 ∷ 0 ∷ 9 ∷ (packet ++ (0 ∷ []))

abbrev session : SrSessionTuple
session = record { session_id = 5; token = 9; encryption = no_encryption }

abbrev outer : SrOuterCipher
outer = record { algorithm = no_outer; key = replicate 32 0 }

datagram_accepted :
    decode_datagram plain datagram (5 ∷ []) session no_cipher outer ≡ ok (data_of packet)
unfolding decode_datagram parse parse_links algorithm_try_from validate_return_path validate_links
    bytes_eq decode_inner packet_type_try_from packet_code method_try_from method_code
    decode_inner_packet decode_data plain_of is_plain algorithm_code is_no_outer decrypt
    trim_ip_packet declared_length ipv4_length ip_version from_be
datagram_accepted = refl

decode_datagram_authentic_example :
    (h : SrHeader) × (n : ℕ) × (inner : PacketHeader) × (parse datagram ≡ ok (h, n))
    × (h.next_id ≡ 0)
    × (h.links ≡ 5 ∷ [])
    × (decode_inner (drop n datagram) ≡ ok inner)
    × (inner.session_id ≡ 5)
    × (inner.token ≡ 9)
decode_datagram_authentic_example =
    decode_datagram_authentic plain session no_cipher outer datagram (5 ∷ []) (data_of packet)
      datagram_accepted

decode_datagram-trim_ip_packet_example :
    (trim_ip_packet packet ≡ ok packet) × ((ip_version packet ≡ 4) ⊎ (ip_version packet ≡ 6))
decode_datagram-trim_ip_packet_example =
    decode_datagram-trim_ip_packet plain session no_cipher outer datagram (5 ∷ []) packet
      datagram_accepted

abbrev back : SrHeader
back = record { next_id = 0; links = 5 ∷ []; algorithm = no_outer; padding_length = 0 }

back-IsValid : IsValid back
back-IsValid = record {
  some_link = omega arith;
  few_links = omega arith;
  links_range = ((omega arith, omega arith), tt);
  next_range = omega arith;
  padding_range = omega arith;
}

back-Returned : Returned back (5 ∷ [])
back-Returned = record { valid = back-IsValid; at_end = refl; same_path = refl }

session-IsValid : IsValidSession session
session-IsValid = record { session_id_range = omega arith; token_range = omega arith }

decode_datagram-echo_response_example :
    decode_datagram plain
      (wire back ++ (encode (header session echo_response no_encryption) ++ Monitor.encode body))
      (5 ∷ [])
      session
      no_cipher
      outer
    ≡ ok (echo_response_of body)
decode_datagram-echo_response_example =
    decode_datagram-echo_response plain session no_cipher outer back body (5 ∷ []) back-Returned
      refl refl session-IsValid body-IsValid

abbrev locked : SrOuterCipher
locked = record { algorithm = aes128; key = replicate 16 1 ++ replicate 16 0 }

abbrev locked_back : SrHeader
locked_back = record { next_id = 0; links = 5 ∷ []; algorithm = aes128; padding_length = 12 }

locked_back-Returned : Returned locked_back (5 ∷ [])
locked_back-Returned = record {
  valid = record {
    some_link = omega arith;
    few_links = omega arith;
    links_range = ((omega arith, omega arith), tt);
    next_range = omega arith;
    padding_range = omega arith;
  };
  at_end = refl;
  same_path = refl;
}

packet-Bytes : Bytes packet
packet-Bytes = ground arith

packet_trimmed : trim_ip_packet packet ≡ ok packet
unfolding trim_ip_packet declared_length ipv4_length ip_version from_be
packet_trimmed = refl

packet_encrypted : encrypt plain locked packet ≡ ok (packet ++ replicate 12 0, 12)
unfolding encrypt is_no_outer padding_of encrypt_blocks crypt_blocks map_blocks
packet_encrypted = refl

decode_datagram-encrypt_example :
    decode_datagram plain
      (wire locked_back
        ++ (encode (header session data_packet no_encryption) ++ (packet ++ replicate 12 0)))
      (5 ∷ [])
      session
      no_cipher
      locked
    ≡ ok (data_of packet)
unfolding new required ip_version
decode_datagram-encrypt_example =
    decode_datagram-encrypt plain session no_cipher locked plain-IsLawful aes128 (replicate 16 1)
      locked_back packet (packet ++ replicate 12 0) (5 ∷ []) refl packet-Bytes (omega arith)
      packet_trimmed refl packet_encrypted refl locked_back-Returned session-IsValid
