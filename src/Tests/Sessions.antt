-- ===== src/Tests/Sessions.antt =====
-- A session under the XOR cipher, with one packet, one close, heartbeats and a monitored path.
use openiwan.Prelude.{
  inl, ℕ, ◌≡◌, ◌≢◌, ◌⊎◌, ◌↔◌, refl, true, false, none, some, List, [], ◌∷◌, length, replicate, All,
  arith,
}
use openiwan.Prelude.Words.{from_be}
use openiwan.Error.{ok}
use openiwan.Net.{v4, SocketAddr}
use openiwan.Protocol.Types.{xor, close}
use openiwan.Protocol.Header.{PacketHeader, IsValid, encode}
use openiwan.Protocol.Packet.{encode_control}
use openiwan.Crypto.Keys.{derive_session_key}
use openiwan.Crypto.Cipher.{create_cipher, xor_cipher}
use openiwan.Crypto.Aes.{replicate-Bytes}
use openiwan.Fragment.Trim.{trim_ip_packet, declared_length, ip_version, ipv4_length}
use openiwan.Client.Session.{SessionEnd, WorkerFailure, SrRuntime, ConnectedSession}
use openiwan.Client.Heartbeat.{Beat, wake, response, new_tracker, run_heartbeat}
use openiwan.Client.Heartbeat.Timeout.{Prompt, run_heartbeat-Silent, run_heartbeat_exact}
use openiwan.Client.Outbound.{send_packet}
use openiwan.Client.Inbound.{Io, wrote, Link}
use openiwan.Client.Receive.{datagram, nothing, Poll, receive_datagram, receive_loop}
use openiwan.Sr.Header.{no_outer}
use openiwan.Sr.Liveness.{new_monitor}
use openiwan.Client.Closure.Once.{by_close, by_drop, endings, endings-server_close}
use openiwan.Client.Monitoring.{Turn, run_monitor}
use openiwan.Client.Monitoring.Silence.{run_monitor-Late}
use openiwan.Client.Tunnel.{tunnel_delivers}
use openiwan.Client.Invariant.{receive_loop-IsReassembling}
use openiwan.Client.Invariant.Datagram.{IsReassembling, WroteWhole}
use openiwan.Client.Closing.{receive_datagram_close}
use openiwan.Tests.{plain, plain-IsLawful}

abbrev pub peer : SocketAddr
peer = record { ip = v4 0; port = 6_868 }

abbrev pub session : ConnectedSession
session = record {
  info = record {
    peer = peer;
    session_id = 5;
    token = 7;
    encryption = xor;
    mtu = 1_400;
    address = none;
    gateway = none;
    dns_servers = [];
    segment_routing = false;
  };
  cipher = xor_cipher (derive_session_key plain (b'a' ∷ []) (b'b' ∷ []));
  sr = none;
}

abbrev env : Io
env = record {
  write_packet = λ packet. ok (length packet);
  send = λ bytes. ok tt;
  now = 0;
  now_micros = 0;
}

abbrev link : Link
link = record {
  traditional = [];
  segmented = record { groups = []; buffered_bytes = 0 };
  responder = record { active = false; receive_count = 0 };
  heartbeat = new_tracker 0;
  monitor = none;
}

abbrev packet : List ℕ
packet = 0x45 ∷ 0 ∷ 0 ∷ 20 ∷ replicate 16 0

-- The packet with four more bytes behind it.
abbrev buffer : List ℕ
buffer = 0x45 ∷ 0 ∷ 0 ∷ 20 ∷ replicate 20 0

tunnel_delivers_example :
    (d : List ℕ) × (send_packet plain session none buffer ≡ (none, d ∷ []))
    × (receive_datagram plain env session d link ≡ (link, wrote packet ∷ [], none))
unfolding create_cipher trim_ip_packet declared_length ip_version ipv4_length from_be
tunnel_delivers_example =
    tunnel_delivers plain plain-IsLawful (b'a' ∷ []) (b'b' ∷ []) buffer packet session env link refl
      (omega arith) (omega arith)
      (omega arith, (omega arith, (omega arith, (omega arith, replicate-Bytes 20)))) refl
      (omega arith) refl

link-IsReassembling : IsReassembling link
link-IsReassembling = (
  record { bounded = omega arith; unique = tt; small = tt },
  record { few = omega arith; counted = refl; limited = omega arith; groups_ok = tt; unique = tt },
)

abbrev polls : List Poll
polls =
    record {
      shutdown = false;
      failure = none;
      received = datagram (0x14 ∷ 0 ∷ 0 ∷ 5 ∷ 0 ∷ 0 ∷ 0 ∷ 7 ∷ packet);
      env = env;
    }
    ∷ record { shutdown = true; failure = none; received = nothing; env = env }
    ∷ []

receive_loop-IsReassembling_example :
    IsReassembling (receive_loop plain polls session link).0
    × All WroteWhole (receive_loop plain polls session link).1
receive_loop-IsReassembling_example =
    receive_loop-IsReassembling plain session polls link link-IsReassembling

abbrev close_bytes : List ℕ
close_bytes = 0x17 ∷ 0 ∷ 0 ∷ 5 ∷ 0 ∷ 0 ∷ 0 ∷ 7 ∷ []

receive_datagram_close_example :
    ((receive_datagram plain env session close_bytes link).2 ≡ some SessionEnd.server_close) ↔ (
      (h : PacketHeader) × (h.packet_type ≡ close)
      × (h.session_id ≡ 5)
      × (h.token ≡ 7)
      × IsValid h
      × ((close_bytes ≡ encode h)
          ⊎ ((body : List ℕ) × (close_bytes ≡ encode_control plain h body))))
receive_datagram_close_example =
    receive_datagram_close plain env session link close_bytes plain-IsLawful (
      omega arith,
      (
        omega arith,
        (
          omega arith,
          (omega arith, (omega arith, (omega arith, (omega arith, (omega arith, tt))))),
        ),
      ),
    )

abbrev wakes : ℕ → List Beat
wakes n = replicate n (wake 0 0 true)

run_heartbeat-Silent_example :
    (run_heartbeat (wakes 11) (new_tracker 0)).1 ≡ some WorkerFailure.heartbeat_timeout
run_heartbeat-Silent_example =
    run_heartbeat-Silent (wakes 11) (new_tracker 0)
      (refl, (refl, (refl, (refl, (refl, (refl, (refl, (refl, (refl, (refl, (refl, tt)))))))))))
      (omega arith) (omega arith)

run_heartbeat_exact_example :
    ((run_heartbeat (wake 0 0 true ∷ (response 9 9 ∷ wakes 10)) (new_tracker 0)).1 ≡ none)
    ↔ Prompt 0 0 (wake 0 0 true ∷ (response 9 9 ∷ wakes 10))
run_heartbeat_exact_example =
    run_heartbeat_exact (wake 0 0 true ∷ (response 9 9 ∷ wakes 10)) (new_tracker 0)

endings-server_close_example :
    (d : List ℕ) × (endings plain
        (λ bytes. ok tt)
        session.info
        (by_close ∷ (by_drop ∷ []))
        (record { running = true; close_sent = false })
      ≡ d ∷ [])
    × ((receive_datagram plain env session d link).2 ≡ some SessionEnd.server_close)
endings-server_close_example =
    endings-server_close plain plain-IsLawful (λ bytes. ok tt) env session link by_close
      (by_drop ∷ []) (record { running = true; close_sent = false }) refl (omega arith)
      (omega arith)

abbrev runtime : SrRuntime
runtime = record {
  config = record {
    id = 1;
    keepalive = true;
    encrypt_algo = no_outer;
    encrypt_key = [];
    links = 9 ∷ [];
    local_sr_id = none;
  };
  outer_cipher = record { algorithm = no_outer; key = [] };
  fragment_id = 0;
}

run_monitor-Late_example :
    (run_monitor session.info runtime
      (Turn.wake 0 0 0 true ∷ (Turn.wake 6_000_000_000 6_000_000_000 6_000_000 true ∷ []))
      (new_monitor 1)).1
    ≢ none
run_monitor-Late_example =
    run_monitor-Late session.info runtime 1 0 0 0 true
      (Turn.wake 6_000_000_000 6_000_000_000 6_000_000 true ∷ []) (inl (omega arith))
