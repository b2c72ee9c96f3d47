-- ===== src/Tests/Handshakes.antt =====
-- An answered OPEN, a silent server, and reconnections.
use openiwan.Prelude.{
  ℕ, zero, suc, ◌≤◌, ◌≡◌, ◌≢◌, ◌⊎◌, refl, true, false, none, some, List, [], ◌∷◌, ◌+◌, ◌<◌, length,
  get_or, All, arith,
}
use Prim.Native.Nat.{max}
use openiwan.Prelude.Words.{from_be}
use openiwan.Error.{ok, err, timeout}
use openiwan.Net.{v4}
use openiwan.Config.{ReconnectPolicy, new_config}
use openiwan.Protocol.Types.{no_encryption, open_ack, auth_verify, tlv_type_try_from}
use openiwan.Protocol.Packet.{DecodedPacket}
use openiwan.Protocol.Tlv.{Tlv, parse_all, first_u32, as_integer}
use openiwan.Client.Session.{SessionInfo, SessionEnd}
use openiwan.Client.Receive.{nothing}
use openiwan.Client.Rejection.{Text, find_tlv}
use openiwan.Client.Handshake.{
  Opening, Trial, authentication_attempt_timeout, check_nonce, apply_attributes, mtu_of, first_ipv4,
  is_unspecified, parse_open_ack, authenticate,
}
use openiwan.Client.Handshake.Waiting.{
  Timed, authenticate-Timed, authentication_attempt_timeout_exact,
}
use openiwan.Client.Handshake.Agreement.{IsAgreed, parse_open_ack-IsAgreed}
use openiwan.Client.Reconnect.{Attempt, run_reconnecting_inner}
use openiwan.Client.Reconnect.Backoff.{backoff, sleepless, run_reconnecting_inner-Failing}
use openiwan.Client.Reconnect.Ending.{Bounded, run_reconnecting_inner-Returns}
use openiwan.Tests.{plain}
use openiwan.Tests.Sessions.{peer, session}

abbrev policy : ReconnectPolicy
policy = record { attempts = 2; initial_delay_ms = 1_000; max_delay_ms = 1_500 }

abbrev failing : Attempt
failing = record {
  shutdown = false;
  authentication = none;
  run = none;
  elapsed_ns = 0;
  glances = record { running = false; elapsed_ns = 0; elapsed_again_ns = 0 } ∷ [];
}

run_reconnecting_inner-Failing_example :
    ((run_reconnecting_inner policy none (failing ∷ (failing ∷ (failing ∷ [])))).1
      ≡ some (err (timeout "reconnection budget exhausted")))
    × (length (run_reconnecting_inner policy none (failing ∷ (failing ∷ (failing ∷ [])))).0 ≡ 2)
    × ((k : ℕ)
        → k < 2
        → get_or
            (run_reconnecting_inner policy none (failing ∷ (failing ∷ (failing ∷ [])))).0
            k
            (sleepless 0)
          ≡ sleepless (backoff k 1_000 1_500))
run_reconnecting_inner-Failing_example =
    run_reconnecting_inner-Failing policy (failing ∷ (failing ∷ (failing ∷ [])))
      ((refl, refl, refl), ((refl, refl, refl), ((refl, refl, refl), tt))) (omega arith)

abbrev lost : Attempt
lost = record {
  shutdown = false;
  authentication = some session;
  run = some SessionEnd.heartbeat_timeout;
  elapsed_ns = 25_000_000_000;
  glances =
      record { running = true; elapsed_ns = 0; elapsed_again_ns = 1 }
      ∷ (record { running = true; elapsed_ns = 1_000_000_000; elapsed_again_ns = 1_000_000_000 }
          ∷ []);
}

run_reconnecting_inner-Returns_example :
    ((e : SessionEnd)
      → (run_reconnecting_inner policy (some session) (lost ∷ (failing ∷ []))).1 ≡ some (ok e)
      → (e ≡ SessionEnd.local_shutdown) ⊎ (e ≡ SessionEnd.server_close))
    × All
        (Bounded (max 1_000 1_500))
        (run_reconnecting_inner policy (some session) (lost ∷ (failing ∷ []))).0
run_reconnecting_inner-Returns_example =
    run_reconnecting_inner-Returns policy (some session) (lost ∷ (failing ∷ []))

-- The answer to OPEN: the nonce 1, an MTU of 1200 and a name server.
abbrev ack_body : List ℕ
ack_body = 0x0f ∷ 6 ∷ 0 ∷ 0 ∷ 0 ∷ 1 ∷ 0x03 ∷ 4 ∷ 0x04 ∷ 0xb0 ∷ 0x05 ∷ 6 ∷ 9 ∷ 9 ∷ 9 ∷ 9 ∷ []

abbrev ack : DecodedPacket
ack = record {
  header = record { packet_type = open_ack; encryption = no_encryption; session_id = 5; token = 7 };
  signature = none;
  body = ack_body;
}

abbrev agreed : SessionInfo
agreed = record {
  peer = peer;
  session_id = 5;
  token = 7;
  encryption = no_encryption;
  mtu = 1_200;
  address = none;
  gateway = none;
  dns_servers = v4 0x0909_0909 ∷ [];
  segment_routing = false;
}

parse_open_ack-IsAgreed_example :
    IsAgreed ack peer 1_400 agreed
    × ((ts : List Tlv) (t : Tlv)
        → parse_all ack_body ≡ ok ts
        → find_tlv ts auth_verify ≡ some t
        → first_u32 t ≡ ok 1)
unfolding parse_open_ack parse_all tlv_type_try_from check_nonce find_tlv first_u32 from_be
    apply_attributes mtu_of first_ipv4 as_integer is_unspecified
parse_open_ack-IsAgreed_example = parse_open_ack-IsAgreed ack peer 1 1_400 agreed refl

abbrev text : Text
text = record { from_utf8_lossy = λ bytes. bytes; trim = λ cs. cs; to_uppercase = λ cs. cs }

abbrev opening : Opening
opening = record {
  config = new_config "server";
  peer = peer;
  username = b'a' ∷ [];
  password = b'b' ∷ [];
  nonce = 1;
  random_id = 0;
}

-- Nothing comes: each receive takes three seconds.
abbrev silent : ℕ → ℕ → List Trial
silent zero t = []
silent (suc n) t =
    record { started = t; sent = true; received = nothing; ended = t + 3_000_000_000 }
    ∷ silent n (t + 3_000_000_000 + 1_000_000_000)

silent-Timed : (n t : ℕ) → Timed t (silent n t)
silent-Timed zero t = tt
silent-Timed (suc n) t =
    (omega arith, omega arith, silent-Timed n (t + 3_000_000_000 + 1_000_000_000))

authenticate-Timed_example : authenticate plain text opening (silent 13 0) ≢ none
authenticate-Timed_example =
    authenticate-Timed plain text opening 0 (silent 13 0) (silent-Timed 13 0) (omega arith)

authentication_attempt_timeout_exact_example :
    ((authentication_attempt_timeout 12_000_000_000 13_000_000_000 ≡ none)
      × (13_000_000_000 ≤ 12_000_000_000))
    ⊎ ((t : ℕ) × (authentication_attempt_timeout 12_000_000_000 13_000_000_000 ≡ some t)
        × (1 ≤ t)
        × (t ≤ 3_000_000_000)
        × (12_000_000_000 + t ≤ 13_000_000_000))
authentication_attempt_timeout_exact_example =
    authentication_attempt_timeout_exact 12_000_000_000 13_000_000_000
