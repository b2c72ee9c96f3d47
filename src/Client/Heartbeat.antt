-- ===== src/Client/Heartbeat.antt =====
-- src/client.rs: `HeartbeatTracker` and the rounds of the heartbeat worker. Instants are
-- nanoseconds.
pub mod Timeout
use openiwan.Prelude.{
  ℕ, ◌+◌, ◌-◌, ◌^◌, min, ltb, leb, ◌==◌, ◌||◌, if◌then◌else◌, Bool, true, false, List, [], ◌∷◌,
  Option, none, some,
}
use Prim.Native.Nat.{max}
use openiwan.Protocol.Packet.Echo.{EchoBody}
use openiwan.Client.Session.{WorkerFailure}

-- 20 s
abbrev pub heartbeat_timeout_ns : ℕ
heartbeat_timeout_ns = 20_000_000_000

abbrev pub heartbeat_max_misses : ℕ
heartbeat_max_misses = 10

abbrev pub u32_max : ℕ
u32_max = 0xffff_ffff

pub record HeartbeatTracker : Type 0 where
  pub last_response : ℕ
  pub missed : ℕ
  pub current : ℕ
  pub minimum : ℕ
  pub maximum : ℕ

abbrev pub new_tracker : ℕ → HeartbeatTracker
new_tracker now = record { last_response = now; missed = 0; current = 0; minimum = 0; maximum = 0 }

-- The state after the call, and the body to send.
unfoldable pub request_body : ℕ → HeartbeatTracker → HeartbeatTracker × EchoBody
request_body tick_micros t = (
  record t { missed = min (t.missed + 1) u32_max },
  record {
    tick_micros = tick_micros;
    delay_stats = record {
      current_micros = t.current;
      minimum_micros = t.minimum;
      maximum_micros = t.maximum;
    };
  },
)

unfoldable pub observe : ℕ → ℕ → HeartbeatTracker → HeartbeatTracker
observe now rtt t = record {
  last_response = now;
  missed = 0;
  current = rtt;
  minimum = if t.minimum == 0 then rtt else min t.minimum rtt;
  maximum = max t.maximum rtt;
}

-- `elapsed` saturates at 0.
unfoldable pub timed_out : ℕ → HeartbeatTracker → Bool
timed_out now t =
    leb heartbeat_max_misses t.missed || ltb heartbeat_timeout_ns (now - t.last_response)

-- What happens to the tracker, in order: the worker wakes up, or the receiver meets a response.
pub data Beat : Type 0 where
  wake : ℕ → ℕ → Bool → Beat
  response : ℕ → ℕ → Beat

-- The worker's failure report, with which it stops. A `wake` holds the instant, the tick and
-- whether the request could be sent; a `response` the instant and the round-trip time.
unfoldable pub run_heartbeat :
    List Beat → HeartbeatTracker → HeartbeatTracker × Option WorkerFailure
run_heartbeat [] t = (t, none)
run_heartbeat (wake now tick sent ∷ beats) t =
    let asked = (request_body tick t).0 in
    let rest = run_heartbeat beats asked in
    if timed_out now t
    then (t, some WorkerFailure.heartbeat_timeout)
    else if sent
    then rest
    else (asked, some WorkerFailure.transport)
run_heartbeat (response now rtt ∷ beats) t = run_heartbeat beats (observe now rtt t)
