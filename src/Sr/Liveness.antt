-- ===== src/Sr/Liveness.antt =====
-- src/sr.rs: `SrMonitor` with its `DelayAccumulator`, which probes a path, and `SrMonitorResponder`
-- at the other end. An `Instant` is a number of nanoseconds.
pub mod Exchange
use openiwan.Prelude.{
  ℕ, ◌+◌, ◌-◌, ◌%◌, ◌^◌, min, bit_and, ltb, ◌==◌, ◌!=◌, if◌then◌else◌, Bool, true, false, Option,
  none, some,
}
use Prim.Native.Nat.{max}
use openiwan.Error.{Error, Result, ok, err, invalid_segment_routing}
use openiwan.Sr.Monitor.{SrMonitorBody}

-- 5 s
abbrev pub sr_peer_down_after : ℕ
sr_peer_down_after = 5_000_000_000

pub data SrMonitorState : Type 0 where
  idle probing established peer_down : SrMonitorState

pub record DelayAccumulator : Type 0 where
  pub current : ℕ
  pub minimum : ℕ
  pub maximum : ℕ

unfoldable pub observe : ℕ → DelayAccumulator → DelayAccumulator
observe value d = record {
  current = value;
  minimum = if d.minimum == 0 then value else min d.minimum value;
  maximum = max d.maximum value;
}

pub record SrMonitor : Type 0 where
  pub state : SrMonitorState
  pub sr_id : ℕ
  pub tx_count : ℕ
  pub rx_count : ℕ
  pub last_response : Option ℕ
  pub delay : DelayAccumulator

abbrev pub new_monitor : ℕ → SrMonitor
new_monitor sr_id = record {
  state = idle;
  sr_id = sr_id;
  tx_count = 0;
  rx_count = 0;
  last_response = none;
  delay = record { current = 0; minimum = 0; maximum = 0 };
}

-- `matches!(self.state, SrMonitorState::Idle | SrMonitorState::PeerDown)`
unfoldable pub is_initial : SrMonitorState → Bool
is_initial idle = true
is_initial peer_down = true
is_initial _ = false

unfoldable pub next_monitor : SrMonitor → SrMonitor
next_monitor m =
    if is_initial m.state
    then record m { tx_count = 1; rx_count = 0; state = probing }
    else record m { tx_count = (m.tx_count + 1) % 2 ^ 32 }

-- The state after the call, and the body to send.
unfoldable pub request : ℕ → SrMonitor → SrMonitor × SrMonitorBody
unfolding next_monitor is_initial
request tick_micros m =
    let after = next_monitor m in
    (
      after,
      record {
        tick_micros = tick_micros;
        current_delay_micros = m.delay.current;
        minimum_delay_micros = m.delay.minimum;
        maximum_delay_micros = m.delay.maximum;
        sr_id = m.sr_id;
        version = 0;
        marker = 0x79;
        flags = if is_initial m.state then 1 else 0;
        tx_count = after.tx_count;
        rx_count = after.rx_count;
      },
    )

unfoldable pub accept_response : SrMonitorBody → ℕ → ℕ → SrMonitor → SrMonitor × Result (Unit {0})
accept_response response now rtt_micros m =
    if response.sr_id != m.sr_id
    then (m, err (invalid_segment_routing "SR monitor response has the wrong SR ID"))
    else if bit_and response.flags 2 == 0
    then (m, err (invalid_segment_routing "SR monitor response does not enable counter processing"))
    else (
      record m {
        rx_count = response.rx_count;
        last_response = some now;
        delay = observe rtt_micros m.delay;
        state = established;
      },
      ok tt,
    )

-- `last_response.and_then(checked_duration_since).is_some_and(|age| age > SR_PEER_DOWN_AFTER)`
unfoldable pub is_overdue : ℕ → Option ℕ → Bool
is_overdue now none = false
is_overdue now (some last) = if ltb now last then false else ltb sr_peer_down_after (now - last)

unfoldable pub update_peer_state : ℕ → SrMonitor → SrMonitor
update_peer_state now m =
    if is_overdue now m.last_response then record m { state = peer_down } else m

pub record SrMonitorResponder : Type 0 where
  pub active : Bool
  pub receive_count : ℕ

unfoldable pub respond :
    SrMonitorBody → SrMonitorResponder → SrMonitorResponder × Option SrMonitorBody
respond request r =
    let count = (r.receive_count + 1) % 2 ^ 32 in
    if bit_and request.flags 1 != 0
    then (
      record { active = true; receive_count = 1 },
      some (record request { flags = 3; rx_count = 1 }),
    )
    else if r.active
    then (record r { receive_count = count }, some (record request { flags = 2; rx_count = count }))
    else (r, none)
