-- ===== src/Client/Monitoring.antt =====
-- src/client.rs: the rounds of the worker that monitors a path, and which worker a session runs.
-- Instants are nanoseconds.
pub mod Silence
use openiwan.Prelude.{
  ℕ, ltb, ◌&&◌, ◌||◌, if◌then◌else◌, Bool, true, false, Option, none, some, List, [], ◌∷◌, ◌++◌,
}
use openiwan.Error.{Result, ok, err, stuck}
use openiwan.Protocol.Types.{echo_request}
use openiwan.Sr.Monitor.{SrMonitorBody, encode_monitor_datagram}
use openiwan.Sr.Liveness.{
  SrMonitor, SrMonitorState, probing, peer_down, sr_peer_down_after, request, accept_response,
  update_peer_state,
}
use openiwan.Client.Session.{SessionInfo, sr_tuple, SrRuntime, WorkerFailure, ConnectedSession}

-- What happens to the monitor, in order: the worker wakes up at an instant, this long after its
-- start, with this tick and a socket that sends or does not; or the receiver meets a response, with
-- its round-trip time.
pub data Turn : Type 0 where
  wake : ℕ → ℕ → ℕ → Bool → Turn
  response : SrMonitorBody → ℕ → ℕ → Turn

-- `state == PeerDown || (state == Probing && elapsed > SR_PEER_DOWN_AFTER)`
unfoldable pub is_lost : SrMonitorState → ℕ → Bool
is_lost peer_down elapsed = true
is_lost probing elapsed = ltb sr_peer_down_after elapsed
is_lost _ elapsed = false

-- A request that cannot be encoded counts as a heartbeat timeout.
unfoldable pub failure_of : Result (List ℕ) → Bool → Option WorkerFailure
failure_of (ok packet) true = none
failure_of (ok packet) false = some WorkerFailure.transport
failure_of (err e) sent = some WorkerFailure.heartbeat_timeout
failure_of stuck sent = some WorkerFailure.heartbeat_timeout

-- The monitor at the end, and the failure that the worker reports.
abbrev pub Watch : Type 0
Watch = SrMonitor × Option WorkerFailure

-- The rest of the worker's rounds run unless it failed.
abbrev pub then_turns : SrMonitor → Option WorkerFailure → Watch → Watch
then_turns m none rest = rest
then_turns m (some failure) rest = (m, some failure)

module _ (info : SessionInfo) (runtime : SrRuntime) where
  unfoldable pub run_monitor : List Turn → SrMonitor → Watch
  unfolding is_lost failure_of
  run_monitor [] m = (m, none)
  run_monitor (wake now elapsed tick sent ∷ turns) m =
      let checked = update_peer_state now m in
      let (asked, body) = request tick checked in
      let packet = encode_monitor_datagram echo_request body runtime.config.links (sr_tuple info) in
      let rest = run_monitor turns asked in
      if is_lost checked.state elapsed
      then (checked, some WorkerFailure.heartbeat_timeout)
      else then_turns asked (failure_of packet sent) rest
  run_monitor (response body now rtt ∷ turns) m =
      run_monitor turns (accept_response body now rtt m).0

pub data Worker : Type 0 where
  heartbeat monitor no_worker : Worker

-- A session with segment routing monitors its path if the path asks for keepalives; any other sends
-- heartbeats.
unfoldable pub worker_of : Option SrRuntime → Worker
worker_of none = heartbeat
worker_of (some runtime) = if runtime.config.keepalive then monitor else no_worker
