-- ===== src/Sr/Liveness/Exchange.antt =====
-- src/sr.rs: exchanges between a monitor and a responder.
use openiwan.Prelude.{
  ℕ, ◌+◌, ◌%◌, ◌^◌, ◌≤◌, ◌<◌, Bool-cases, ◌≡◌, ◌⊎◌, inl, inr, refl, true, false, some, arith,
}
use openiwan.Error.{ok}
use openiwan.Sr.Monitor.{SrMonitorBody}
use openiwan.Sr.Liveness.{
  SrMonitor, SrMonitorResponder, established, peer_down, is_initial, request, accept_response,
  respond, update_peer_state, is_overdue, next_monitor,
}

-- A monitor that has started is known to the responder, and the two count the same probes.
pub record Synced (m : SrMonitor) (r : SrMonitorResponder) : Type 0 where
  pub known : is_initial m.state ≡ false → r.active ≡ true
  pub counts : is_initial m.state ≡ false → m.tx_count ≡ r.receive_count

-- A round between a monitor and a responder that agree, where neither message is lost: the
-- responder answers, the monitor accepts the answer, is established afterwards and has a receive
-- count equal to its transmit count, and the two agree again.
pub round-Synced :
    (tick now rtt : ℕ) (m : SrMonitor) (r : SrMonitorResponder)
    → Synced m r
    → (reply : SrMonitorBody) × ((respond (request tick m).1 r).1 ≡ some reply)
      × ((accept_response reply now rtt (request tick m).0).1 ≡ ok tt)
      × ((accept_response reply now rtt (request tick m).0).0.state ≡ established)
      × ((accept_response reply now rtt (request tick m).0).0.rx_count
          ≡ (accept_response reply now rtt (request tick m).0).0.tx_count)
      × Synced (accept_response reply now rtt (request tick m).0).0 (respond (request tick m).1 r).0
unfolding request next_monitor is_initial respond accept_response
round-Synced tick now rtt m r synced = elim (Bool-cases (is_initial m.state)) [
  | inl fresh ↦ (
    record (request tick m).1 { flags = 3; rx_count = 1 },
    rw fresh refl,
    rw fresh (ground arith),
    rw fresh (ground arith),
    rw fresh (ground arith),
    record { known = rw fresh (ground arith); counts = rw fresh (ground arith) },
  )
  | inr running ↦
      let active = synced.known running in
      let count = synced.counts running in
      (
        record (request tick m).1 { flags = 2; rx_count = (r.receive_count + 1) % 2 ^ 32 },
        rw (running, active) refl,
        rw running (ground arith),
        rw running (ground arith),
        rw running (ground arith),
        record {
          known = rw (running, active) (ground arith);
          counts = rw (running, active) (ground arith);
        },
      )
]

-- A monitor that accepted a response at `t` and got no other is still established at any `now`
-- from `t` to five seconds after it, and counts its peer as down when asked later.
pub update_peer_state_after :
    (response : SrMonitorBody) (t rtt now : ℕ) (m : SrMonitor)
    → (accept_response response t rtt m).1 ≡ ok tt
    → t ≤ now
    → ((now ≤ t + 5_000_000_000)
        × ((update_peer_state now (accept_response response t rtt m).0).state ≡ established))
      ⊎ ((t + 5_000_000_000 < now)
          × ((update_peer_state now (accept_response response t rtt m).0).state ≡ peer_down))
unfolding accept_response update_peer_state is_overdue
update_peer_state_after response t rtt now m e h = ground arith
