-- ===== src/Client/Reconnect.antt =====
-- src/client.rs: `run_reconnecting`, over the rounds of its loop. Delays are milliseconds, elapsed
-- times and sleeps nanoseconds. `wait_interruptibly` stands in Client.Waiting.
pub mod Backoff
pub mod Ending
use openiwan.Prelude.{
  ℕ, ◌+◌, ◌*◌, min, leb, ◌==◌, ◌!=◌, ◌||◌, not, if◌then◌else◌, Bool, true, false, Option, none,
  some, List, [], ◌∷◌,
}
use openiwan.Error.{Error, Result, ok, err, stuck, ◌>>=◌, bail, invalid_config, timeout}
use openiwan.Net.{IpAddr, same_optional}
use openiwan.Config.{ReconnectPolicy}
use openiwan.Client.Session.{SessionInfo, SessionEnd, ConnectedSession}
use openiwan.Client.Heartbeat.{heartbeat_timeout_ns}
use openiwan.Client.Waiting.{Glance, wait_interruptibly}

-- `==` on `bool`.
abbrev pub same_flag : Bool → Bool → Bool
same_flag true b = b
same_flag false b = not b

unfoldable pub ensure_same_tun_assignment : SessionInfo → SessionInfo → Result (Unit {0})
ensure_same_tun_assignment expected actual =
    bail
      (not (same_optional expected.address actual.address)
        || not (same_optional expected.gateway actual.gateway)
        || expected.mtu != actual.mtu
        || not (same_flag expected.segment_routing actual.segment_routing))
      (invalid_config "server changed the tunnel assignment during reconnection")

-- What one round meets: whether a shutdown was asked for, the session that authentication gives,
-- how the session's run ends, how long it ran, and what the wait after the round meets. An error is
-- `none`: it is only logged.
pub record Attempt : Type 0 where
  pub shutdown : Bool
  pub authentication : Option ConnectedSession
  pub run : Option SessionEnd
  pub elapsed_ns : ℕ
  pub glances : List Glance

-- The loop returns, or goes on, with the budget reset or not.
pub data Verdict : Type 0 where
  returned : Result SessionEnd → Verdict
  again : Bool → Verdict

abbrev pub verdict_of_run : Option SessionEnd → ℕ → Verdict
verdict_of_run (some SessionEnd.local_shutdown) elapsed_ns = returned (ok SessionEnd.local_shutdown)
verdict_of_run (some SessionEnd.server_close) elapsed_ns = returned (ok SessionEnd.server_close)
verdict_of_run (some _) elapsed_ns = again (leb heartbeat_timeout_ns elapsed_ns)
verdict_of_run none elapsed_ns = again false

-- `if let Some(expected) = &expected_assignment { ensure_same_tun_assignment(..)? }`
abbrev pub check_assignment : Option SessionInfo → SessionInfo → Result (Unit {0})
check_assignment none actual = ok tt
check_assignment (some expected) actual = ensure_same_tun_assignment expected actual

unfoldable pub verdict_of_session : Option SessionInfo → Option ConnectedSession → Attempt → Verdict
verdict_of_session expected none attempt = again false
verdict_of_session expected (some session) attempt = elim (check_assignment expected session.info) [
  | ok _ ↦ verdict_of_run attempt.run attempt.elapsed_ns
  | err e ↦ returned (err e)
  | stuck ↦ returned stuck
]

-- `pending_session.take().map_or_else(|| self.authenticate(), Ok)`
abbrev pub take_or : Option ConnectedSession → Option ConnectedSession → Option ConnectedSession
take_or (some session) authentication = some session
take_or none authentication = authentication

unfoldable pub verdict : Option SessionInfo → Option ConnectedSession → Attempt → Verdict
verdict expected pending attempt =
    if attempt.shutdown
    then returned (ok SessionEnd.local_shutdown)
    else verdict_of_session expected (take_or pending attempt.authentication) attempt

-- `retry` and `delay`.
pub record Budget : Type 0 where
  pub retry : ℕ
  pub delay_ms : ℕ

abbrev pub full_budget : ReconnectPolicy → Budget
full_budget policy = record { retry = 0; delay_ms = policy.initial_delay_ms }

abbrev pub renewed : ReconnectPolicy → Bool → Budget → Budget
renewed policy true budget = full_budget policy
renewed policy false budget = budget

-- A call of `wait_interruptibly`: the delay it is given, and the sleeps it makes.
pub record Wait : Type 0 where
  pub delay_ms : ℕ
  pub sleeps : List ℕ

-- The waits, and what is returned; `none` when the rounds, or what a wait meets, ran out with the
-- loop still running.
abbrev pub Course : Type 0
Course = List Wait × Option (Result SessionEnd)

-- The budget after a wait.
abbrev pub spent : ReconnectPolicy → Budget → Budget
spent policy budget = record {
  retry = budget.retry + 1;
  delay_ms = min (budget.delay_ms * 2) policy.max_delay_ms;
}

-- A wait of which the sleeps and whether it ended are given, in front of the rest of the loop.
abbrev pub then_wait : ℕ → List ℕ × Bool → Course → Course
then_wait delay_ms (sleeps, ended) rest = (
  record { delay_ms = delay_ms; sleeps = sleeps } ∷ (if ended then rest.0 else []),
  if ended then rest.1 else none,
)

-- The end of a round that did not return: `more` is the rest of the loop. The wait is given the
-- shutdown flag.
unfoldable pub spend : ReconnectPolicy → List Glance → Budget → (Budget → Course) → Course
unfolding wait_interruptibly
spend policy glances budget more =
    let rest = more (spent policy budget) in
    if leb policy.attempts budget.retry
    then ([], some (err (timeout "reconnection budget exhausted")))
    else then_wait budget.delay_ms (wait_interruptibly (budget.delay_ms * 1_000_000) glances) rest

unfoldable pub follow :
    ReconnectPolicy → List Glance → Verdict → Budget → (Budget → Course) → Course
unfolding spend
follow policy glances (returned result) budget more = ([], some result)
follow policy glances (again reset) budget more =
    spend policy glances (renewed policy reset budget) more

unfoldable pub reconnect_loop :
    ReconnectPolicy → Option SessionInfo → List Attempt → Option ConnectedSession → Budget → Course
unfolding follow
reconnect_loop policy expected [] pending budget = ([], none)
reconnect_loop policy expected (attempt ∷ attempts) pending budget =
    follow policy attempt.glances (verdict expected pending attempt) budget
      (reconnect_loop policy expected attempts none)

abbrev pub info_of : Option ConnectedSession → Option SessionInfo
info_of none = none
info_of (some session) = some session.info

unfoldable pub run_reconnecting_inner :
    ReconnectPolicy → Option ConnectedSession → List Attempt → Course
unfolding reconnect_loop
run_reconnecting_inner policy initial attempts =
    reconnect_loop policy (info_of initial) attempts initial (full_budget policy)
