-- ===== src/Client/Reconnect/Ending.antt =====
-- src/client.rs: what `run_reconnecting` returns, and bounds on its waits.
use openiwan.Prelude.{
  ℕ, ◌*◌, ◌≤◌, ◌≡◌, ◌⊎◌, inl, inr, ap, leb, if◌then◌else◌, Bool-cases, ltb, ◌&&◌, Bool, true, false,
  Option, none, some, List, [], ◌∷◌, All, arith,
}
use Prim.Native.Nat.{max}
use openiwan.Error.{ok, err, stuck, Result-cases}
use openiwan.Config.{ReconnectPolicy}
use openiwan.Client.Session.{SessionInfo, SessionEnd, ConnectedSession}
use openiwan.Client.Waiting.{Glance, wait_interruptibly}
use openiwan.Client.Reconnect.{
  Attempt, Verdict, returned, again, verdict_of_run, check_assignment, verdict_of_session, take_or,
  verdict, Budget, full_budget, Wait, Course, spent, then_wait, spend, follow, reconnect_loop,
  run_reconnecting_inner,
}

-- A delay of at most `most`, and no sleep longer than it or than a tenth of a second.
abbrev pub Bounded : ℕ → Wait → Type 0
Bounded most wait =
    (wait.delay_ms ≤ most)
    × All (λ (t : ℕ). (t ≤ wait.delay_ms * 1_000_000) × (t ≤ 100_000_000)) wait.sleeps

-- What the loop returns without an error, and its waits.
abbrev Returns : ℕ → Course → Type 0
Returns most course =
    ((e : SessionEnd)
      → course.1 ≡ some (ok e)
      → (e ≡ SessionEnd.local_shutdown) ⊎ (e ≡ SessionEnd.server_close))
    × All (Bounded most) course.0

wait_interruptibly_short :
    (duration : ℕ) (glances : List Glance)
    → All (λ (t : ℕ). (t ≤ duration) × (t ≤ 100_000_000)) (wait_interruptibly duration glances).0
unfolding wait_interruptibly
wait_interruptibly_short duration [] = tt
wait_interruptibly_short duration (glance ∷ glances) =
    elim (Bool-cases (glance.running && ltb glance.elapsed_ns duration)) [
      | inl more ↦ rw more ((omega arith, omega arith), wait_interruptibly_short duration glances)
      | inr over ↦ rw over tt
    ]

then_wait-Returns :
    (most delay_ms : ℕ) (wait : List ℕ × Bool) (rest : Course)
    → Bounded most (record { delay_ms = delay_ms; sleeps = wait.0 })
    → Returns most rest
    → Returns most (then_wait delay_ms wait rest)
then_wait-Returns most delay_ms (sleeps, true) rest short next = (next.0, (short, next.1))
then_wait-Returns most delay_ms (sleeps, false) rest short next = (λ e q. cc, (short, tt))

run-Returns :
    (end : Option SessionEnd) (elapsed : ℕ) (e : SessionEnd)
    → verdict_of_run end elapsed ≡ returned (ok e)
    → (e ≡ SessionEnd.local_shutdown) ⊎ (e ≡ SessionEnd.server_close)
run-Returns (some SessionEnd.local_shutdown) elapsed e h = inl cc
run-Returns (some SessionEnd.server_close) elapsed e h = inr cc
run-Returns (some SessionEnd.heartbeat_timeout) elapsed e h = cc
run-Returns (some SessionEnd.transport_failure) elapsed e h = cc
run-Returns none elapsed e h = cc

verdict-Returns :
    (expected : Option SessionInfo) (pending : Option ConnectedSession) (attempt : Attempt)
    (e : SessionEnd)
    → verdict expected pending attempt ≡ returned (ok e)
    → (e ≡ SessionEnd.local_shutdown) ⊎ (e ≡ SessionEnd.server_close)
unfolding verdict verdict_of_session
verdict-Returns expected pending attempt e h = choose attempt.shutdown h
  where
    session :
        (s : Option ConnectedSession)
        → verdict_of_session expected s attempt ≡ returned (ok e)
        → (e ≡ SessionEnd.local_shutdown) ⊎ (e ≡ SessionEnd.server_close)
    session none q = cc
    session (some s) q = elim (Result-cases (check_assignment expected s.info)) [
      | inl (_, met) ↦
          run-Returns attempt.run attempt.elapsed_ns e (rw (verdict_of_session, met) at q)
      | inr (inl (x, failed)) ↦
          let clash : returned (err x) ≡ returned (ok e) = rw (verdict_of_session, failed) at q in
          cc
      | inr (inr failed) ↦
          let clash : returned stuck ≡ returned (ok e) = rw (verdict_of_session, failed) at q in cc
    ]

    choose :
        (b : Bool)
        → (if b
            then returned (ok SessionEnd.local_shutdown)
            else verdict_of_session expected (take_or pending attempt.authentication) attempt)
          ≡ returned (ok e)
        → (e ≡ SessionEnd.local_shutdown) ⊎ (e ≡ SessionEnd.server_close)
    choose true q = inl cc
    choose false q = session (take_or pending attempt.authentication) q

spend-Returns :
    (policy : ReconnectPolicy) (most : ℕ) (glances : List Glance) (budget : Budget)
    (more : Budget → Course)
    → budget.delay_ms ≤ most
    → policy.max_delay_ms ≤ most
    → Returns most (more (spent policy budget))
    → Returns most (spend policy glances budget more)
unfolding spend
spend-Returns policy most glances budget more h k next =
    elim (Bool-cases (leb policy.attempts budget.retry)) [
      | inl empty ↦ rw empty (λ e q. cc, tt)
      | inr left ↦
          let duration = budget.delay_ms * 1_000_000 in
          rw left (
            then_wait-Returns most budget.delay_ms (wait_interruptibly duration glances)
              (more (spent policy budget)) (h, wait_interruptibly_short duration glances) next)
    ]

loop-Returns :
    (policy : ReconnectPolicy) (most : ℕ) (expected : Option SessionInfo) (attempts : List Attempt)
    (pending : Option ConnectedSession) (budget : Budget)
    → policy.initial_delay_ms ≤ most
    → policy.max_delay_ms ≤ most
    → budget.delay_ms ≤ most
    → Returns most (reconnect_loop policy expected attempts pending budget)
unfolding reconnect_loop follow
loop-Returns policy most expected [] pending budget hi hm hb = (λ e q. cc, tt)
loop-Returns policy most expected (attempt ∷ attempts) pending budget hi hm hb =
    go (verdict expected pending attempt) (λ e q. verdict-Returns expected pending attempt e q)
      (λ b. loop-Returns policy most expected attempts none b hi hm)
  where
    go :
        (v : Verdict)
        → ((e : SessionEnd)
            → v ≡ returned (ok e)
            → (e ≡ SessionEnd.local_shutdown) ⊎ (e ≡ SessionEnd.server_close))
        → ((b : Budget)
            → b.delay_ms ≤ most
            → Returns most (reconnect_loop policy expected attempts none b))
        → Returns most
            (follow policy attempt.glances v budget (reconnect_loop policy expected attempts none))
    go (returned r) h next = (λ e q. h e (ap returned cc), tt)
    go (again true) h next =
        spend-Returns policy most attempt.glances (full_budget policy)
          (reconnect_loop policy expected attempts none) hi hm
          (next (spent policy (full_budget policy)) (omega (arith, hm)))
    go (again false) h next =
        spend-Returns policy most attempt.glances budget
          (reconnect_loop policy expected attempts none) hb hm
          (next (spent policy budget) (omega (arith, hm)))

-- Whatever the rounds bring, the loop returns without an error only for a local shutdown or a close
-- by the server, never for a heartbeat timeout or a transport failure. No wait is given a delay
-- longer than both the initial and the largest delay, and no sleep of a wait is longer than its delay
-- or than a tenth of a second.
pub run_reconnecting_inner-Returns :
    (policy : ReconnectPolicy) (initial : Option ConnectedSession) (attempts : List Attempt)
    → ((e : SessionEnd)
        → (run_reconnecting_inner policy initial attempts).1 ≡ some (ok e)
        → (e ≡ SessionEnd.local_shutdown) ⊎ (e ≡ SessionEnd.server_close))
      × All
          (Bounded (max policy.initial_delay_ms policy.max_delay_ms))
          (run_reconnecting_inner policy initial attempts).0
unfolding run_reconnecting_inner
run_reconnecting_inner-Returns policy initial attempts =
    loop-Returns policy (max policy.initial_delay_ms policy.max_delay_ms) _ attempts initial
      (full_budget policy) (omega arith) (omega arith) (omega arith)
