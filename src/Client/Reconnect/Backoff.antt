-- ===== src/Client/Reconnect/Backoff.antt =====
-- src/client.rs: the delays that `run_reconnecting` asks for between its attempts, and the sleeps
-- that it makes of them.
use openiwan.Prelude.{
  ℕ, zero, suc, ◌+◌, ◌*◌, ◌^◌, ◌≤◌, ◌<◌, ◌≡◌, inl, inr, refl, ap, ◌∙◌, min, leb, Bool-cases, true,
  false, Option, none, some, List, [], ◌∷◌, length, get_or, All, arith,
}
use native.Mathlib.Nat.{pow-suc}
use openiwan.Error.{Result, err, timeout}
use openiwan.Config.{ReconnectPolicy}
use openiwan.Client.Session.{SessionInfo, SessionEnd}
use openiwan.Client.Waiting.{Glance, wait_interruptibly}
use openiwan.Client.Reconnect.{
  Attempt, again, verdict_of_session, verdict, Budget, full_budget, Wait, Course, spent, spend,
  follow, reconnect_loop, run_reconnecting_inner,
}

-- The flag is not set when a wait first reads it.
abbrev pub Unset : List Glance → Type 0
Unset [] = ⊥
Unset (glance ∷ glances) = glance.running ≡ false

-- A round in which authentication fails, with no shutdown before it and none at the wait behind it.
abbrev pub Failing : Attempt → Type 0
Failing attempt =
    (attempt.shutdown ≡ false) × (attempt.authentication ≡ none) × Unset attempt.glances

-- A wait that is given a delay and makes no sleep.
abbrev pub sleepless : ℕ → Wait
sleepless delay_ms = record { delay_ms = delay_ms; sleeps = [] }

-- The delay before attempt `k + 1`, counting from 0, from a first delay `d` and a cap `m`.
abbrev pub backoff : ℕ → ℕ → ℕ → ℕ
backoff zero d m = d
backoff (suc k) d m = min (d * 2 ^ suc k) m

mul_grows : (m q : ℕ) → 1 ≤ q → m ≤ m * q
mul_grows zero q h = omega arith
mul_grows (suc m) q h = (let r = mul_grows m q h in omega (arith, r))

capped : (a m q : ℕ) → 1 ≤ q → min (min a m * q) m ≡ min (a * q) m
capped a m q h = elim (Bool-cases (leb a m)) [
  | inl below ↦ let e : min a m ≡ a = ground arith in ap (λ x. min (x * q) m) e
  | inr above ↦
      let e : min a m ≡ m = ground arith in
      let big = mul_grows m q h in
      let bigger = mul_grows a q h in ap (λ x. min (x * q) m) e ∙ omega (arith, big, bigger)
]

pow_positive : (k : ℕ) → 1 ≤ 2 ^ k
pow_positive zero = omega arith
pow_positive (suc k) = let h = pow_positive k in omega arith

powers : (d k : ℕ) → d * 2 * 2 ^ k ≡ d * 2 ^ suc k
powers d k = omega (arith, ap (λ (t : ℕ). d * t) (pow-suc 2 k))

backoff_step : (k d m : ℕ) → backoff k (min (d * 2) m) m ≡ backoff (suc k) d m
backoff_step zero d m = refl
backoff_step (suc k) d m =
    capped (d * 2) m (2 ^ suc k) (pow_positive (suc k)) ∙ ap (λ x. min x m) (powers d (suc k))

Failing-again :
    (expected : Option SessionInfo) (attempt : Attempt)
    → Failing attempt
    → verdict expected none attempt ≡ again false
unfolding verdict verdict_of_session
Failing-again expected attempt (up, unauthenticated, _) = rw (verdict, up, unauthenticated)

Unset-wait :
    (duration : ℕ) (glances : List Glance)
    → Unset glances
    → wait_interruptibly duration glances ≡ ([], true)
unfolding wait_interruptibly
Unset-wait duration [] unset = absurd unset
Unset-wait duration (glance ∷ glances) unset = rw unset

abbrev exhausted : Option (Result SessionEnd)
exhausted = some (err (timeout "reconnection budget exhausted"))

-- The waits and the result of a loop whose rounds all fail, from a budget.
abbrev Exhausts : ReconnectPolicy → Budget → Course → Type 0
Exhausts policy budget course =
    (course.1 ≡ exhausted)
    × (length course.0 + budget.retry ≡ policy.attempts)
    × ((k : ℕ)
        → k + budget.retry < policy.attempts
        → get_or course.0 k (sleepless 0)
          ≡ sleepless (backoff k budget.delay_ms policy.max_delay_ms))

spend-sleepless :
    (policy : ReconnectPolicy) (glances : List Glance) (budget : Budget) (more : Budget → Course)
    → Unset glances
    → leb policy.attempts budget.retry ≡ false
    → spend policy glances budget more
      ≡ (sleepless budget.delay_ms ∷ (more (spent policy budget)).0, (more (spent policy budget)).1)
unfolding spend
spend-sleepless policy glances budget more unset left =
    rw (left, Unset-wait (budget.delay_ms * 1_000_000) glances unset)

spend-Exhausts :
    (policy : ReconnectPolicy) (glances : List Glance) (budget : Budget) (more : Budget → Course)
    → Unset glances
    → budget.retry ≤ policy.attempts
    → (budget.retry < policy.attempts
        → Exhausts policy (spent policy budget) (more (spent policy budget)))
    → Exhausts policy budget (spend policy glances budget more)
unfolding spend
spend-Exhausts policy glances budget more unset within next =
    elim (Bool-cases (leb policy.attempts budget.retry)) [
      | inl empty ↦ rw empty (refl, ground arith, λ k h. absurd (ground arith))
      | inr left ↦
          let room : budget.retry < policy.attempts = ground arith in
          let (result, size, waits) = next room in
          rw (spend-sleepless policy glances budget more unset left)
            (result, omega (arith, size), wait_at _ waits)
    ]
  where
    wait_at :
        (rest : List Wait)
        → ((k : ℕ)
            → k + (budget.retry + 1) < policy.attempts
            → get_or rest k (sleepless 0)
              ≡ sleepless
                  (backoff k (min (budget.delay_ms * 2) policy.max_delay_ms) policy.max_delay_ms))
        → (k : ℕ) → k + budget.retry < policy.attempts
        → get_or (sleepless budget.delay_ms ∷ rest) k (sleepless 0)
          ≡ sleepless (backoff k budget.delay_ms policy.max_delay_ms)
    wait_at rest waits zero h = refl
    wait_at rest waits (suc k) h =
        waits k (omega arith) ∙ ap sleepless (backoff_step k budget.delay_ms policy.max_delay_ms)

loop-Exhausts :
    (policy : ReconnectPolicy) (expected : Option SessionInfo) (attempts : List Attempt)
    (budget : Budget)
    → All Failing attempts
    → budget.retry ≤ policy.attempts
    → policy.attempts < length attempts + budget.retry
    → Exhausts policy budget (reconnect_loop policy expected attempts none budget)
unfolding reconnect_loop follow
loop-Exhausts policy expected [] budget failing within enough = absurd (omega arith)
loop-Exhausts policy expected (attempt ∷ attempts) budget failing within enough =
    rw (Failing-again expected attempt failing.0) (
      spend-Exhausts policy attempt.glances budget (reconnect_loop policy expected attempts none)
        failing.0.2 within
        (λ room.
          loop-Exhausts policy expected attempts (spent policy budget) failing.1 (omega arith)
            (omega arith)))

-- With no session to start from, and while no authentication succeeds and no shutdown is asked for,
-- the loop gives up in its round `attempts + 1` with the timeout of its budget, after exactly
-- `attempts` waits. The first is given the initial delay, the wait at position `k` after it the
-- initial delay times `2 ^ k`, capped by the largest delay; but none of them sleeps: they are given
-- the shutdown flag, and a wait goes on only while its flag is set.
pub run_reconnecting_inner-Failing :
    (policy : ReconnectPolicy) (attempts : List Attempt)
    → All Failing attempts
    → policy.attempts < length attempts
    → ((run_reconnecting_inner policy none attempts).1
        ≡ some (err (timeout "reconnection budget exhausted")))
      × (length (run_reconnecting_inner policy none attempts).0 ≡ policy.attempts)
      × ((k : ℕ)
          → k < policy.attempts
          → get_or (run_reconnecting_inner policy none attempts).0 k (sleepless 0)
            ≡ sleepless (backoff k policy.initial_delay_ms policy.max_delay_ms))
unfolding run_reconnecting_inner
run_reconnecting_inner-Failing policy attempts failing enough =
    let (result, size, waits) =
      loop-Exhausts policy none attempts (full_budget policy) failing (omega arith) (omega arith) in
    (result, omega (arith, size), λ k h. waits k (omega arith))
