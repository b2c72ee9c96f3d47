-- ===== src/Client/Handshake/Waiting.antt =====
-- src/client.rs: how long authentication waits.
use openiwan.Prelude.{
  ℕ, ◌+◌, ◌-◌, ◌*◌, ◌≤◌, ◌≡◌, ◌≢◌, ◌⊎◌, ◌<◌, refl, min, leb, ◌==◌, Bool-cases, Option-cases, inl,
  inr, none, some, List, [], ◌∷◌, length, arith,
}
use openiwan.Crypto.Primitives.{Primitives}
use openiwan.Client.Rejection.{Text}
use openiwan.Client.Handshake.{
  auth_attempt_timeout, auth_retry_delay, auth_overall_timeout, authentication_attempt_timeout,
  Trial, Opening, outcome_of, authenticate_loop, authenticate,
}

-- The receive takes time, and the thread sleeps a second between two rounds.
abbrev pub Timed : ℕ → List Trial → Type 0
Timed from [] = Unit
Timed from (trial ∷ trials) =
    (from ≤ trial.started)
    × (trial.started ≤ trial.ended)
    × Timed (trial.ended + 1_000_000_000) trials

-- An attempt's timeout is positive, at most three seconds, and ends within the budget; without one
-- the budget is spent.
pub authentication_attempt_timeout_exact :
    (elapsed overall : ℕ)
    → ((authentication_attempt_timeout elapsed overall ≡ none) × (overall ≤ elapsed))
      ⊎ ((t : ℕ) × (authentication_attempt_timeout elapsed overall ≡ some t)
          × (1 ≤ t)
          × (t ≤ 3_000_000_000)
          × (elapsed + t ≤ overall))
unfolding authentication_attempt_timeout
authentication_attempt_timeout_exact elapsed overall = elim (Bool-cases (overall - elapsed == 0)) [
  | inl spent ↦ inl (rw spent refl, ground arith)
  | inr left ↦ inr (
    min (overall - elapsed) auth_attempt_timeout,
    rw left refl,
    ground arith,
    ground arith,
    ground arith,
  )
]

module _ (p : Primitives) (t : Text) (o : Opening) where
  loop_ends :
      (overall from : ℕ) (trials : List Trial)
      → Timed from trials
      → 1 ≤ length trials
      → overall ≤ from + 1_000_000_000 * length trials
      → authenticate_loop p t o overall trials ≢ none
  unfolding authenticate_loop
  loop_ends overall from [] timed some_trial enough = absurd (omega arith)
  loop_ends overall from (trial ∷ trials) timed some_trial enough =
      elim (Option-cases (authentication_attempt_timeout trial.started overall)) [
        | inl spent ↦ rw (authenticate_loop, spent) (λ q. cc)
        | inr (_, left) ↦ elim (Option-cases (outcome_of p t o trial)) [
          | inr (result, answered) ↦ rw (authenticate_loop, left, answered) (λ q. cc)
          | inl waiting ↦ elim (Bool-cases (leb overall (trial.ended + auth_retry_delay))) [
            | inl late ↦ rw (authenticate_loop, left, waiting, late) (λ q. cc)
            | inr early ↦
                let before : trial.ended + 1_000_000_000 < overall = ground arith in
                rw (authenticate_loop, left, waiting, early)
                  (loop_ends overall (trial.ended + 1_000_000_000) trials timed.2
                    (omega (arith, before, timed.0, timed.1, enough))
                    (omega (arith, before, timed.0, timed.1, enough)))
          ]
        ]
      ]

  -- Authentication ends within thirteen rounds: with the clock running on and a second's sleep
  -- between the rounds, one of the first thirteen returns a session or an error, whatever the socket
  -- gives.
  pub authenticate-Timed :
      (from : ℕ) (trials : List Trial)
      → Timed from trials
      → 13 ≤ length trials
      → authenticate p t o trials ≢ none
  unfolding authenticate
  authenticate-Timed from trials timed enough =
      loop_ends auth_overall_timeout from trials timed (omega arith) (omega arith)
