-- ===== src/Client/Heartbeat/Timeout.antt =====
-- src/client.rs: when the heartbeat worker reports a failure.
use openiwan.Prelude.{
  ℕ, ◌+◌, ◌≤◌, ◌<◌, ◌≡◌, ◌↔◌, refl, sym, subst, Bool-cases, inl, inr, true, false, List, [], ◌∷◌,
  length, none, some, arith,
}
use openiwan.Client.Session.{WorkerFailure}
use openiwan.Client.Heartbeat.{
  HeartbeatTracker, request_body, observe, timed_out, Beat, wake, response, run_heartbeat,
}

-- Wake-ups alone, at each of which the request could be sent.
abbrev pub Silent : List Beat → Type 0
Silent [] = Unit
Silent (wake now tick sent ∷ beats) = (sent ≡ true) × Silent beats
Silent (response now rtt ∷ beats) = ⊥

-- At each wake-up fewer than ten requests wait for a response, and the last response is at most
-- 20 s old; each request can be sent.
abbrev pub Prompt : ℕ → ℕ → List Beat → Type 0
Prompt last misses [] = Unit
Prompt last misses (wake now tick sent ∷ beats) =
    (misses < 10) × (now ≤ last + 20_000_000_000) × (sent ≡ true) × Prompt last (misses + 1) beats
Prompt last misses (response now rtt ∷ beats) = Prompt now 0 beats

timed_out_iff :
    (now : ℕ) (t : HeartbeatTracker)
    → (timed_out now t ≡ false) ↔ ((t.missed < 10) × (now ≤ t.last_response + 20_000_000_000))
unfolding timed_out
timed_out_iff now t = (λ e. ground arith, λ (a, b). ground arith)

counted :
    (tick : ℕ) (t : HeartbeatTracker)
    → t.missed < 10
    → (request_body tick t).0.missed ≡ t.missed + 1
unfolding request_body
counted tick t h = ground arith

-- Wake-ups in a row at which the requests can be sent, without a response, make the worker report a
-- heartbeat timeout by the eleventh, counting the misses before the first, whatever their times.
pub run_heartbeat-Silent :
    (beats : List Beat) (t : HeartbeatTracker)
    → Silent beats
    → 1 ≤ length beats
    → 11 ≤ length beats + t.missed
    → (run_heartbeat beats t).1 ≡ some WorkerFailure.heartbeat_timeout
unfolding run_heartbeat
run_heartbeat-Silent [] t silent some_beat enough = absurd (omega arith)
run_heartbeat-Silent (response _ _ ∷ beats) t silent some_beat enough = absurd silent
run_heartbeat-Silent (wake now tick sent ∷ []) t silent some_beat enough =
    elim (Bool-cases (timed_out now t)) [
      | inl late ↦ rw late
      | inr waiting ↦ let (few, _) = (timed_out_iff now t).0 waiting in absurd (omega arith)
    ]
run_heartbeat-Silent (wake now tick sent ∷ (beat ∷ beats)) t silent some_beat enough =
    elim (Bool-cases (timed_out now t)) [
      | inl late ↦ rw late
      | inr waiting ↦
          let (few, _) = (timed_out_iff now t).0 waiting in
          rw (waiting, silent.0)
            (run_heartbeat-Silent (beat ∷ beats) (request_body tick t).0 silent.1 (omega arith)
              (omega (arith, counted tick t few)))
    ]

-- The worker runs through a sequence of wake-ups and responses without reporting a failure exactly
-- if it is `Prompt`: at each wake-up fewer than ten requests wait for a response, the last response is
-- at most 20 s old, and the request can be sent.
pub run_heartbeat_exact :
    (beats : List Beat) (t : HeartbeatTracker)
    → ((run_heartbeat beats t).1 ≡ none) ↔ Prompt t.last_response t.missed beats
unfolding run_heartbeat observe request_body
run_heartbeat_exact [] t = (λ e. tt, λ h. refl)
run_heartbeat_exact (response now rtt ∷ beats) t = run_heartbeat_exact beats (observe now rtt t)
run_heartbeat_exact (wake now tick sent ∷ beats) t = (
  λ e. elim (Bool-cases (timed_out now t)) [
    | inl late ↦ let clash : some WorkerFailure.heartbeat_timeout ≡ none = rw late at e in cc
    | inr waiting ↦ elim (Bool-cases sent) [
      | inl yes_sent ↦
          let (few, soon) = (timed_out_iff now t).0 waiting in
          let rest =
            (run_heartbeat_exact beats (request_body tick t).0).0 (rw (waiting, yes_sent) at e) in
          (
            few,
            soon,
            yes_sent,
            subst (λ n. Prompt t.last_response n beats) (counted tick t few) rest,
          )
      | inr unsent ↦
          let clash : some WorkerFailure.transport ≡ none = rw (waiting, unsent) at e in cc
    ]
  ],
  λ (few, soon, yes_sent, rest).
      let waiting = (timed_out_iff now t).1 (few, soon) in
      rw (waiting, yes_sent)
        ((run_heartbeat_exact beats (request_body tick t).0).1
          (subst (λ n. Prompt t.last_response n beats) (sym (counted tick t few)) rest)),
)
