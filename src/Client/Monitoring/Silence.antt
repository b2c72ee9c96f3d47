-- ===== src/Client/Monitoring/Silence.antt =====
-- src/client.rs: a path that stays silent.
use openiwan.Prelude.{
  ℕ, ◌<◌, ◌≡◌, ◌≢◌, ◌⊎◌, inl, inr, refl, sym, ap, ◌∙◌, ltb, if◌then◌else◌, Bool, true, false,
  Option, none, some, List, [], ◌∷◌, arith,
}
use openiwan.Sr.Liveness.{
  SrMonitor, SrMonitorState, probing, sr_peer_down_after, new_monitor, is_initial, is_overdue,
  next_monitor, request, update_peer_state,
}
use openiwan.Client.Session.{SessionInfo, SrRuntime, WorkerFailure}
use openiwan.Client.Monitoring.{Turn, wake, response, is_lost, Watch, then_turns, run_monitor}

-- Wake-ups without a response, up to one that comes later than the limit.
abbrev pub Late : List Turn → Type 0
Late [] = ⊥
Late (wake now elapsed tick sent ∷ turns) = (sr_peer_down_after < elapsed) ⊎ Late turns
Late (response body now rtt ∷ turns) = ⊥

abbrev IsProbing : SrMonitor → Type 0
IsProbing m = (m.state ≡ probing) × (m.last_response ≡ none)

asked_probing :
    (now tick : ℕ) (m : SrMonitor)
    → IsProbing m
    → ((update_peer_state now m).state ≡ probing)
      × IsProbing (request tick (update_peer_state now m)).0
unfolding update_peer_state is_overdue request next_monitor is_initial
asked_probing now tick m (state, silent) = rw (state, silent) (refl, (refl, refl))

failed_or_later :
    (m : SrMonitor) (failure : Option WorkerFailure) (rest : Watch)
    → rest.1 ≢ none
    → (then_turns m failure rest).1 ≢ none
failed_or_later m none rest h = h
failed_or_later m (some failure) rest h = λ q. cc

choice_reports :
    (b : Bool) (r q : Watch)
    → (b ≡ true → r.1 ≢ none)
    → (b ≡ false → q.1 ≢ none)
    → (if b then r else q).1 ≢ none
choice_reports true r q h k = h refl
choice_reports false r q h k = k refl

module _ (info : SessionInfo) (runtime : SrRuntime) where
  probing_reports :
      (turns : List Turn) (m : SrMonitor)
      → IsProbing m
      → Late turns
      → (run_monitor info runtime turns m).1 ≢ none
  unfolding run_monitor is_lost
  probing_reports [] m h late = absurd late
  probing_reports (response body now rtt ∷ turns) m h late = absurd late
  probing_reports (wake now elapsed tick sent ∷ turns) m h late =
      let (state, next) = asked_probing now tick m h in
      choice_reports (is_lost (update_peer_state now m).state elapsed) _ _ (λ _. λ q. cc)
        (λ found. failed_or_later _ _ _ (
          probing_reports turns _ next
            (still late (sym (ap (λ (k : SrMonitorState). is_lost k elapsed) state) ∙ found))))
    where
      still :
          (sr_peer_down_after < elapsed) ⊎ Late turns
          → ltb sr_peer_down_after elapsed ≡ false
          → Late turns
      still (inl over) e = absurd (ground arith)
      still (inr more) e = more

  -- A path that never answers is reported: the worker of a new monitor reports a failure within any
  -- wake-ups without a response of which one after the first comes more than five seconds after the
  -- worker's start, whether the requests can be sent or not.
  pub run_monitor-Late :
      (sr_id now elapsed tick : ℕ) (sent : Bool) (turns : List Turn)
      → Late turns
      → (run_monitor info runtime (wake now elapsed tick sent ∷ turns) (new_monitor sr_id)).1 ≢ none
  unfolding run_monitor update_peer_state is_overdue request next_monitor is_initial is_lost
  run_monitor-Late sr_id now elapsed tick sent turns late =
      failed_or_later _ _ _ (probing_reports turns _ (refl, refl) late)
