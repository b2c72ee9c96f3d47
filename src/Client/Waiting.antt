-- ===== src/Client/Waiting.antt =====
-- src/client.rs: `wait_interruptibly`, over the rounds of its loop. Times are nanoseconds.
use openiwan.Prelude.{ℕ, ◌-◌, ◌&&◌, ltb, min, if◌then◌else◌, Bool, true, false, List, [], ◌∷◌}

-- What a round meets: the flag, and the time since the start when the condition and when the
-- remaining time read it.
pub record Glance : Type 0 where
  pub running : Bool
  pub elapsed_ns : ℕ
  pub elapsed_again_ns : ℕ

-- The sleeps, and whether the loop ended within the rounds. It goes on only while the flag is set.
unfoldable pub wait_interruptibly : ℕ → List Glance → List ℕ × Bool
wait_interruptibly duration [] = ([], false)
wait_interruptibly duration (glance ∷ glances) =
    let (sleeps, ended) = wait_interruptibly duration glances in
    if glance.running && ltb glance.elapsed_ns duration
    then (min (duration - glance.elapsed_again_ns) 100_000_000 ∷ sleeps, ended)
    else ([], true)
