-- ===== src/Worker/Loop.antt =====
-- The loop of `run_forever` (apps/worker/worker.py): its test, the catch around a poll, and its sleep.
use nervora.Base.{ℕ, zero, suc, Bool, true, false, List, [], ◌∷◌, nat_eq, if◌then◌else◌}
use nervora.Servicebus.Interface.{Attempt, done, raised}
use nervora.World.{World}
use nervora.Worker.{Worker, poll_once}

-- `processed`: a poll that raises is printed and counts as 0.
abbrev pub processed : Attempt ℕ → ℕ
processed (done n) = n
processed (raised text) = 0

abbrev pub slept : ℕ → ℕ → ℕ
slept n sleeps = if nat_eq n 0 then suc sleeps else sleeps

module _ {Q : Type 0} (poll : World Q → Attempt ℕ × World Q) (sleep : World Q → World Q) where
  -- `sleep` is what happens during `time.sleep(idle_sleep)`: at least, time passes. The list has what `_running` is at each test of the loop, which a signal sets to false; where it
  -- ends the loop is still running. The result counts the calls of `time.sleep`.
  unfoldable pub run_forever : List Bool → ℕ → World Q → ℕ × World Q
  run_forever [] sleeps w = (sleeps, w)
  run_forever (false ∷ running) sleeps w = (sleeps, w)
  run_forever (true ∷ running) sleeps w =
      let (result, w') = poll w in
      run_forever running (slept (processed result) sleeps)
        (if nat_eq (processed result) 0 then sleep w' else w')

-- The poll of a worker, which does not raise unless its queue does.
abbrev pub poll_of : {Q : Type 0} → Worker Q → World Q → Attempt ℕ × World Q
poll_of x w = (done (poll_once x 10 30 w).0, (poll_once x 10 30 w).1)

-- Tests that all find the worker running.
abbrev pub runs : ℕ → List Bool
runs zero = []
runs (suc n) = true ∷ runs n
