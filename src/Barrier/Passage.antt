-- ===== src/Barrier/Passage.antt =====
-- What the threads of exersises/concurrency/semaphores/exercise/barrier.c promise: each child prints
-- "before" before any prints "after", and the program ends.
use osvcp.Prelude.{ℕ, ◌+◌, ◌≤◌, ◌≡◌}
use osvcp.Barrier
use osvcp.Barrier.Children.{State, Step, Reachable}

record IsCrowd (n : ℕ) (s : State) : Type 0 where
  run : Barrier.Reachable n s.b
  all : s.to_create + s.started + s.calling + s.b.arriving + s.b.arrived ≡ n
  returned : s.finished ≤ s.b.passed

abbrev CanStep : ℕ → State → Type 0
CanStep n s = (t : State) × Step n s t
