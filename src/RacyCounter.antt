-- ===== src/RacyCounter.antt =====
-- exersises/concurrency/uncontrolled-scheduling/t1.c: two threads that count to `max` on one
-- variable without a lock. `counter = counter + 1` reads the variable, which is `volatile`, and
-- then writes it: two steps, between which the other thread may run. The
-- counter is an `int`; an addition that exceeds the greatest `int` is undefined, and no step.
use osvcp.Prelude.{ℕ, suc, ◌+◌, ◌≤◌, ◌≡◌, int_max}
pub mod Bounds
pub mod Schedules

-- Where a thread is in the loop of `mythread`.
pub data Place : Type 0 where
  ready : ℕ → Place  -- this many iterations to go
  loaded : ℕ → ℕ → Place  -- it has read this value, and has this many iterations to go after it

pub record State : Type 0 where
  pub counter : ℕ
  pub a : Place
  pub b : Place

pub data Step : State → State → Type 0 where
  load_a : (s : State) (n : ℕ) → s.a ≡ ready (suc n) → Step s (record s { a = loaded s.counter n })
  store_a :
      (s : State) (value n : ℕ)
      → s.a ≡ loaded value n
      → value + 1 ≤ int_max
      → Step s (record s { counter = value + 1; a = ready n })
  load_b : (s : State) (n : ℕ) → s.b ≡ ready (suc n) → Step s (record s { b = loaded s.counter n })
  store_b :
      (s : State) (value n : ℕ)
      → s.b ≡ loaded value n
      → value + 1 ≤ int_max
      → Step s (record s { counter = value + 1; b = ready n })

-- What `main` starts.
abbrev pub start : ℕ → State
start max = record { counter = 0; a = ready max; b = ready max }

pub data Reachable (max : ℕ) : State → Type 0 where
  begin : Reachable max (start max)
  step : {s t : State} → Reachable max s → Step s t → Reachable max t
