-- ===== src/SloppyCounter/Cores/Progress.antt =====
-- The threads of
-- exersises/concurrency/locked-data-structures/2/cpu_based/sloppy_counter_cpu_based.c do not wait
-- for each other for ever.
use osvcp.Prelude.{ℕ}
use osvcp.SloppyCounter.Cores.{State, Step}

module _ (limit : ℕ) where
  abbrev pub CanStep : State → Type 0
  CanStep s = (t : State) × Step limit s t
