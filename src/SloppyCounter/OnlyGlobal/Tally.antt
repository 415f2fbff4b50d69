-- ===== src/SloppyCounter/OnlyGlobal/Tally.antt =====
-- The count that
-- exersises/concurrency/locked-data-structures/2/cloppy_counter_only_global_lock.c prints.
use osvcp.Prelude.{ℕ, ◌+◌, ◌≡◌, sum, bit}
use osvcp.SloppyCounter.OnlyGlobal.{
  Place, between, moving, releasing, resetting, Thread, State, Step, threads,
}

-- What a thread's updates amount to: those to come, and its local count, unless that is in the
-- global one already.
abbrev counted : Place → ℕ → ℕ
counted releasing n = 0
counted resetting n = 0
counted _ n = n

abbrev share : Thread → ℕ
share t = t.increments + counted t.place t.local_count

abbrev in_section : Place → ℕ
in_section moving = 1
in_section releasing = 1
in_section _ = 0

abbrev holds : Thread → ℕ
holds t = in_section t.place

-- What is left to do, if only a statement.
abbrev busy : Place → ℕ
busy between = 0
busy _ = 1

abbrev work : Thread → ℕ
work t = t.increments + busy t.place

record IsCounted (total : ℕ) (s : State) : Type 0 where
  balance : s.global_count + sum share s.threads ≡ total
  one : bit s.global_lock ≡ sum holds s.threads

module _ (limit : ℕ) where
  abbrev CanStep : State → Type 0
  CanStep s = (t : State) × Step limit s t
