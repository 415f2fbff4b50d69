-- ===== src/Tests/Threads.antt =====
-- Runs of the programs with threads: the sloppy counters, the lock for readers and writers
-- without starvation.
use osvcp.Prelude.{ℕ, ◌+◌, ◌≤◌, ◌<◌, ◌≡◌, refl, some, int, List, [], ◌∷◌}
use osvcp.SloppyCounter.{Counter, sloppy_counter_get, read_counts, updates, cpu_core}
use osvcp.SloppyCounter.Reads
use osvcp.SloppyCounter.Reads.{quiet}
use osvcp.ReaderWriter
use osvcp.ReaderWriter.NoStarve
use osvcp.ReaderWriter.NoStarve.Refinement

-- Two cores, and three threads that update once each.
abbrev ids : List ℕ
ids = cpu_core 2 0 ∷ cpu_core 2 1 ∷ cpu_core 2 2 ∷ []

abbrev counter : Counter
counter = record { global_count = 4; local_counts = 1 ∷ 0 ∷ [] }

-- They all come before each read.
abbrev before_reads : ℕ → List ℕ
before_reads id = ids

-- Alone it returns what has been counted.
alone_reads : sloppy_counter_get 2 quiet counter ≡ some (5, counter)
unfolding sloppy_counter_get read_counts updates int
alone_reads = refl

-- One thread has the lock without starvation to write.
abbrev taken : NoStarve.State
taken = record NoStarve.nostarve_init {
  lock = record ReaderWriter.rwlock_init { writelock = 0; writing = 1 };
  block_new_reader = 0;
  working = 1;
}

taken_run : NoStarve.Reachable taken
taken_run =
    let s0 = NoStarve.nostarve_init in
    let s1 = record s0 { block_new_reader = 0; queued = 1 } in
    NoStarve.step (NoStarve.step NoStarve.init (NoStarve.queue s0 0 refl))
      (NoStarve.start_writing s1 0 0 refl refl)

Reachable-turn_example :
    ReaderWriter.Reachable taken.lock
    × (taken.working ≤ 1)
    × (0 < taken.working → taken.lock.reading ≡ 0)
    × (0 < taken.queued + taken.working
        → (taken.block_new_reader ≡ 0) × (taken.passing ≡ 0) × (taken.queued + taken.working ≡ 1))
Reachable-turn_example = Refinement.Reachable-turn taken taken_run
