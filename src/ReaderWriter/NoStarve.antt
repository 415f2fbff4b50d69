-- ===== src/ReaderWriter/NoStarve.antt =====
-- exersises/concurrency/semaphores/exercise/reader-writer-nostarve.c (lines 10 to 54): the lock of
-- reader-writer.c with a third semaphore, which readers pass and which a writer keeps until it
-- releases the lock. The state is that of the lock with two semaphores and the places that are new;
-- `lock.writing` counts the writers that have `writelock`.
use osvcp.Prelude.{ℕ, suc, ◌+◌, ◌-◌, ◌≡◌}
use osvcp.ReaderWriter
use osvcp.ReaderWriter.{rwlock_init}
pub mod Refinement

pub record State : Type 0 where
  pub lock : ReaderWriter.State
  pub block_new_reader : ℕ
  pub passing : ℕ  -- a reader between the wait for `blockNewReader` and its post
  pub let_in : ℕ  -- a reader before the wait for `readerLock`
  pub queued : ℕ  -- a writer before the wait for `writelock`
  pub working : ℕ  -- a writer between acquire and release
  pub releasing : ℕ  -- a writer before the post of `writelock`

abbrev pub nostarve_init : State
nostarve_init = record {
  lock = rwlock_init;
  block_new_reader = 1;
  passing = 0;
  let_in = 0;
  queued = 0;
  working = 0;
  releasing = 0;
}

-- The steps that the two locks share: those of a reader that has `readerLock` or reads.
abbrev pub Inner : {s t : ReaderWriter.State} → ReaderWriter.Step s t → Type 0
Inner (ReaderWriter.enter s n e) = ⊥
Inner (ReaderWriter.start_writing s n e) = ⊥
Inner (ReaderWriter.stop_writing s n e) = ⊥
Inner _ = Unit {0}

pub data Step : State → State → Type 0 where
  wait_turn :
      (s : State) (n : ℕ)
      → s.block_new_reader ≡ suc n
      → Step s (record s { block_new_reader = n; passing = s.passing + 1 })
  pass_turn :
      (s : State) (n : ℕ)
      → s.passing ≡ suc n
      → Step s (record s {
        passing = n;
        block_new_reader = s.block_new_reader + 1;
        let_in = s.let_in + 1;
      })
  enter :
      (s : State) (n m : ℕ)
      → s.let_in ≡ suc n
      → s.lock.reader_lock ≡ suc m
      → Step s (record s {
        let_in = n;
        lock = record s.lock { reader_lock = m; entering = s.lock.entering + 1 };
      })
  inner :
      (s : State) {t : ReaderWriter.State} (r : ReaderWriter.Step s.lock t)
      → Inner r
      → Step s (record s { lock = t })
  queue :
      (s : State) (n : ℕ)
      → s.block_new_reader ≡ suc n
      → Step s (record s { block_new_reader = n; queued = s.queued + 1 })
  start_writing :
      (s : State) (n m : ℕ)
      → s.queued ≡ suc n
      → s.lock.writelock ≡ suc m
      → Step s (record s {
        queued = n;
        working = s.working + 1;
        lock = record s.lock { writelock = m; writing = s.lock.writing + 1 };
      })
  unblock :
      (s : State) (n : ℕ)
      → s.working ≡ suc n
      → Step s (record s {
        working = n;
        releasing = s.releasing + 1;
        block_new_reader = s.block_new_reader + 1;
      })
  stop_writing :
      (s : State) (n : ℕ)
      → s.releasing ≡ suc n
      → Step s (record s {
        releasing = n;
        lock = record s.lock { writing = s.lock.writing - 1; writelock = s.lock.writelock + 1 };
      })

pub data Reachable : State → Type 0 where
  init : Reachable nostarve_init
  step : {s t : State} → Reachable s → Step s t → Reachable t
