-- ===== src/ReaderWriter.antt =====
-- exersises/concurrency/semaphores/exercise/reader-writer.c (lines 10 to 47): a lock for readers and
-- writers made of two semaphores. The threads are anonymous, any number of them: the state has how
-- many of them are at each place of the four functions, and a step is a step of one of them. A
-- `Sem_wait` is a step that is there only while the semaphore is not 0.
use osvcp.Prelude.{ℕ, zero, suc, ◌+◌, ◌-◌, ◌≡◌, ◌≢◌}
pub mod Exclusion
pub mod NoStarve
pub mod Threads
pub mod Values
pub mod Holders
pub mod Ends

pub record State : Type 0 where
  -- `rwlock_t`
  pub writelock : ℕ
  pub reader_lock : ℕ
  pub readers : ℕ
  -- in `rwlock_acquire_readlock`
  pub entering : ℕ  -- before `rw->readers++`
  pub counted : ℕ  -- before the test
  pub first : ℕ  -- before the wait for `writelock`
  pub admitted : ℕ  -- before the last post
  pub reading : ℕ  -- between acquire and release
  -- in `rwlock_release_readlock`
  pub leaving : ℕ  -- before `rw->readers--`
  pub uncounted : ℕ  -- before the test
  pub last : ℕ  -- before the post of `writelock`
  pub left : ℕ  -- before the last post
  -- between `rwlock_acquire_writelock` and `rwlock_release_writelock`
  pub writing : ℕ

-- `rwlock_init`, with no thread inside.
abbrev pub rwlock_init : State
rwlock_init = record {
  writelock = 1;
  reader_lock = 1;
  readers = 0;
  entering = 0;
  counted = 0;
  first = 0;
  admitted = 0;
  reading = 0;
  leaving = 0;
  uncounted = 0;
  last = 0;
  left = 0;
  writing = 0;
}

pub data Step : State → State → Type 0 where
  -- `rwlock_acquire_readlock`
  enter :
      (s : State) (n : ℕ)
      → s.reader_lock ≡ suc n
      → Step s (record s { reader_lock = n; entering = s.entering + 1 })
  count_in :
      (s : State) (n : ℕ)
      → s.entering ≡ suc n
      → Step s (record s { entering = n; readers = s.readers + 1; counted = s.counted + 1 })
  is_first :
      (s : State) (n : ℕ)
      → s.counted ≡ suc n
      → s.readers ≡ 1
      → Step s (record s { counted = n; first = s.first + 1 })
  not_first :
      (s : State) (n : ℕ)
      → s.counted ≡ suc n
      → s.readers ≢ 1
      → Step s (record s { counted = n; admitted = s.admitted + 1 })
  take_writelock :
      (s : State) (n m : ℕ)
      → s.first ≡ suc n
      → s.writelock ≡ suc m
      → Step s (record s { first = n; writelock = m; admitted = s.admitted + 1 })
  start_reading :
      (s : State) (n : ℕ)
      → s.admitted ≡ suc n
      → Step s (record s { admitted = n; reader_lock = s.reader_lock + 1; reading = s.reading + 1 })
  -- `rwlock_release_readlock`
  leave :
      (s : State) (n m : ℕ)
      → s.reading ≡ suc n
      → s.reader_lock ≡ suc m
      → Step s (record s { reading = n; reader_lock = m; leaving = s.leaving + 1 })
  count_out :
      (s : State) (n : ℕ)
      → s.leaving ≡ suc n
      → Step s (record s { leaving = n; readers = s.readers - 1; uncounted = s.uncounted + 1 })
  is_last :
      (s : State) (n : ℕ)
      → s.uncounted ≡ suc n
      → s.readers ≡ 0
      → Step s (record s { uncounted = n; last = s.last + 1 })
  not_last :
      (s : State) (n : ℕ)
      → s.uncounted ≡ suc n
      → s.readers ≢ 0
      → Step s (record s { uncounted = n; left = s.left + 1 })
  post_writelock :
      (s : State) (n : ℕ)
      → s.last ≡ suc n
      → Step s (record s { last = n; writelock = s.writelock + 1; left = s.left + 1 })
  go :
      (s : State) (n : ℕ)
      → s.left ≡ suc n
      → Step s (record s { left = n; reader_lock = s.reader_lock + 1 })
  -- `rwlock_acquire_writelock`
  start_writing :
      (s : State) (n : ℕ)
      → s.writelock ≡ suc n
      → Step s (record s { writelock = n; writing = s.writing + 1 })
  -- `rwlock_release_writelock`
  stop_writing :
      (s : State) (n : ℕ)
      → s.writing ≡ suc n
      → Step s (record s { writing = n; writelock = s.writelock + 1 })

-- A run, from the initial state.
pub data Reachable : State → Type 0 where
  init : Reachable rwlock_init
  step : {s t : State} → Reachable s → Step s t → Reachable t
