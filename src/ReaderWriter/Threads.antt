-- ===== src/ReaderWriter/Threads.antt =====
-- The threads of exersises/concurrency/semaphores/exercise/reader-writer.c (lines 53 to 100):
-- `reader`, `writer`, and the loops of `main`. A writer is a thread that counts on `value` inside of
-- the lock: its places are those of LockedCounter, `locked` being the place after
-- `rwlock_acquire_writelock` and `stored` the one before the post of `rwlock_release_writelock`.
-- `value` is an `int`; it is written with the wrap-around of 32 bits. Which of the readers that are
-- inside of the lock's functions is at which place is not kept: any of them may be the one that
-- leaves.
use osvcp.Prelude.{
  ℕ, zero, suc, ◌+◌, ◌%◌, ◌^◌, ◌≡◌, Bool, true, false, some, List, [], ◌∷◌, get_elem?, set,
}
use osvcp.LockedCounter.{Thread, Place, outside, locked, loaded, stored}
use osvcp.LockedCounter
use osvcp.ReaderWriter
use osvcp.ReaderWriter.{rwlock_init}

-- The iterations that a reader has not started, and whether it is between the first wait of
-- `rwlock_acquire_readlock` and the end of `rwlock_release_readlock`.
pub record Reader : Type 0 where
  pub loops : ℕ
  pub inside : Bool

pub record State : Type 0 where
  pub lock : ReaderWriter.State
  pub value : ℕ
  pub readers : List Reader
  pub writers : List Thread

-- A writer, the `i`-th, at a place, and one that goes on.
abbrev pub At : State → ℕ → Thread → Place → Type 0
At s i t p = (get_elem? s.writers i ≡ some t) × (t.place ≡ p)

abbrev pub goes_to : ℕ → Thread → Place → State → State
goes_to i t p s = record s { writers = set s.writers i (record t { place = p }) }

-- The steps of the lock between a reader's first and its last one.
abbrev pub Inner : {s t : ReaderWriter.State} → ReaderWriter.Step s t → Type 0
Inner (ReaderWriter.enter s n e) = ⊥
Inner (ReaderWriter.go s n e) = ⊥
Inner (ReaderWriter.start_writing s n e) = ⊥
Inner (ReaderWriter.stop_writing s n e) = ⊥
Inner _ = Unit {0}

pub data Step : State → State → Type 0 where
  -- `reader`
  enter :
      (s : State) (i n m : ℕ) (r : Reader)
      → get_elem? s.readers i ≡ some r
      → r.inside ≡ false
      → r.loops ≡ suc n
      → s.lock.reader_lock ≡ suc m
      → Step s (record s {
        readers = set s.readers i (record { loops = n; inside = true });
        lock = record s.lock { reader_lock = m; entering = s.lock.entering + 1 };
      })
  inner :
      (s : State) {t : ReaderWriter.State} (r : ReaderWriter.Step s.lock t)
      → Inner r
      → Step s (record s { lock = t })
  leave :
      (s : State) (i n : ℕ) (r : Reader)
      → get_elem? s.readers i ≡ some r
      → r.inside ≡ true
      → s.lock.left ≡ suc n
      → Step s (record s {
        readers = set s.readers i (record r { inside = false });
        lock = record s.lock { left = n; reader_lock = s.lock.reader_lock + 1 };
      })
  -- `writer`
  acquire :
      (s : State) (i n m : ℕ) (t : Thread)
      → At s i t outside
      → t.increments ≡ suc n
      → s.lock.writelock ≡ suc m
      → Step s (record s {
        writers = set s.writers i (record { increments = n; place = locked });
        lock = record s.lock { writelock = m; writing = s.lock.writing + 1 };
      })
  load :
      (s : State) (i : ℕ) (t : Thread) → At s i t locked → Step s (goes_to i t (loaded s.value) s)
  store :
      (s : State) (i v : ℕ) (t : Thread)
      → At s i t (loaded v)
      → Step s (goes_to i t stored (record s { value = (v + 1) % 2 ^ 32 }))
  release :
      (s : State) (i n : ℕ) (t : Thread)
      → At s i t stored
      → s.lock.writing ≡ suc n
      → Step s (record s {
        writers = set s.writers i (record t { place = outside });
        lock = record s.lock { writing = n; writelock = s.lock.writelock + 1 };
      })

-- The readers that `main` creates.
abbrev pub readers : ℕ → ℕ → List Reader
readers zero loops = []
readers (suc n) loops = record { loops = loops; inside = false } ∷ readers n loops

-- With the arguments of the program.
abbrev pub start : ℕ → ℕ → ℕ → State
start num_readers num_writers loops = record {
  lock = rwlock_init;
  value = 0;
  readers = readers num_readers loops;
  writers = LockedCounter.threads num_writers loops;
}

pub data Reachable (num_readers num_writers loops : ℕ) : State → Type 0 where
  begin : Reachable num_readers num_writers loops (start num_readers num_writers loops)
  step :
      {s t : State}
      → Reachable num_readers num_writers loops s
      → Step s t
      → Reachable num_readers num_writers loops t
