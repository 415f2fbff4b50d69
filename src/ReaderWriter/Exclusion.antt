-- ===== src/ReaderWriter/Exclusion.antt =====
-- Readers and writers of exersises/concurrency/semaphores/exercise/reader-writer.c exclude each
-- other.
use osvcp.Prelude.{ℕ, ◌+◌, ◌≤◌, ◌<◌, ◌≡◌, refl, arith, ltb, if◌then◌else◌}
use osvcp.ReaderWriter.{
  State, Step, enter, count_in, is_first, not_first, take_writelock, start_reading, leave,
  count_out, is_last, not_last, post_writelock, go, start_writing, stop_writing, Reachable, init,
  step,
}

-- The threads that hold `readerLock`.
abbrev pub inside : State → ℕ
inside s = s.entering + s.counted + s.first + s.admitted + s.leaving + s.uncounted + s.last + s.left

-- Whether the readers hold `writelock`.
abbrev pub readers_hold : State → ℕ
readers_hold s = if ltb 0 (s.reading + s.admitted + s.leaving + s.uncounted + s.last) then 1 else 0

pub record IsLock (s : State) : Type 0 where
  pub reader_lock : s.reader_lock + inside s ≡ 1
  pub readers : s.readers ≡ s.counted + s.first + s.admitted + s.reading + s.leaving
  pub writelock : s.writelock + s.writing + readers_hold s ≡ 1
  pub first : 0 < s.first → s.reading ≡ 0
  pub last : 0 < s.last → s.reading ≡ 0

Step-IsLock : {s t : State} → Step s t → IsLock s → IsLock t
Step-IsLock (enter s n e) i = ground (arith, i.reader_lock, i.readers, i.writelock, i.first, i.last)
Step-IsLock (count_in s n e) i =
    ground (arith, i.reader_lock, i.readers, i.writelock, i.first, i.last)
Step-IsLock (is_first s n e f) i =
    ground (arith, i.reader_lock, i.readers, i.writelock, i.first, i.last)
Step-IsLock (not_first s n e f) i =
    ground (arith, i.reader_lock, i.readers, i.writelock, i.first, i.last)
Step-IsLock (take_writelock s n m e f) i =
    ground (arith, i.reader_lock, i.readers, i.writelock, i.first, i.last)
Step-IsLock (start_reading s n e) i =
    ground (arith, i.reader_lock, i.readers, i.writelock, i.first, i.last)
Step-IsLock (leave s n m e f) i =
    ground (arith, i.reader_lock, i.readers, i.writelock, i.first, i.last)
Step-IsLock (count_out s n e) i =
    ground (arith, i.reader_lock, i.readers, i.writelock, i.first, i.last)
Step-IsLock (is_last s n e f) i =
    ground (arith, i.reader_lock, i.readers, i.writelock, i.first, i.last)
Step-IsLock (not_last s n e f) i =
    ground (arith, i.reader_lock, i.readers, i.writelock, i.first, i.last)
Step-IsLock (post_writelock s n e) i =
    ground (arith, i.reader_lock, i.readers, i.writelock, i.first, i.last)
Step-IsLock (go s n e) i = ground (arith, i.reader_lock, i.readers, i.writelock, i.first, i.last)
Step-IsLock (start_writing s n e) i =
    ground (arith, i.reader_lock, i.readers, i.writelock, i.first, i.last)
Step-IsLock (stop_writing s n e) i =
    ground (arith, i.reader_lock, i.readers, i.writelock, i.first, i.last)

pub Reachable-IsLock : {s : State} → Reachable s → IsLock s
Reachable-IsLock init = record {
  reader_lock = refl;
  readers = refl;
  writelock = refl;
  first = λ h. refl;
  last = λ h. refl;
}
Reachable-IsLock (step r t) = Step-IsLock t (Reachable-IsLock r)

-- In every state that any number of threads can reach, at most one writes, and none reads while one
-- writes.
pub Reachable-exclusive :
    (s : State) → Reachable s → (s.writing ≤ 1) × (0 < s.writing → s.reading ≡ 0)
Reachable-exclusive s r =
    let i = Reachable-IsLock r in (omega (arith, i.writelock), λ h. ground (arith, i.writelock))
