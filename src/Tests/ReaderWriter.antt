-- ===== src/Tests/ReaderWriter.antt =====
-- A run of the program with the lock for readers and writers: the writer writes, and the reader
-- reads after it.
use osvcp.Prelude.{ℕ, ◌+◌, ◌*◌, ◌%◌, ◌^◌, ◌<◌, ◌≡◌, refl, true, false, ◌⊎◌, [], ◌∷◌, sum}
use osvcp.LockedCounter.{Place, outside, locked, loaded, stored}
use osvcp.LockedCounter.Laws.{holds}
use osvcp.ReaderWriter
use osvcp.ReaderWriter.{rwlock_init}
use osvcp.ReaderWriter.Threads.{
  Reader, State, Step, enter, inner, acquire, load, store, release, start, Reachable, begin, step,
}
use osvcp.ReaderWriter.Values.{is_inside}
use osvcp.ReaderWriter.Ends
use osvcp.ReaderWriter.Ends.{reads}

abbrev idle : Reader
idle = record { loops = 1; inside = false }

abbrev busy : Reader
busy = record { loops = 0; inside = true }

-- The writer has the lock.
abbrev held : Place → ℕ → State
held p v = record {
  lock = record rwlock_init { writelock = 0; writing = 1 };
  value = v;
  readers = idle ∷ [];
  writers = record { increments = 0; place = p } ∷ [];
}

-- The writer has ended.
abbrev written : ReaderWriter.State → Reader → State
written lock r = record {
  lock = lock;
  value = 1;
  readers = r ∷ [];
  writers = record { increments = 0; place = outside } ∷ [];
}

written_run : Reachable 1 1 1 (written rwlock_init idle)
written_run =
    step
      (step
        (step
          (step begin (
            acquire (start 1 1 1) 0 0 0 (record { increments = 1; place = outside }) (refl, refl)
              refl refl))
          (load (held locked 0) 0 (record { increments = 0; place = locked }) (refl, refl)))
        (store (held (loaded 0) 0) 0 0 (record { increments = 0; place = loaded 0 }) (refl, refl)))
      (release (held stored 1) 0 0 (record { increments = 0; place = stored }) (refl, refl) refl)

abbrev entering : ReaderWriter.State
entering = record rwlock_init { reader_lock = 0; entering = 1 }

abbrev counted : ReaderWriter.State
counted = record entering { entering = 0; readers = 1; counted = 1 }

abbrev first : ReaderWriter.State
first = record counted { counted = 0; first = 1 }

abbrev admitted : ReaderWriter.State
admitted = record first { first = 0; writelock = 0; admitted = 1 }

abbrev reading : ReaderWriter.State
reading = record admitted { admitted = 0; reader_lock = 1; reading = 1 }

abbrev at_last : State
at_last = written reading busy

reading_run : Reachable 1 1 1 at_last
reading_run =
    step
      (step
        (step
          (step (step written_run (enter (written rwlock_init idle) 0 0 0 idle refl refl refl refl))
            (inner (written entering busy) (ReaderWriter.count_in entering 0 refl) tt))
          (inner (written counted busy) (ReaderWriter.is_first counted 0 refl refl) tt))
        (inner (written first busy) (ReaderWriter.take_writelock first 0 0 refl refl) tt))
      (inner (written admitted busy) (ReaderWriter.start_reading admitted 0 refl) tt)

Reachable-value_example :
    (0 < at_last.lock.reading → sum holds at_last.writers ≡ 0)
    × (((at_last.value ≡ 1 * 1 % 2 ^ 32)
          × (sum is_inside at_last.readers + sum reads at_last.readers ≡ 0))
        ⊎ ((t : State) × Step at_last t))
Reachable-value_example = Ends.Reachable-value 1 1 1 at_last reading_run
