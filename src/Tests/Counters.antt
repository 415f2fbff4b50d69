-- ===== src/Tests/Counters.antt =====
-- The counters of t1.c, timer.c and cloppy_counter_only_global_lock.c.
use osvcp.Prelude.{
  ℕ, ◌*◌, ◌%◌, ◌^◌, ◌≤◌, ◌≡◌, ◌↔◌, ◌⊎◌, refl, some, int, true, false, [], ◌∷◌, arith,
}
use osvcp.RacyCounter
use osvcp.RacyCounter.{ready}
use osvcp.RacyCounter.Schedules
use osvcp.LockedCounter.{
  Place, outside, locked, loaded, stored, State, Step, lock, load, store, unlock, Reachable, begin,
  step,
}
use osvcp.LockedCounter.Laws
use osvcp.SloppyCounter.OnlyGlobal
use osvcp.SloppyCounter.OnlyGlobal.{final_count, get_all}
use osvcp.SloppyCounter.OnlyGlobal.Tally

-- Two threads that count to 2 each can leave 3.
Reachable-counts_example :
    RacyCounter.Reachable 2 (record { counter = 3; a = ready 0; b = ready 0 })
    ↔ ((2 ≤ 3) × (3 ≤ 2 * 2))
Reachable-counts_example = Schedules.Reachable-counts 2 3 (omega arith) (omega arith)

-- A thread that counts once.
abbrev alone : Place → ℕ → State
alone p n = record {
  counter = n;
  mutex = true;
  threads = record { increments = 0; place = p } ∷ [];
}

abbrev done : State
done = record (alone outside 1) { mutex = false }

done_run : Reachable (2 ^ 64) 1 1 done
done_run =
    step
      (step
        (step (step begin (lock _ 0 0 _ (refl, refl) refl refl))
          (load (alone locked 0) 0 _ (refl, refl)))
        (store (alone (loaded 0) 0) 0 0 _ (refl, refl)))
      (unlock (alone stored 1) 0 _ (refl, refl))

Reachable-counter_example : ((t : State) × Step (2 ^ 64) done t) ⊎ (done.counter ≡ (1 * 1) % 2 ^ 64)
Reachable-counter_example = Laws.Reachable-counter 1 1 done done_run

-- A thread that has counted 1 there, and wants the lock.
abbrev halfway : OnlyGlobal.State
halfway = record {
  global_count = 0;
  global_lock = false;
  threads = record { increments = 0; local_count = 1; place = OnlyGlobal.wanting } ∷ [];
}

counted : final_count halfway ≡ some 1
unfolding get_all int
counted = refl
