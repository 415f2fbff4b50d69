-- ===== src/ReaderWriter/Values.antt =====
-- What the threads of exersises/concurrency/semaphores/exercise/reader-writer.c read and write.
use osvcp.Prelude.{
  ℕ, zero, suc, ◌+◌, ◌^◌, ◌≡◌, refl, sym, ap, subst, true, false, arith, set, ltb, sum, sum-set,
  bit,
}
use osvcp.LockedCounter
use osvcp.LockedCounter.{Thread, Place, outside, locked, loaded, stored}
use osvcp.ReaderWriter
use osvcp.ReaderWriter.Exclusion.{Reachable-IsLock, Reachable-exclusive, inside}
use osvcp.ReaderWriter.Threads.{
  Reader, State, Inner, Step, enter, inner, leave, acquire, load, store, release, readers,
  Reachable, begin, step,
}

abbrev pub is_inside : Reader → ℕ
is_inside r = bit r.inside

-- The readers in the functions of the lock.
abbrev pub crowd : ReaderWriter.State → ℕ
crowd l = inside l + l.reading

-- The writers count as the threads of LockedCounter do, for which the lock is a mutex.
abbrev pub counter_of : State → LockedCounter.State
counter_of s = record { counter = s.value; mutex = ltb 0 s.lock.writing; threads = s.writers }

pub record IsShared (num_writers loops : ℕ) (s : State) : Type 0 where
  pub lock : ReaderWriter.Reachable s.lock
  pub count : LockedCounter.Reachable (2 ^ 32) num_writers loops (counter_of s)
  pub inside : sum is_inside s.readers ≡ crowd s.lock

-- The inner steps of a reader.
inner-crowd :
    {s t : ReaderWriter.State} (r : ReaderWriter.Step s t)
    → Inner r
    → (crowd t ≡ crowd s) × (t.writing ≡ s.writing)
inner-crowd (ReaderWriter.enter s n e) i = absurd i
inner-crowd (ReaderWriter.count_in s n e) i = (omega (arith, e), refl)
inner-crowd (ReaderWriter.is_first s n e f) i = (omega (arith, e), refl)
inner-crowd (ReaderWriter.not_first s n e f) i = (omega (arith, e), refl)
inner-crowd (ReaderWriter.take_writelock s n m e f) i = (omega (arith, e), refl)
inner-crowd (ReaderWriter.start_reading s n e) i = (omega (arith, e), refl)
inner-crowd (ReaderWriter.leave s n m e f) i = (omega (arith, e), refl)
inner-crowd (ReaderWriter.count_out s n e) i = (omega (arith, e), refl)
inner-crowd (ReaderWriter.is_last s n e f) i = (omega (arith, e), refl)
inner-crowd (ReaderWriter.not_last s n e f) i = (omega (arith, e), refl)
inner-crowd (ReaderWriter.post_writelock s n e) i = (omega (arith, e), refl)
inner-crowd (ReaderWriter.go s n e) i = absurd i
inner-crowd (ReaderWriter.start_writing s n e) i = absurd i
inner-crowd (ReaderWriter.stop_writing s n e) i = absurd i

module _ (w l : ℕ) where
  abbrev Counts : LockedCounter.State → Type 0
  Counts = LockedCounter.Reachable (2 ^ 32) w l

  Step-IsShared : {s t : State} → Step s t → IsShared w l s → IsShared w l t
  Step-IsShared (enter s i n m r e f g h) c = record {
    lock = ReaderWriter.step c.lock (ReaderWriter.enter s.lock m h);
    count = c.count;
    inside = omega (
      arith,
      c.inside,
      ap bit f,
      sum-set is_inside i s.readers r (record { loops = n; inside = true }) e,
    );
  }
  Step-IsShared (inner s {t} r i) c = record {
    lock = ReaderWriter.step c.lock r;
    count =
        subst (λ k. Counts (record (counter_of s) { mutex = ltb 0 k })) (sym (inner-crowd r i).1)
          c.count;
    inside = omega (arith, c.inside, (inner-crowd r i).0);
  }
  Step-IsShared (leave s i n r e f g) c = record {
    lock = ReaderWriter.step c.lock (ReaderWriter.go s.lock n g);
    count = c.count;
    inside = omega (
      arith,
      c.inside,
      g,
      ap bit f,
      sum-set is_inside i s.readers r (record r { inside = false }) e,
    );
  }
  Step-IsShared (acquire s i n m t e f g) c =
      let i' = Reachable-IsLock c.lock in
      record {
        lock = ReaderWriter.step c.lock (ReaderWriter.start_writing s.lock m g);
        count =
            subst
              (λ b. Counts (record {
                counter = s.value;
                mutex = b;
                threads = set s.writers i (record { increments = n; place = locked });
              }))
              (ground arith)
              (LockedCounter.step c.count
                (LockedCounter.lock (counter_of s) i n t e f (ground (arith, i'.writelock, g))));
        inside = c.inside;
      }
  Step-IsShared (load s i t e) c = record {
    lock = c.lock;
    count = LockedCounter.step c.count (LockedCounter.load (counter_of s) i t e);
    inside = c.inside;
  }
  Step-IsShared (store s i v t e) c = record {
    lock = c.lock;
    count = LockedCounter.step c.count (LockedCounter.store (counter_of s) i v t e);
    inside = c.inside;
  }
  Step-IsShared (release s i n t e f) c = record {
    lock = ReaderWriter.step c.lock (ReaderWriter.stop_writing s.lock n f);
    count =
        subst
          (λ b. Counts (record {
            counter = s.value;
            mutex = b;
            threads = set s.writers i (record t { place = outside });
          }))
          (ground (arith, (Reachable-exclusive s.lock c.lock).0, f))
          (LockedCounter.step c.count (LockedCounter.unlock (counter_of s) i t e));
    inside = c.inside;
  }

nobody_inside : (n l : ℕ) → sum is_inside (readers n l) ≡ 0
nobody_inside zero l = refl
nobody_inside (suc n) l = omega (arith, nobody_inside n l)

pub Reachable-IsShared : {k w l : ℕ} {s : State} → Reachable k w l s → IsShared w l s
Reachable-IsShared {k} {w} {l} begin = record {
  lock = ReaderWriter.init;
  count = LockedCounter.begin;
  inside = nobody_inside k l;
}
Reachable-IsShared {k} {w} {l} (step r t) = Step-IsShared w l t (Reachable-IsShared r)
