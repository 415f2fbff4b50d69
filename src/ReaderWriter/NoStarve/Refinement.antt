-- ===== src/ReaderWriter/NoStarve/Refinement.antt =====
-- The lock of exersises/concurrency/semaphores/exercise/reader-writer-nostarve.c does what that of
-- reader-writer.c does, and lets no reader overtake a writer.
use osvcp.Prelude.{◌+◌, ◌-◌, ◌≤◌, ◌<◌, ◌≡◌, refl, arith}
use osvcp.ReaderWriter
use osvcp.ReaderWriter.Exclusion.{Reachable-exclusive}
use osvcp.ReaderWriter.NoStarve.{
  State, Inner, Step, wait_turn, pass_turn, enter, inner, queue, start_writing, unblock,
  stop_writing, Reachable, init, step,
}

pub record IsTurnstile (s : State) : Type 0 where
  pub lock : ReaderWriter.Reachable s.lock
  pub turn : s.block_new_reader + s.passing + s.queued + s.working ≡ 1
  pub writers : s.lock.writing ≡ s.working + s.releasing

-- A step of a reader does not change how many write.
Inner-writing :
    {s t : ReaderWriter.State} (r : ReaderWriter.Step s t) → Inner r → t.writing ≡ s.writing
Inner-writing (ReaderWriter.enter s n e) i = absurd i
Inner-writing (ReaderWriter.count_in s n e) i = refl
Inner-writing (ReaderWriter.is_first s n e f) i = refl
Inner-writing (ReaderWriter.not_first s n e f) i = refl
Inner-writing (ReaderWriter.take_writelock s n m e f) i = refl
Inner-writing (ReaderWriter.start_reading s n e) i = refl
Inner-writing (ReaderWriter.leave s n m e f) i = refl
Inner-writing (ReaderWriter.count_out s n e) i = refl
Inner-writing (ReaderWriter.is_last s n e f) i = refl
Inner-writing (ReaderWriter.not_last s n e f) i = refl
Inner-writing (ReaderWriter.post_writelock s n e) i = refl
Inner-writing (ReaderWriter.go s n e) i = refl
Inner-writing (ReaderWriter.start_writing s n e) i = absurd i
Inner-writing (ReaderWriter.stop_writing s n e) i = absurd i

Step-IsTurnstile : {s t : State} → Step s t → IsTurnstile s → IsTurnstile t
Step-IsTurnstile (wait_turn s n e) i = record {
  lock = i.lock;
  turn = omega (arith, e, i.turn);
  writers = i.writers;
}
Step-IsTurnstile (pass_turn s n e) i = record {
  lock = i.lock;
  turn = omega (arith, e, i.turn);
  writers = i.writers;
}
Step-IsTurnstile (enter s n m e f) i = record {
  lock = ReaderWriter.step i.lock (ReaderWriter.enter s.lock m f);
  turn = i.turn;
  writers = i.writers;
}
Step-IsTurnstile (inner s r h) i = record {
  lock = ReaderWriter.step i.lock r;
  turn = i.turn;
  writers = omega (arith, Inner-writing r h, i.writers);
}
Step-IsTurnstile (queue s n e) i = record {
  lock = i.lock;
  turn = omega (arith, e, i.turn);
  writers = i.writers;
}
Step-IsTurnstile (start_writing s n m e f) i = record {
  lock = ReaderWriter.step i.lock (ReaderWriter.start_writing s.lock m f);
  turn = omega (arith, e, i.turn);
  writers = omega (arith, i.writers);
}
Step-IsTurnstile (unblock s n e) i = record {
  lock = i.lock;
  turn = omega (arith, e, i.turn);
  writers = omega (arith, e, i.writers);
}
Step-IsTurnstile (stop_writing s n e) i = record {
  lock =
      ReaderWriter.step i.lock
        (ReaderWriter.stop_writing s.lock (s.lock.writing - 1) (omega (arith, e, i.writers)));
  turn = i.turn;
  writers = omega (arith, e, i.writers);
}

Reachable-IsTurnstile : {s : State} → Reachable s → IsTurnstile s
Reachable-IsTurnstile init = record { lock = ReaderWriter.init; turn = refl; writers = refl }
Reachable-IsTurnstile (step r t) = Step-IsTurnstile t (Reachable-IsTurnstile r)

-- Every run of the lock without starvation is a run of the lock with two semaphores, once the third
-- is forgotten; so at most one thread writes, and none reads while one writes. While a writer waits
-- for its turn or writes, no reader passes the third semaphore and no other writer has it.
pub Reachable-turn :
    (s : State)
    → Reachable s
    → ReaderWriter.Reachable s.lock
      × (s.working ≤ 1)
      × (0 < s.working → s.lock.reading ≡ 0)
      × (0 < s.queued + s.working
          → (s.block_new_reader ≡ 0) × (s.passing ≡ 0) × (s.queued + s.working ≡ 1))
Reachable-turn s r =
    let i = Reachable-IsTurnstile r in
    let x = Reachable-exclusive s.lock i.lock in
    (
      i.lock,
      omega (arith, i.turn),
      λ h. x.1 (omega (arith, h, i.writers)),
      λ h. (omega (arith, i.turn, h), omega (arith, i.turn, h), omega (arith, i.turn, h)),
    )
