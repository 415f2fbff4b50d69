-- ===== src/Tests/NoLock.antt =====
-- A run of vector-nolock.c: one thread that adds vector 1 to vector 0 once.
use osvcp.Prelude.{
  ℕ, zero, suc, ◌+◌, ◌%◌, ◌^◌, ◌≡◌, refl, subst, append-nil, false, List, [], ◌∷◌, arith,
}
use osvcp.Table.Slots.{All}
use osvcp.VectorAdd.{thread_arg}
use osvcp.VectorAdd.NoLock.{
  Action, Memory, State, fetch_and_add, adds_from, worker, read, fetch, threads_from, start,
  Reachable, begin, step,
}
use osvcp.VectorAdd.NoLock.Result
use osvcp.VectorAdd.NoLock.Result.{IsFinished, gains}

abbrev adder : List (List Action)
adder = threads_from false false 1 0 1

-- Its additions one after the other, from a value on.
finish :
    (i n : ℕ) (v : Memory)
    → Reachable adder (record { v = v; threads = adds_from 0 1 i n ∷ [] })
    → (s : State) × Reachable adder s × All IsFinished s.threads
unfolding adds_from
finish i zero v r = (record { v = v; threads = [] ∷ [] }, r, (refl, tt))
finish i (suc n) v r = finish (suc i) n (fetch_and_add 0 i (v 1 i) v) (
    step (step r (read _ 0 0 1 i (adds_from 0 1 (suc i) n) refl))
      (fetch _ 0 0 i (v 1 i) (adds_from 0 1 (suc i) n) refl))

started : Reachable adder (record { v = λ vector i. vector; threads = adds_from 0 1 0 100 ∷ [] })
unfolding threads_from worker thread_arg
started = subst (λ p. Reachable adder (start (p ∷ []))) (append-nil (adds_from 0 1 0 100)) begin

finished : (s : State) × Reachable adder s × All IsFinished s.threads
finished = finish 0 100 (λ vector i. vector) started

Reachable-totals_example : finished.0.v 0 5 ≡ (0 + gains (thread_arg false false) 1 0 0 1) % 2 ^ 32
Reachable-totals_example =
    Result.Reachable-totals false false 1 1 0 5 finished.0 refl (omega arith) (omega arith)
      finished.1 finished.2
