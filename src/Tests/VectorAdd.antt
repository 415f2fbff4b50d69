-- ===== src/Tests/VectorAdd.antt =====
-- Runs of the vector exercises.
use osvcp.Prelude.{ℕ, ◌≢◌, refl, ◌⊎◌, true, false, List, [], ◌∷◌, arith}
use osvcp.Table.Slots.{All}
use osvcp.VectorAdd.{
  Action, lock, try_lock, add, unlock, deadlock, global_order, try_wait, State, with_lock, copies,
  vectors_from, take, start, Reachable, begin, step, main_threads, vector_add, print_info, worker,
  thread_arg, threads_from,
}
use osvcp.VectorAdd.Races
use osvcp.VectorAdd.Progress
use osvcp.VectorAdd.Progress.{CanStep, IsFinished}
use osvcp.VectorAdd.Deadlock
use osvcp.VectorAdd.Totals

-- Two threads of vector-global-order.c with `-p`, both before their loops over the values.
abbrev add_first : List Action
add_first = add 0 1 ∷ unlock 1 ∷ unlock 0 ∷ []

abbrev add_second : List Action
add_second = add 2 3 ∷ unlock 3 ∷ unlock 2 ∷ []

abbrev parallel : State
parallel = record (start []) {
  held = with_lock 3 true (with_lock 2 true (with_lock 1 true (with_lock 0 true (λ l. false))));
  threads = add_first ∷ add_second ∷ [];
}

parallel_run : Reachable (main_threads global_order false true false 1 2) parallel
unfolding main_threads threads_from thread_arg worker vector_add print_info
parallel_run =
    step
      (step
        (step (step begin (take _ 0 0 (lock 1 ∷ add_first) refl refl))
          (take _ 0 1 add_first refl refl))
        (take _ 1 2 (lock 3 ∷ add_second) refl refl))
      (take _ 1 3 add_second refl refl)

main_threads-no_race_example : ◌≢◌ {A = ℕ} 0 2 × ◌≢◌ {A = ℕ} 0 3 × ◌≢◌ {A = ℕ} 1 2
main_threads-no_race_example =
    Races.main_threads-no_race global_order false true false 1 2 parallel 0 1 0 1 2 3
      (unlock 1 ∷ unlock 0 ∷ []) (unlock 3 ∷ unlock 2 ∷ []) (ground arith) parallel_run refl refl
      (ground arith)

-- Two threads of vector-try-wait.c with `-d`, each with the lock that the other tries.
abbrev attempt : ℕ → ℕ → List Action
attempt dst src = try_lock dst src ∷ add dst src ∷ unlock dst ∷ unlock src ∷ []

abbrev crossed : State
crossed = record (start []) {
  held = with_lock 1 true (with_lock 0 true (λ l. false));
  threads = attempt 0 1 ∷ attempt 1 0 ∷ [];
}

crossed_run : Reachable (main_threads try_wait false false true 1 2) crossed
unfolding main_threads threads_from thread_arg worker vector_add print_info
crossed_run =
    step (step begin (take _ 0 0 (attempt 0 1) refl refl)) (take _ 1 1 (attempt 1 0) refl refl)

main_threads-progress_example : All IsFinished crossed.threads ⊎ CanStep crossed
main_threads-progress_example =
    Progress.main_threads-progress try_wait false false true 1 2 crossed (ground arith)
      (λ e. absurd (ground (arith, e))) crossed_run

main_threads-deadlock_example :
    (s : State) × Reachable (main_threads deadlock false false true 1 2) s
    × (All (λ p. ¬ (IsFinished p)) s.threads)
    × ¬ (CanStep s)
main_threads-deadlock_example = Deadlock.main_threads-deadlock 0

-- One thread of vector-avoid-hold-and-wait.c, finished.
abbrev finished : State
finished = record (start ([] ∷ [])) {
  held = with_lock 1 false (
      with_lock 0 false (
        with_lock 201 false
          (with_lock 1 true (with_lock 0 true (with_lock 201 true (λ l. false))))));
  v = copies 100 1 ∷ copies 100 1 ∷ vectors_from 2 198;
}
