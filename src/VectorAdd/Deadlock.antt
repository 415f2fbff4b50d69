-- ===== src/VectorAdd/Deadlock.antt =====
-- exersises/concurrency/concurrency-bugs/vector-deadlock.c, with the option `-d`.
use osvcp.Prelude.{
  ℕ, zero, suc, ◌≡◌, refl, sym, ap, subst, Bool, true, false, Option, none, some, List, [], ◌∷◌,
  get_elem?, ◌*◌, arith,
}
use osvcp.Table.Slots.{All}
use osvcp.VectorAdd.{
  Action, lock, try_lock, add, unlock, deadlock, State, with_lock, vectors_from, max_threads, Step,
  take, try_succeeds, try_fails, add_values, let_go, Reachable, begin, step, vector_add, print_info,
  worker, thread_arg, threads_from, main_threads,
}
use osvcp.VectorAdd.Progress.{CanStep, IsFinished}

-- What a thread waits for that is about to take a lock.
abbrev wanted : Option (List Action) → Option ℕ
wanted none = none
wanted (some []) = none
wanted (some (lock l ∷ p)) = some l
wanted (some (try_lock d s ∷ p)) = none
wanted (some (add d s ∷ p)) = none
wanted (some (unlock l ∷ p)) = none

-- Whether it is a number below 2.
abbrev waits_for_either : Option ℕ → Bool
waits_for_either none = false
waits_for_either (some zero) = true
waits_for_either (some (suc zero)) = true
waits_for_either (some (suc (suc n))) = false

-- Both locks are held, and each of the two threads waits for one of them.
both_wait :
    (p q : List Action) (i : ℕ) (x : List Action)
    → get_elem? ((lock 1 ∷ p) ∷ (lock 0 ∷ q) ∷ []) i ≡ some x
    → waits_for_either (wanted (some x)) ≡ true
both_wait p q zero x e = ap (λ o. waits_for_either (wanted o)) (sym e)
both_wait p q (suc zero) x e = ap (λ o. waits_for_either (wanted o)) (sym e)
both_wait p q (suc (suc i)) x e = absurd (ground arith)

waits :
    (s : State) (i : ℕ) (x p q : List Action)
    → s.threads ≡ (lock 1 ∷ p) ∷ (lock 0 ∷ q) ∷ []
    → get_elem? s.threads i ≡ some x
    → waits_for_either (wanted (some x)) ≡ true
waits s i x p q c e = both_wait p q i x (subst (λ ts. get_elem? ts i ≡ some x) c e)

no_step :
    {s t : State} (p q : List Action)
    → Step s t
    → s.held 0 ≡ true
    → s.held 1 ≡ true
    → s.threads ≡ (lock 1 ∷ p) ∷ (lock 0 ∷ q) ∷ []
    → ⊥
no_step p q (take s i zero rest e free) a b c = absurd (ground arith)
no_step p q (take s i (suc zero) rest e free) a b c = absurd (ground arith)
no_step p q (take s i (suc (suc l)) rest e free) a b c =
    absurd (ground (arith, waits s i _ p q c e))
no_step p q (try_succeeds s i dst src rest e free) a b c =
    absurd (ground (arith, waits s i _ p q c e))
no_step p q (try_fails s i dst src rest e busy) a b c = absurd (ground (arith, waits s i _ p q c e))
no_step p q (add_values s i dst src rest e) a b c = absurd (ground (arith, waits s i _ p q c e))
no_step p q (let_go s i l rest e) a b c = absurd (ground (arith, waits s i _ p q c e))

-- With two threads that do at least one loop, with the option `-d` and without `-v` and `-p`, the
-- threads of `main` reach a state in which neither has finished and none can go on.
pub main_threads-deadlock :
    (loops : ℕ)
    → (s : State) × Reachable (main_threads deadlock false false true (suc loops) 2) s
      × (All (λ p. ¬ (IsFinished p)) s.threads)
      × ¬ (CanStep s)
unfolding main_threads threads_from thread_arg worker vector_add print_info
main_threads-deadlock loops =
    let p = worker deadlock false loops (0, 1) in
    let q = worker deadlock false loops (1, 0) in
    let left = lock 1 ∷ add 0 1 ∷ unlock 0 ∷ unlock 1 ∷ p in
    let right = lock 0 ∷ add 1 0 ∷ unlock 1 ∷ unlock 0 ∷ q in
    let s : State = record {
      held = with_lock 1 true (with_lock 0 true (λ l. false));
      v = vectors_from 0 (2 * max_threads);
      retry = 0;
      threads = left ∷ right ∷ [];
    } in
    (
      s,
      step (step begin (take _ 0 0 left refl refl)) (take _ 1 1 right refl refl),
      (λ e. absurd (ground arith), (λ e. absurd (ground arith), tt)),
      λ c. no_step _ _ c.1 refl refl refl,
    )
