-- ===== src/VectorAdd/Workers.antt =====
-- The threads of exersises/concurrency/concurrency-bugs, made of the parts that VectorAdd/Blocks.antt
-- is about.
use osvcp.Prelude.{
  ℕ, zero, suc, ◌+◌, ◌%◌, ◌<◌, ◌≡◌, ◌≢◌, refl, ◌⊎◌, inl, inr, Bool, true, false, arith, ◌==◌,
  Bool-cases,
}
use osvcp.Table.Slots.{All}
use osvcp.VectorAdd.{
  max_threads, Version, deadlock, global_order, avoid_hold_and_wait, try_wait, vector_add,
  print_info, worker, thread_arg, threads_from, main_threads,
}
use osvcp.VectorAdd.Owed.{IsClosed}
use osvcp.VectorAdd.Rules.{ascending, anything, rule, IsClosed-append, without}
use osvcp.VectorAdd.Blocks.{
  above, print_info-IsClosed, add_deadlock-IsClosed, add_in_order-IsClosed,
  add_global_lock-IsClosed, add_try_wait-IsClosed,
}

-- Different vectors, in one order if no deadlock is meant.
abbrev Fits : Bool → ℕ × ℕ → Type 0
Fits d (a, b) = (a ≢ b) × (d ≡ false → a < b) × (a < 200) × (b < 200)

vector_add-IsClosed :
    (version : Version) (d : Bool) (a b : ℕ)
    → Fits d (a, b)
    → IsClosed (rule version d) (vector_add version a b)
vector_add-IsClosed deadlock true a b f =
    add_deadlock-IsClosed anything a b f.0 (λ h z. tt) (λ h z. tt)
vector_add-IsClosed deadlock false a b f =
    add_deadlock-IsClosed ascending a b f.0
      (λ h z. without deadlock false a h (omega (arith, f.2)) z)
      (λ h z. (λ l p. above a b l (h l) (f.1 refl) (z l) p, omega (arith, f.3)))
vector_add-IsClosed global_order d a b f =
    add_in_order-IsClosed ascending a b f.0 (λ k h z o. without global_order d k h (bound k o) z)
      (λ k h z o. (z, bound k o))
  where
    bound : (k : ℕ) → (k ≡ a) ⊎ (k ≡ b) → k < 202
    bound k (inl e) = omega (arith, e, f.2)
    bound k (inr e) = omega (arith, e, f.3)
vector_add-IsClosed avoid_hold_and_wait d a b f = add_global_lock-IsClosed a b f.0 f.2 f.3
vector_add-IsClosed try_wait d a b f = add_try_wait-IsClosed a b f.0 f.2

worker-IsClosed :
    (version : Version) (d verbose : Bool) (loops : ℕ) (arg : ℕ × ℕ)
    → Fits d arg
    → IsClosed (rule version d) (worker version verbose loops arg)
unfolding worker
worker-IsClosed version d verbose zero (a, b) f = (tt, λ l. refl)
worker-IsClosed version d verbose (suc loops) (a, b) f =
    let R = rule version d in
    let info = print_info-IsClosed version d verbose in
    IsClosed-append R (print_info verbose) _ info (
      IsClosed-append R (vector_add version a b) _ (vector_add-IsClosed version d a b f) (
        IsClosed-append R (print_info verbose) _ info
          (worker-IsClosed version d verbose loops (a, b) f)))

thread_arg-Fits :
    (enable_parallelism d : Bool) (i : ℕ) → i < 100 → Fits d (thread_arg enable_parallelism d i)
unfolding thread_arg
thread_arg-Fits false false i h =
    ((λ e. absurd (omega (arith, e))), (λ e. omega arith), omega arith, omega arith)
thread_arg-Fits true false i h =
    ((λ e. absurd (omega (arith, e))), (λ e. omega arith), omega arith, omega arith)
thread_arg-Fits false true i h = elim (Bool-cases (i % 2 == 1)) [
  | inl q ↦ rw q (
    (λ e. absurd (omega (arith, e))),
    (λ e. absurd (ground (arith, e))),
    omega arith,
    omega arith,
  )
  | inr q ↦ rw q (
    (λ e. absurd (omega (arith, e))),
    (λ e. absurd (ground (arith, e))),
    omega arith,
    omega arith,
  )
]
thread_arg-Fits true true i h = elim (Bool-cases (i % 2 == 1)) [
  | inl q ↦ rw q (
    (λ e. absurd (omega (arith, e))),
    (λ e. absurd (ground (arith, e))),
    omega arith,
    omega arith,
  )
  | inr q ↦ rw q (
    (λ e. absurd (omega (arith, e))),
    (λ e. absurd (ground (arith, e))),
    omega arith,
    omega arith,
  )
]

threads_from-IsClosed :
    (version : Version) (verbose enable_parallelism d : Bool) (loops i n : ℕ)
    → i + n < 100
    → All
        (IsClosed (rule version d))
        (threads_from (thread_arg enable_parallelism d) (worker version verbose loops) i n)
unfolding threads_from
threads_from-IsClosed version verbose enable_parallelism d loops i zero b = tt
threads_from-IsClosed version verbose enable_parallelism d loops i (suc n) b = (
  worker-IsClosed version d verbose loops _
      (thread_arg-Fits enable_parallelism d i (omega (arith, b))),
  threads_from-IsClosed version verbose enable_parallelism d loops (suc i) n (omega (arith, b)),
)

pub main_threads-IsClosed :
    (version : Version) (verbose enable_parallelism d : Bool) (loops num_threads : ℕ)
    → num_threads < max_threads
    → All
        (IsClosed (rule version d))
        (main_threads version verbose enable_parallelism d loops num_threads)
unfolding main_threads
main_threads-IsClosed version verbose enable_parallelism d loops num_threads h =
    threads_from-IsClosed version verbose enable_parallelism d loops 0 num_threads
      (omega (arith, h))
