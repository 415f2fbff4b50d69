-- ===== src/SloppyCounter/Cores/Result.antt =====
-- What `main` of
-- exersises/concurrency/locked-data-structures/2/cpu_based/sloppy_counter_cpu_based.c gets.
use native.Mathlib.Nat.{suc-mul, mod-eq_of_lt}
use osvcp.Prelude.{
  ℕ, zero, suc, ◌+◌, ◌*◌, ◌%◌, ◌≤◌, ◌<◌, ◌≡◌, refl, sym, subst, some, int_max, ◌∙◌, ap, List, [],
  ◌∷◌, arith, sum,
}
use osvcp.Table.Slots.{All}
use osvcp.SloppyCounter.{threshold, sloppy_counter_init, sloppy_counter_get, count_at, zeros}
use osvcp.SloppyCounter.Totals.{total}
use osvcp.SloppyCounter.Reads.{quiet, sloppy_counter_get-quiet, sum-zeros, length-zeros}
use osvcp.SloppyCounter.Cores.{
  between, Thread, State, threads_from, own_threads_from, Reachable, begin, step,
}
use osvcp.SloppyCounter.Cores.Locks.{Reachable-IsLocked}
use osvcp.SloppyCounter.Cores.Counts.{uncounted, todo, twice, debt, IsCounted, Step-IsCounted}

pub threads_from-counts :
    (c m i n : ℕ)
    → 1 ≤ c
    → All (λ t. t.cpu_core < c) (threads_from c m i n)
      × (sum todo (threads_from c m i n) ≡ n * m)
      × ((xs : List ℕ) → sum (debt xs) (threads_from c m i n) ≡ 0)
threads_from-counts c m i zero h = (tt, omega arith, λ xs. refl)
threads_from-counts c m i (suc n) h =
    let (a, b, d) = threads_from-counts c m (suc i) n h in
    ((mod_lt i c h, a), omega (arith, b, suc-mul n m), λ xs. omega (arith, d xs))
  where
    mod_lt : (i c : ℕ) → 1 ≤ c → i % c < c
    mod_lt i c h = omega (arith, h)

pub Reachable-IsCounted :
    (limit c m n : ℕ) {s : State}
    → 1 ≤ c
    → Reachable limit c (threads_from c m 0 n) s
    → IsCounted c (n * m) s
unfolding sloppy_counter_init
Reachable-IsCounted limit c m n h begin =
    let (a, b, d) = threads_from-counts c m 0 n h in
    record {
      cores = a;
      size = length-zeros c;
      balance = omega (arith, b, d (zeros c), sum-zeros c);
    }
Reachable-IsCounted limit c m n h (step r t) =
    Step-IsCounted t (Reachable-IsLocked limit c m n r) (Reachable-IsCounted limit c m n h r)

abbrev pub IsFinished : Thread → Type 0
IsFinished t = (t.increments ≡ 0) × (t.place ≡ between)

finished-sum :
    (xs : List ℕ) (ts : List Thread)
    → All IsFinished ts
    → (sum todo ts ≡ 0) × (sum (debt xs) ts ≡ 0)
finished-sum xs [] f = (refl, refl)
finished-sum xs (t ∷ ts) f =
    let (a, b) = finished-sum xs ts f.1 in
    (
      omega (arith, a, f.0.0, ap uncounted f.0.1),
      omega (arith, b, ap (λ p. twice p (count_at xs t.cpu_core)) f.0.1),
    )

-- With any threshold, a core at least, and no more than INT_MAX updates: once all the threads of `main` have finished, in whatever
-- order they took the locks and made the steps of their updates, `sloppy_counter_get` returns the
-- number of threads times the increments of each.
pub Reachable-count :
    (limit num_cpus increments num_threads : ℕ) (s : State)
    → 1 ≤ num_cpus
    → num_threads * increments ≤ int_max
    → Reachable limit num_cpus (threads_from num_cpus increments 0 num_threads) s
    → All IsFinished s.threads
    → sloppy_counter_get limit quiet s.counter ≡ some (num_threads * increments, s.counter)
Reachable-count limit c m n s h small r f =
    let i = Reachable-IsCounted limit c m n h r in
    let (a, b) = finished-sum s.counter.local_counts s.threads f in
    let all : total s.counter ≡ n * m = omega (arith, i.balance, a, b) in
    sloppy_counter_get-quiet limit s.counter (omega (arith, all, small))
    ∙ ap (λ k. some (k, s.counter)) all

own_threads-same : (c m i n : ℕ) → i + n ≤ c → own_threads_from m i n ≡ threads_from c m i n
own_threads-same c m i zero h = refl
own_threads-same c m i (suc n) h =
    let core : i ≡ i % c = sym (mod-eq_of_lt (omega (arith, h))) in
    ap
      (λ k. record { cpu_core = k; increments = m; place = between } ∷ own_threads_from m (suc i) n)
      core
    ∙ ap (◌∷◌ (record { cpu_core = i % c; increments = m; place = between }))
        (own_threads-same c m (suc i) n (omega (arith, h)))

-- The same in sloppy_counter.c, where each thread has its own local count: once all the threads of
-- `main` have finished, `sloppy_counter_get` returns the number of threads times the increments of
-- each.
pub Reachable-own_count :
    (increments num_threads : ℕ) (s : State)
    → 1 ≤ num_threads
    → num_threads * increments ≤ int_max
    → Reachable threshold num_threads (own_threads_from increments 0 num_threads) s
    → All IsFinished s.threads
    → sloppy_counter_get threshold quiet s.counter ≡ some (num_threads * increments, s.counter)
Reachable-own_count m n s h small r f =
    Reachable-count threshold n m n s h small
      (subst (λ ts. Reachable threshold n ts s) (own_threads-same n m 0 n (omega arith)) r) f
