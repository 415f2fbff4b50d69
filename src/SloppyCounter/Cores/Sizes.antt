-- ===== src/SloppyCounter/Cores/Sizes.antt =====
-- No count of
-- exersises/concurrency/locked-data-structures/2/cpu_based/sloppy_counter_cpu_based.c exceeds the
-- number of updates, so none overflows.
use osvcp.Prelude.{ℕ, zero, suc, ◌+◌, ◌*◌, ◌≤◌, ap, List, [], ◌∷◌, arith, int_max, weight-le_sum}
use osvcp.SloppyCounter.{sloppy_counter_init, count_at}
use osvcp.SloppyCounter.Totals
use osvcp.SloppyCounter.Exact.{exact_updates}
use osvcp.SloppyCounter.Cores.{counting, moving, Thread, State, At, threads_from, Reachable}
use osvcp.SloppyCounter.Cores.Locks.{Reachable-IsLocked}
use osvcp.SloppyCounter.Cores.Counts.{todo, uncounted}
use osvcp.SloppyCounter.Cores.Atomic.{moved_there, ahead}
use osvcp.SloppyCounter.Cores.Refinement.{nobody_behind}
use osvcp.SloppyCounter.Cores.Schedule.{Reachable-IsScheduled, scheduled_total}

count_at-le_sum : (xs : List ℕ) (k : ℕ) → count_at xs k ≤ Totals.sum xs
count_at-le_sum [] k = omega arith
count_at-le_sum (x ∷ xs) zero = omega arith
count_at-le_sum (x ∷ xs) (suc k) = omega (arith, count_at-le_sum xs k)

-- The additions that the threads are about to make.
pub record IsFitting (s : State) : Type 0 where
  pub counts :
      (i : ℕ) (t : Thread)
      → At s i t counting
      → count_at s.counter.local_counts t.cpu_core + 1 ≤ int_max
  pub moves :
      (i : ℕ) (t : Thread)
      → At s i t moving
      → s.counter.global_count + count_at s.counter.local_counts t.cpu_core ≤ int_max

pub Reachable-IsFitting :
    (limit c m n : ℕ) {s : State}
    → 1 ≤ c
    → n * m ≤ int_max
    → Reachable limit c (threads_from c m 0 n) s
    → IsFitting s
Reachable-IsFitting limit c m n {s} h small r =
    let i = Reachable-IsScheduled limit c m n h r in
    let a = exact_updates limit i.ids (sloppy_counter_init c) in
    let all = scheduled_total limit c (n * m) s i in
    let xs = s.counter.local_counts in
    record {
      counts = λ j t at. omega (
        arith,
        i.atomic.locals t.cpu_core,
        nobody_behind limit s j t (Reachable-IsLocked limit c m n r) at,
        count_at-le_sum a.local_counts t.cpu_core,
        all,
        i.made,
        small,
        ap uncounted at.1,
        weight-le_sum todo s.threads j t at.0,
      );
      moves = λ j t at. omega (
        arith,
        i.atomic.global,
        weight-le_sum (ahead limit xs) s.threads j t at.0,
        ap (λ p. moved_there limit p (count_at xs t.cpu_core)) at.1,
        all,
        i.made,
        small,
      );
    }
