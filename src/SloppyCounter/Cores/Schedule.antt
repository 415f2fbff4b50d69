-- ===== src/SloppyCounter/Cores/Schedule.antt =====
-- The schedule of atomic updates that a run of
-- exersises/concurrency/locked-data-structures/2/cpu_based/sloppy_counter_cpu_based.c amounts to.
use osvcp.Prelude.{
  ℕ, ◌+◌, ◌*◌, ◌≤◌, ◌≡◌, refl, ap, sym, subst, ◌∙◌, List, [], ◌∷◌, ◌++◌, arith, length,
  length-append, sum,
}
use osvcp.SloppyCounter.{Counter, sloppy_counter_init, count_at, zeros}
use osvcp.SloppyCounter.Totals.{InRange, total, total-updates, length-updates}
use osvcp.SloppyCounter.Reads.{sum-zeros, length-zeros}
use osvcp.SloppyCounter.Exact.{exact_update, exact_updates}
use osvcp.SloppyCounter.Cores.{between, Thread, State, start, threads_from, Reachable, begin, step}
use osvcp.SloppyCounter.Cores.Locks.{Reachable-IsLocked, sum-threads_from}
use osvcp.SloppyCounter.Cores.Counts.{todo}
use osvcp.SloppyCounter.Cores.Result.{threads_from-counts, Reachable-IsCounted}
use osvcp.SloppyCounter.Cores.Atomic.{moved_there, reset_there, ahead, behind, IsAtomic}
use osvcp.SloppyCounter.Cores.Refinement.{Step-Follows}

updates-append :
    (limit : ℕ) (ids js : List ℕ) (a : Counter)
    → exact_updates limit (ids ++ js) a ≡ exact_updates limit js (exact_updates limit ids a)
unfolding exact_updates
updates-append limit [] js a = refl
updates-append limit (id ∷ ids) js a = updates-append limit ids js (exact_update limit id a)

-- A thread between two updates owes nothing.
idle_behind :
    (limit core : ℕ) (counts : List ℕ) (t : Thread)
    → t.place ≡ between
    → behind limit core counts t ≡ 0
idle_behind limit core counts t e =
    ground (arith, ap (λ p. reset_there limit p (count_at counts t.cpu_core)) e)

idle_ahead :
    (limit : ℕ) (counts : List ℕ) (t : Thread) → t.place ≡ between → ahead limit counts t ≡ 0
idle_ahead limit counts t e = ap (λ p. moved_there limit p (count_at counts t.cpu_core)) e

start-IsAtomic :
    (limit c m n : ℕ) → IsAtomic limit (start c (threads_from c m 0 n)) (sloppy_counter_init c)
unfolding sloppy_counter_init
start-IsAtomic limit c m n = record {
  global =
      omega (arith, sum-threads_from (ahead limit (zeros c)) c m 0 n (idle_ahead limit (zeros c)));
  locals = λ core. omega (
    arith,
    sum-threads_from (behind limit core (zeros c)) c m 0 n (idle_behind limit core (zeros c)),
  );
  size = refl;
}

InRange-append : (n : ℕ) (xs ys : List ℕ) → InRange n xs → InRange n ys → InRange n (xs ++ ys)
InRange-append n [] ys a b = b
InRange-append n (x ∷ xs) ys a b = (a.0, InRange-append n xs ys a.1 b)

-- The schedule so far.
pub record IsScheduled (limit num_cpus total : ℕ) (s : State) : Type 0 where
  pub ids : List ℕ
  pub there : InRange num_cpus ids
  pub atomic : IsAtomic limit s (exact_updates limit ids (sloppy_counter_init num_cpus))
  pub made : length ids + sum todo s.threads ≡ total

size-init : (c : ℕ) → length (sloppy_counter_init c).local_counts ≡ c
unfolding sloppy_counter_init
size-init c = length-zeros c

total-init : (c : ℕ) → total (sloppy_counter_init c) ≡ 0
unfolding sloppy_counter_init
total-init c = omega (arith, sum-zeros c)

pub Reachable-IsScheduled :
    (limit c m n : ℕ) {s : State}
    → 1 ≤ c
    → Reachable limit c (threads_from c m 0 n) s
    → IsScheduled limit c (n * m) s
unfolding exact_updates
Reachable-IsScheduled limit c m n h begin = record {
  ids = [];
  there = tt;
  atomic = start-IsAtomic limit c m n;
  made = omega (arith, (threads_from-counts c m 0 n h).1);
}
Reachable-IsScheduled limit c m n h (step {s = s} {t = s'} r t) =
    let i = Reachable-IsScheduled limit c m n h r in
    let now = exact_updates limit i.ids (sloppy_counter_init c) in
    let size : length now.local_counts ≡ c =
      length-updates limit i.ids (sloppy_counter_init c) ∙ size-init c in
    let (js, q, b, l) =
      Step-Follows limit c (n * m) now t (Reachable-IsLocked limit c m n r)
        (Reachable-IsCounted limit c m n h r) i.atomic in
    record {
      ids = i.ids ++ js;
      there = InRange-append c i.ids js i.there (subst (λ k. InRange k js) size q);
      atomic =
          subst (IsAtomic limit s') (sym (updates-append limit i.ids js (sloppy_counter_init c))) b;
      made = omega (arith, length-append i.ids js, i.made, l);
    }

-- What the schedule has counted.
pub scheduled_total :
    (limit c all : ℕ) (s : State) (i : IsScheduled limit c all s)
    → total (exact_updates limit i.ids (sloppy_counter_init c)) ≡ length i.ids
scheduled_total limit c all s i = omega (
  arith,
  total-updates limit i.ids (sloppy_counter_init c) (rw (size-init c) i.there),
  total-init c,
)

abbrev pub IsBetween : Thread → Type 0
IsBetween t = t.place ≡ between
