-- ===== src/SloppyCounter/Cores.antt =====
-- exersises/concurrency/locked-data-structures/2/cpu_based/sloppy_counter_cpu_based.c (lines 8 to
-- 145): a counter with a local count for each core, which the threads of that core share. Here each
-- statement of `sloppy_counter_update` that takes or lets go a lock, or touches a count, is a step
-- of its own, which a lock that is held delays. sloppy_counter.c has the same statements, with a
-- local count for each thread. `pthread_mutex_t` is whether it is held. A count is an `int`; a
-- statement that would make one exceed the greatest `int` is undefined, and no step.
use osvcp.Prelude.{
  ℕ, zero, suc, ◌+◌, ◌<◌, ◌≤◌, ◌≡◌, int_max, Bool, true, false, Option, some, List, [], ◌∷◌,
  get_elem?, set, leb, ◌==◌, if◌then◌else◌,
}
use osvcp.SloppyCounter.{Counter, sloppy_counter_init, count_at, cpu_core}
pub mod Locks
pub mod Counts
pub mod Result
pub mod Progress
pub mod Atomic
pub mod Refinement
pub mod Schedule
pub mod Sizes

-- THRESHOLD of this file
abbrev pub cpu_threshold : ℕ
cpu_threshold = 1000

-- Where a thread is in `sloppy_counter_update`.
pub data Place : Type 0 where
  between : Place  -- before the lock of the local count, or at the end
  counting : Place  -- before `local_counts[cpu_core]++`
  testing : Place  -- before the test
  wanting : Place  -- before the global lock
  moving : Place  -- before `global_count += ...`
  releasing : Place  -- before the global unlock
  resetting : Place  -- before `local_counts[cpu_core] = 0`
  unlocking : Place  -- before the unlock of the local count

-- `thread_args_t`, with the calls of `sloppy_counter_update` that `thread_func` has not started.
pub record Thread : Type 0 where
  pub cpu_core : ℕ
  pub increments : ℕ
  pub place : Place

pub record State : Type 0 where
  pub counter : Counter
  pub global_lock : Bool
  pub local_locks : ℕ → Bool
  pub threads : List Thread

abbrev pub goes_to : ℕ → Thread → Place → State → State
goes_to i t p s = record s { threads = set s.threads i (record t { place = p }) }

abbrev pub set_lock : ℕ → Bool → (ℕ → Bool) → ℕ → Bool
set_lock core b locks x = if x == core then b else locks x

-- `local_counts[core] = n`
abbrev pub set_count : ℕ → ℕ → Counter → Counter
set_count core n c = record c { local_counts = set c.local_counts core n }

-- A thread, the `i`-th, at a place.
abbrev pub At : State → ℕ → Thread → Place → Type 0
At s i t p = (get_elem? s.threads i ≡ some t) × (t.place ≡ p)

pub data Step (limit : ℕ) : State → State → Type 0 where
  lock_local :
      (s : State) (i n : ℕ) (t : Thread)
      → At s i t between
      → t.increments ≡ suc n
      → s.local_locks t.cpu_core ≡ false
      → Step limit s (record s {
        local_locks = set_lock t.cpu_core true s.local_locks;
        threads = set s.threads i (record t { increments = n; place = counting });
      })
  count_up :
      (s : State) (i : ℕ) (t : Thread)
      → At s i t counting
      → count_at s.counter.local_counts t.cpu_core + 1 ≤ int_max
      → Step limit s (
          goes_to i t testing (record s {
            counter =
                set_count t.cpu_core (count_at s.counter.local_counts t.cpu_core + 1) s.counter;
          }))
  find_enough :
      (s : State) (i : ℕ) (t : Thread)
      → At s i t testing
      → leb limit (count_at s.counter.local_counts t.cpu_core) ≡ true
      → Step limit s (goes_to i t wanting s)
  find_less :
      (s : State) (i : ℕ) (t : Thread)
      → At s i t testing
      → leb limit (count_at s.counter.local_counts t.cpu_core) ≡ false
      → Step limit s (goes_to i t unlocking s)
  lock_global :
      (s : State) (i : ℕ) (t : Thread)
      → At s i t wanting
      → s.global_lock ≡ false
      → Step limit s (goes_to i t moving (record s { global_lock = true }))
  move :
      (s : State) (i : ℕ) (t : Thread)
      → At s i t moving
      → s.counter.global_count + count_at s.counter.local_counts t.cpu_core ≤ int_max
      → Step limit s (
          goes_to i t releasing (record s {
            counter = record (s.counter) {
              global_count = s.counter.global_count + count_at s.counter.local_counts t.cpu_core;
            };
          }))
  unlock_global :
      (s : State) (i : ℕ) (t : Thread)
      → At s i t releasing
      → Step limit s (goes_to i t resetting (record s { global_lock = false }))
  reset :
      (s : State) (i : ℕ) (t : Thread)
      → At s i t resetting
      → Step limit s
          (goes_to i t unlocking (record s { counter = set_count t.cpu_core 0 s.counter }))
  unlock_local :
      (s : State) (i : ℕ) (t : Thread)
      → At s i t unlocking
      → Step limit s
          (goes_to i t between (record s { local_locks = set_lock t.cpu_core false s.local_locks }))

-- The threads that `main` starts, `n` of them from thread `i` on.
abbrev pub threads_from : ℕ → ℕ → ℕ → ℕ → List Thread
threads_from num_cpus increments i zero = []
threads_from num_cpus increments i (suc n) =
    record { cpu_core = cpu_core num_cpus i; increments = increments; place = between }
    ∷ threads_from num_cpus increments (suc i) n

-- The threads of sloppy_counter.c, where each has a local count of its own.
abbrev pub own_threads_from : ℕ → ℕ → ℕ → List Thread
own_threads_from increments i zero = []
own_threads_from increments i (suc n) =
    record { cpu_core = i; increments = increments; place = between }
    ∷ own_threads_from increments (suc i) n

-- What `main` starts with.
abbrev pub start : ℕ → List Thread → State
start num_cpus threads = record {
  counter = sloppy_counter_init num_cpus;
  global_lock = false;
  local_locks = λ core. false;
  threads = threads;
}

pub data Reachable (limit num_cpus : ℕ) (threads : List Thread) : State → Type 0 where
  begin : Reachable limit num_cpus threads (start num_cpus threads)
  step :
      {s t : State}
      → Reachable limit num_cpus threads s
      → Step limit s t
      → Reachable limit num_cpus threads t
