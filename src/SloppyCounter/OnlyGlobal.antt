-- ===== src/SloppyCounter/OnlyGlobal.antt =====
-- exersises/concurrency/locked-data-structures/2/cloppy_counter_only_global_lock.c (lines 7 to 132):
-- the local counts belong to their threads alone, and `main` gives them to `sloppy_counter_get` when
-- the threads have finished. Each statement of `sloppy_counter_update` that takes or lets go the
-- lock, or touches a count, is a step of its own, which the lock delays while it is held. A count is
-- an `int`; a statement that would make one exceed the greatest `int` is undefined, and no step.
use osvcp.Prelude.{
  ℕ, zero, suc, ◌+◌, ◌≤◌, ◌≡◌, Bool, true, false, Option, none, some, int, int_max, List, [], ◌∷◌,
  map, get_elem?, set, leb,
}
pub mod Tally

-- THRESHOLD of this file
abbrev pub tally_threshold : ℕ
tally_threshold = 1000

-- Where a thread is in `sloppy_counter_update`.
pub data Place : Type 0 where
  between : Place  -- before `(*local_count)++`, or at the end
  testing : Place  -- before the test
  wanting : Place  -- before the lock
  moving : Place  -- before `global_count += *local_count`
  releasing : Place  -- before the unlock
  resetting : Place  -- before `*local_count = 0`

-- `thread_args_t`, with the calls of `sloppy_counter_update` that `thread_func` has not started.
pub record Thread : Type 0 where
  pub increments : ℕ
  pub local_count : ℕ
  pub place : Place

-- `sloppy_counter_t`, and the threads; the mutex is whether it is held.
pub record State : Type 0 where
  pub global_count : ℕ
  pub global_lock : Bool
  pub threads : List Thread

abbrev pub goes_to : ℕ → Thread → Place → State → State
goes_to i t p s = record s { threads = set s.threads i (record t { place = p }) }

-- A thread, the `i`-th, at a place.
abbrev pub At : State → ℕ → Thread → Place → Type 0
At s i t p = (get_elem? s.threads i ≡ some t) × (t.place ≡ p)

pub data Step (limit : ℕ) : State → State → Type 0 where
  count_up :
      (s : State) (i n : ℕ) (t : Thread)
      → At s i t between
      → t.increments ≡ suc n
      → t.local_count + 1 ≤ int_max
      → Step limit s (record s {
        threads =
            set s.threads i
              (record { increments = n; local_count = t.local_count + 1; place = testing });
      })
  find_enough :
      (s : State) (i : ℕ) (t : Thread)
      → At s i t testing
      → leb limit t.local_count ≡ true
      → Step limit s (goes_to i t wanting s)
  find_less :
      (s : State) (i : ℕ) (t : Thread)
      → At s i t testing
      → leb limit t.local_count ≡ false
      → Step limit s (goes_to i t between s)
  lock :
      (s : State) (i : ℕ) (t : Thread)
      → At s i t wanting
      → s.global_lock ≡ false
      → Step limit s (goes_to i t moving (record s { global_lock = true }))
  move :
      (s : State) (i : ℕ) (t : Thread)
      → At s i t moving
      → s.global_count + t.local_count ≤ int_max
      → Step limit s
          (goes_to i t releasing (record s { global_count = s.global_count + t.local_count }))
  unlock :
      (s : State) (i : ℕ) (t : Thread)
      → At s i t releasing
      → Step limit s (goes_to i t resetting (record s { global_lock = false }))
  reset :
      (s : State) (i : ℕ) (t : Thread)
      → At s i t resetting
      → Step limit s
          (record s { threads = set s.threads i (record t { local_count = 0; place = between }) })

-- The threads that `main` creates; `thread_func` sets the local count to 0.
abbrev pub threads : ℕ → ℕ → List Thread
threads zero increments = []
threads (suc n) increments =
    record { increments = increments; local_count = 0; place = between } ∷ threads n increments

-- `sloppy_counter_init`, and the threads.
abbrev pub start : ℕ → ℕ → State
start num_threads increments = record {
  global_count = 0;
  global_lock = false;
  threads = threads num_threads increments;
}

pub data Reachable (limit num_threads increments : ℕ) : State → Type 0 where
  begin : Reachable limit num_threads increments (start num_threads increments)
  step :
      {s t : State}
      → Reachable limit num_threads increments s
      → Step limit s t
      → Reachable limit num_threads increments t

-- `sloppy_counter_get`: the sum, which is undefined if it is not an `int`.
unfoldable pub get_all : ℕ → List ℕ → Option ℕ
get_all global_count [] = some global_count
get_all global_count (c ∷ local_counts) = elim (int (global_count + c)) [
  | none ↦ none
  | some total ↦ get_all total local_counts
]

-- The final count of `main`, with the local counts that it collects.
abbrev pub final_count : State → Option ℕ
final_count s = get_all s.global_count (map (λ (t : Thread). t.local_count) s.threads)
