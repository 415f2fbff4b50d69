-- ===== src/SloppyCounter.antt =====
-- exersises/concurrency/locked-data-structures/2/sloppy_counter.c (lines 12 to 94): a counter with
-- a local count for each thread, which is moved to the global one when it reaches THRESHOLD. The
-- body of `sloppy_counter_update` runs under the lock of its local count, and touches the global
-- count only under the global lock, so an update is one step; a schedule is the list of the local
-- counts that the threads update, in the order in which they get the locks. A count is an `int`: what
-- would make it exceed the greatest one is undefined.
use osvcp.Prelude.{
  ℕ, zero, suc, ◌+◌, ◌-◌, ◌%◌, ◌≡◌, Bool, true, false, Option, none, some, List, [], ◌∷◌, get_elem?,
  set, leb, length, int, if◌then◌else◌,
}
pub mod Exact
pub mod Totals
pub mod Ints
pub mod Reads
pub mod OnlyGlobal
pub mod Cores

abbrev pub threshold : ℕ
threshold = 1000000

-- `sloppy_counter_t`, without the locks; `num_threads` is the number of the local counts.
pub record Counter : Type 0 where
  pub global_count : ℕ
  pub local_counts : List ℕ

abbrev pub zeros : ℕ → List ℕ
zeros zero = []
zeros (suc n) = 0 ∷ zeros n

unfoldable pub sloppy_counter_init : ℕ → Counter
sloppy_counter_init num_threads = record { global_count = 0; local_counts = zeros num_threads }

-- The transfer of a local count that has reached the threshold. A count that exceeds the greatest
-- `int` is undefined: `none`.
unfoldable pub transfer : ℕ → ℕ → ℕ → Counter → Option Counter
transfer limit id count s =
    if leb limit count
    then elim (int (s.global_count + count)) [
      | none ↦ none
      | some sum ↦ some (record { global_count = sum; local_counts = set s.local_counts id 0 })
    ]
    else some (record s { local_counts = set s.local_counts id count })

-- The threshold is an argument; to update a count outside of the array is undefined.
unfoldable pub sloppy_counter_update : ℕ → ℕ → Counter → Option Counter
sloppy_counter_update limit id s = elim (get_elem? s.local_counts id) [
  | none ↦ none
  | some count ↦ elim (int (count + 1)) [ none ↦ none | some n ↦ transfer limit id n s ]
]

-- The updates of the threads, in the order of a schedule.
unfoldable pub updates : ℕ → List ℕ → Counter → Option Counter
updates limit [] s = some s
updates limit (id ∷ ids) s = elim (sloppy_counter_update limit id s) [
  | none ↦ none
  | some t ↦ updates limit ids t
]

abbrev pub count_at : List ℕ → ℕ → ℕ
count_at counts id = elim (get_elem? counts id) [ none ↦ 0 | some count ↦ count ]

-- The loop of `sloppy_counter_get`, with `n` local counts to come from `id` on, and the sum so far:
-- before each is read, the updates of a schedule come in between. The sum, and the counter as it is
-- then.
unfoldable pub read_counts : ℕ → (ℕ → List ℕ) → ℕ → ℕ → ℕ → Counter → Option (ℕ × Counter)
read_counts limit between zero id so_far s = some (so_far, s)
read_counts limit between (suc n) id so_far s = elim (updates limit (between id) s) [
  | none ↦ none
  | some now ↦ elim (get_elem? now.local_counts id) [
    | none ↦ none
    | some count ↦ elim (int (so_far + count)) [
      | none ↦ none
      | some sum ↦ read_counts limit between n (suc id) sum now
    ]
  ]
]

-- `sloppy_counter_get`, with a schedule for each of the `num_threads` local counts.
unfoldable pub sloppy_counter_get : ℕ → (ℕ → List ℕ) → Counter → Option (ℕ × Counter)
sloppy_counter_get limit between s =
    read_counts limit between (length s.local_counts) 0 s.global_count s

-- `i % counter.num_cpus` of cpu_based/sloppy_counter_cpu_based.c, where the threads of a core share
-- its count.
abbrev pub cpu_core : ℕ → ℕ → ℕ
cpu_core num_cpus i = i % num_cpus
