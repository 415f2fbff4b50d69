-- ===== src/SloppyCounter/Exact.antt =====
-- What the updates of exersises/concurrency/locked-data-structures/2/sloppy_counter.c do to counts
-- without a bound: a description of the effect for proofs.
use osvcp.Prelude.{ℕ, ◌+◌, none, some, List, [], ◌∷◌, get_elem?, set, leb, if◌then◌else◌}
use osvcp.SloppyCounter.{Counter}

-- The transfer of a local count that has reached the threshold.
unfoldable pub exact_transfer : ℕ → ℕ → ℕ → Counter → Counter
exact_transfer limit id count s =
    if leb limit count
    then record { global_count = s.global_count + count; local_counts = set s.local_counts id 0 }
    else record s { local_counts = set s.local_counts id count }

-- An update of a count that is not there does nothing.
unfoldable pub exact_update : ℕ → ℕ → Counter → Counter
exact_update limit id s = elim (get_elem? s.local_counts id) [
  | none ↦ s
  | some count ↦ exact_transfer limit id (count + 1) s
]

-- The updates of the threads, in the order of a schedule.
unfoldable pub exact_updates : ℕ → List ℕ → Counter → Counter
exact_updates limit [] s = s
exact_updates limit (id ∷ ids) s = exact_updates limit ids (exact_update limit id s)
