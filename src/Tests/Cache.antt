-- ===== src/Tests/Cache.antt =====
-- A full cache, and one more file.
use osvcp.Prelude.{
  ℕ, zero, suc, ◌<◌, ◌≡◌, refl, none, some, [], ◌∷◌, ◌++◌, arith, str_eq, if◌then◌else◌,
}
use osvcp.Cache.{Entry, Cache, cache_lookup, make_room, cache_append, cache_insert}
use osvcp.Cache.Contents
use osvcp.Cache.Contents.{response, evicts, Absent, Distinct}

-- The entry of the file number `n`.
abbrev entry : ℕ → Entry
entry n = record { key = n ∷ []; block = n; resp = n ∷ n ∷ []; resp_size = 2 }

abbrev entries : ℕ → Cache
entries zero = []
entries (suc n) = entry (suc n) ∷ entries n

abbrev full : Cache
full = entries 16

entries-Absent : (n m : ℕ) → m < n → Absent (n ∷ []) (entries m)
unfolding str_eq
entries-Absent n zero h = tt
entries-Absent n (suc m) h = (ground arith, entries-Absent n m (omega arith))

entries-Distinct : (m : ℕ) → Distinct (entries m)
entries-Distinct zero = tt
entries-Distinct (suc m) = (entries-Absent (suc m) m (omega arith), entries-Distinct m)

full-Distinct : Distinct full
full-Distinct = entries-Distinct 16

evicted : cache_insert (99 ∷ []) 7 (1 ∷ []) 1 full ≡ (
  entries 15 ++ record { key = 99 ∷ []; block = 7; resp = 1 ∷ []; resp_size = 1 } ∷ [],
  16 ∷ [],
)
unfolding cache_insert cache_lookup cache_append make_room str_eq
evicted = refl

lookup-insert_example :
    response (cache_lookup (16 ∷ []) (cache_insert (99 ∷ []) 7 (1 ∷ []) 1 full).0) ≡ (
      if str_eq (99 ∷ []) (16 ∷ [])
      then some (1 ∷ [], 1)
      else (if evicts full (99 ∷ []) (16 ∷ [])
          then none
          else response (cache_lookup (16 ∷ []) full)))
lookup-insert_example =
    Contents.lookup-insert (16 ∷ []) (99 ∷ []) 7 (1 ∷ []) 1 full full-Distinct (omega arith)
