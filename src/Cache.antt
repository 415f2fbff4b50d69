-- ===== src/Cache.antt =====
-- The file cache of exersises/concurrency/event-based-concurrency/exercise/file-server.c (lines 57
-- to 132); aio-file-server.c (lines 66 to 134) has the same text. A cache is the list of the first
-- `cache_size` slots of the array. An entry has the address of its malloc'd block beside the bytes
-- that stand there, and an operation returns the blocks that it frees.
use osvcp.Prelude.{
  ℕ, ◌*◌, ◌≡◌, Bool, true, false, Option, none, some, List, [], ◌∷◌, ◌++◌, map, Bytes, str_eq,
  bounded, length, ◌==◌, if◌then◌else◌,
}
pub mod Contents
pub mod Shape
pub mod Ownership

abbrev pub max_cache_entries : ℕ
max_cache_entries = 16

abbrev pub max_cache_file_size : ℕ
max_cache_file_size = 64 * 1024

abbrev pub path_max : ℕ
path_max = 4096

pub record Entry : Type 0 where
  pub key : Bytes
  pub block : ℕ
  pub resp : Bytes
  pub resp_size : ℕ

abbrev pub Cache : Type 0
Cache = List Entry

-- The entry at the first index whose key compares equal.
unfoldable pub cache_lookup : Bytes → Cache → Option Entry
cache_lookup key [] = none
cache_lookup key (e ∷ c) = if str_eq e.key key then some e else cache_lookup key c

-- The first loop of `cache_insert`: the update in place, and the block that it frees.
unfoldable pub cache_update : Bytes → ℕ → Bytes → ℕ → Cache → Cache
cache_update key block resp size [] = []
cache_update key block resp size (e ∷ c) =
    if str_eq e.key key
    then record e { block = block; resp = resp; resp_size = size } ∷ c
    else e ∷ cache_update key block resp size c

-- The eviction: the slots that stay after the `memmove`, and the block of slot 0.
unfoldable pub make_room : Cache → Cache × List ℕ
make_room [] = ([], [])
make_room (e ∷ c) = if length (e ∷ c) == max_cache_entries then (c, e.block ∷ []) else (e ∷ c, [])

-- The second half of `cache_insert`, for a key that no slot holds.
unfoldable pub cache_append : Bytes → ℕ → Bytes → ℕ → Cache → Cache × List ℕ
cache_append key block resp size c =
    let (kept, freed) = make_room c in
    (
      kept
          ++ record { key = bounded path_max key; block = block; resp = resp; resp_size = size }
            ∷ [],
      freed,
    )

unfoldable pub cache_insert : Bytes → ℕ → Bytes → ℕ → Cache → Cache × List ℕ
cache_insert key block resp size c = elim (cache_lookup key c) [
  | some e ↦ (cache_update key block resp size c, e.block ∷ [])
  | none ↦ cache_append key block resp size c
]

abbrev pub blocks : Cache → List ℕ
blocks = map (λ e. e.block)

unfoldable pub cache_clear : Cache → Cache × List ℕ
cache_clear c = ([], blocks c)
