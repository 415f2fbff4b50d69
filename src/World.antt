-- ===== src/World.antt =====
-- The state that the functions of the file servers work on, and the calls of the system that they
-- make: exersises/concurrency/event-based-concurrency/exercise/file-server.c and aio-file-server.c.
-- `World` holds the cache, the kernel's answers to the writes to come, what every socket has
-- accepted so far, the blocks malloc'd and freed, the number of files that are open, and the sockets
-- got and closed. A call that is not answered stops the function there: `waiting`.
use osvcp.Prelude.{ℕ, ◌+◌, ◌-◌, Bool, true, false, Option, List, [], ◌∷◌, ◌++◌, Bytes}
use osvcp.Cache
use osvcp.Cache.{Cache}
use osvcp.Wire
use osvcp.Wire.{WriteResult, Status, write_all}
pub mod Laws
pub mod Preserves
pub mod Ensures
pub mod Moves

pub record World : Type 0 where
  pub cache : Cache
  pub writes : List WriteResult
  pub out : List (ℕ × Bytes)  -- socket and bytes, a pair for each call of `write_all`
  pub mallocs : ℕ  -- calls of `malloc` so far; the next block's address
  pub allocated : List ℕ
  pub freed : List ℕ
  pub files : ℕ
  pub sockets : List ℕ  -- what `socket` and `accept` have returned (in select-server.c only)
  pub closed : List ℕ  -- the arguments of `close` for a socket (in select-server.c only)

-- `struct stat`, as far as it is read
pub record Stat : Type 0 where
  pub regular : Bool
  pub size : ℕ

-- What the file system answers while a request is served. It is not under the server's control, and
-- may differ from one request to the next.
pub record Files : Type 0 where
  pub docroot : Bytes
  pub realpath : Bytes → Option Bytes
  pub stat : Bytes → Option Stat
  pub open_read : Bytes → Bool  -- whether `open` succeeds
  pub pread : Bytes → ℕ → Option Bytes  -- `none` for -1
  pub reads : Bytes → List Bytes  -- what successive calls of `read` return, until 0 or -1
  pub malloc : ℕ → Bool  -- whether the call with this number succeeds

pub data Answer {ℓ} (A : Type ℓ) : Type ℓ where
  value : A → Answer A
  waiting : Answer A

abbrev pub M : Type 0 → Type 0
M A = World → Answer A × World

infixl 5 ◌>>=◌ ◌>>◌
abbrev pub ◌>>=◌ : {A B : Type 0} → M A → (A → M B) → M B
◌>>=◌ m f w = elim (m w).0 [ value a ↦ f a (m w).1 | waiting ↦ (waiting, (m w).1) ]

abbrev pub ◌>>◌ : {A B : Type 0} → M A → M B → M B
◌>>◌ m k = m >>= λ _. k

abbrev pub pure : {A : Type 0} → A → M A
pure a w = (value a, w)

abbrev pub result : Status → Answer Bool
result Wire.done = value true
result Wire.broken = value false
result Wire.waiting = waiting

-- `write_all(fd, buf, len)`: whether it returned 0
unfoldable pub send : ℕ → Bytes → M Bool
send fd buf w =
    let s = write_all w.writes buf in
    (result s.status, record w { writes = s.rest; out = w.out ++ (fd, s.bytes) ∷ [] })

unfoldable pub malloc : Files → M (Option ℕ)
malloc fs w = elim (fs.malloc w.mallocs) [
  | true ↦ (
    value (Option.some w.mallocs),
    record w { mallocs = w.mallocs + 1; allocated = w.mallocs ∷ w.allocated },
  )
  | false ↦ (value Option.none, record w { mallocs = w.mallocs + 1 })
]

unfoldable pub free : ℕ → M (Unit {0})
free b w = (value tt, record w { freed = b ∷ w.freed })

unfoldable pub opened : M (Unit {0})
opened w = (value tt, record w { files = w.files + 1 })

unfoldable pub close : M (Unit {0})
close w = (value tt, record w { files = w.files - 1 })

-- `cache_insert`, with the blocks that it frees.
unfoldable pub insert : Bytes → ℕ → Bytes → ℕ → M (Unit {0})
insert key block resp size w =
    let (c, freed) = Cache.cache_insert key block resp size w.cache in
    (value tt, record w { cache = c; freed = freed ++ w.freed })
