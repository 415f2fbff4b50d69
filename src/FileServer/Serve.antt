-- ===== src/FileServer/Serve.antt =====
-- `serve_file` of file-server.c (lines 206 to 323): the checks of a name, the cache, the whole read
-- of a small file and the streaming of any other. The result is 0 (`true`) or -1 (`false`).
use osvcp.Prelude.{
  ℕ, ◌+◌, ◌*◌, ◌≡◌, Bool, true, false, not, ◌&&◌, ◌||◌, Option, none, some, List, [], ◌∷◌, ◌++◌,
  Bytes, codes, starts_with, bounded, decimal, length, drop, take, leb, ltb, ◌==◌, if◌then◌else◌,
}
use osvcp.Cache.{Entry, cache_lookup, max_cache_file_size, path_max}
pub mod Confinement
pub mod Resources
mod Steps
pub mod Delivers
pub mod Coherence
pub mod Replies
pub mod RoundTrip
use osvcp.World.{
  World, Stat, Files, Answer, value, waiting, M, ◌>>=◌, ◌>>◌, pure, send, malloc, free, opened,
  close, insert,
}

pub data Reason : Type 0 where
  empty_filename absolute_path not_found access_denied : Reason
  stat_failed not_regular open_failed : Reason

abbrev pub reason_text : Reason → Bytes
reason_text empty_filename = codes "empty filename"
reason_text absolute_path = codes "absolute paths not allowed"
reason_text not_found = codes "not found"
reason_text access_denied = codes "access denied"
reason_text stat_failed = codes "stat failed"
reason_text not_regular = codes "not a regular file"
reason_text open_failed = codes "open failed"

unfoldable pub error_text : Reason → Bytes
error_text r = bounded 256 (codes "-ERR " ++ (reason_text r ++ 10 ∷ []))

-- `send_error`, and the `return 0` that follows each call of it.
unfoldable pub refuse : ℕ → Reason → M Bool
refuse fd r = do _ ← send fd (error_text r); pure true

unfoldable pub header : ℕ → Bytes
header size = bounded 64 (codes "+OK " ++ (decimal size ++ 10 ∷ []))

unfoldable pub candidate : Bytes → Bytes → Bytes
candidate docroot filename = bounded (2 * path_max) (docroot ++ (b'/' ∷ filename))

-- The byte at `resolved[root_len]` is '/' or NUL.
abbrev pub ends_or_slash : Bytes → Bool
ends_or_slash [] = true
ends_or_slash (c ∷ _) = c == b'/'

-- Security check 2.
unfoldable pub inside_root : Bytes → Bytes → Bool
inside_root docroot resolved =
    starts_with docroot resolved && ends_or_slash (drop (length docroot) resolved)

-- The loop of the streaming path, and what follows it.
unfoldable pub stream_chunks : ℕ → List Bytes → M Bool
stream_chunks fd [] = do close; pure true
stream_chunks fd ([] ∷ rest) = do close; pure true
stream_chunks fd ((x ∷ chunk) ∷ rest) =
    let more = stream_chunks fd rest in
    do sent ← send fd (x ∷ chunk); if sent then more else (do close; pure false)

unfoldable pub stream : Files → ℕ → Bytes → ℕ → M Bool
stream fs fd path size = do
  sent ← send fd (header size)
  if sent then stream_chunks fd (fs.reads path) else (do close; pure false)

-- The bytes of the file that the one `pread` returned.
unfoldable pub whole : Files → Bytes → ℕ → Option Bytes
whole fs path size = if ltb 0 size then fs.pread path size else some []

-- The response is built in `block`: sent, and then cached.
unfoldable pub send_whole : Files → ℕ → Bytes → ℕ → ℕ → Bytes → M Bool
send_whole fs fd path size block content =
    let resp = header size ++ content in
    let resp_size = length (header size) + size in
    do
      close
      sent ← send fd (take resp_size resp)
      (if sent
          then (do insert path block resp resp_size; pure true)
          else (do free block; pure false))

unfoldable pub fill_block : Files → ℕ → Bytes → ℕ → ℕ → M Bool
fill_block fs fd path size block = elim (whole fs path size) [
  | some content ↦
      if length content == size
      then send_whole fs fd path size block content
      else (do free block; stream fs fd path size)
  | none ↦ do free block; stream fs fd path size
]

unfoldable pub serve_opened : Files → ℕ → Bytes → ℕ → M Bool
serve_opened fs fd path size =
    if leb size max_cache_file_size
    then (do
      m ← malloc fs
      elim m [ some block ↦ fill_block fs fd path size block | none ↦ stream fs fd path size ])
    else stream fs fd path size

-- Security check 3, and the opening of the file.
unfoldable pub serve_from_disk : Files → ℕ → Bytes → M Bool
serve_from_disk fs fd path = elim (fs.stat path) [
  | none ↦ refuse fd stat_failed
  | some st ↦
      if not st.regular
      then refuse fd not_regular
      else if not (fs.open_read path)
      then refuse fd open_failed
      else (do opened; serve_opened fs fd path st.size)
]

unfoldable pub serve_resolved : Files → ℕ → Bytes → M Bool
serve_resolved fs fd path w = elim (cache_lookup path w.cache) [
  | some e ↦ send fd (take e.resp_size e.resp) w
  | none ↦ serve_from_disk fs fd path w
]

unfoldable pub serve_relative : Files → ℕ → Bytes → M Bool
serve_relative fs fd filename = elim (fs.realpath (candidate fs.docroot filename)) [
  | none ↦ refuse fd not_found
  | some path ↦
      if inside_root fs.docroot path then serve_resolved fs fd path else refuse fd access_denied
]

unfoldable pub serve_file : Files → ℕ → Bytes → M Bool
serve_file fs fd [] = refuse fd empty_filename
serve_file fs fd (c ∷ name) =
    if c == b'/' then refuse fd absolute_path else serve_relative fs fd (c ∷ name)
