-- ===== src/AioServer/Serve.antt =====
-- `begin_file_serve` (lines 272 to 378) and `check_aio` (lines 387 to 418) of
-- exersises/concurrency/event-based-concurrency/exercise/aio-file-server.c, with `sock_send` (lines
-- 246 to 253).
pub mod Keeps
use osvcp.Prelude.{
  ℕ, ◌+◌, ◌-◌, Bool, true, false, not, ◌&&◌, Option, none, some, List, [], ◌∷◌, ◌++◌, Bytes, codes,
  length, drop, take, leb, ltb, ◌==◌, if◌then◌else◌,
}
use osvcp.Cache.{Entry, cache_lookup, max_cache_file_size, path_max}
use osvcp.World.{
  World, Stat, Files, M, ◌>>=◌, ◌>>◌, pure, send, malloc, free, opened, close, insert,
}
use osvcp.FileServer.Serve.{header, candidate, inside_root}
use osvcp.AioServer.{
  Client, ClientState, reading, aio, writing, sendfile, System, AioStatus, in_progress, completed,
  aio_failed,
}

-- The result of the loop is dropped.
unfoldable pub sock_send : ℕ → Bytes → M (Unit {0})
sock_send fd msg = do _ ← send fd msg; pure tt

-- The message is sent, and the client is otherwise as before.
unfoldable pub complain : Client → Bytes → M Client
complain c msg = do sock_send c.sock (codes "-ERR " ++ (msg ++ 10 ∷ [])); pure c

abbrev pub is_empty : Bytes → Bool
is_empty [] = true
is_empty (_ ∷ _) = false

-- `bytes` written over `buf` from `start` on
unfoldable pub write_at : ℕ → Bytes → Bytes → Bytes
write_at start bytes buf = take start buf ++ (bytes ++ drop (start + length bytes) buf)

-- The client takes over a response in a block.
abbrev pub with_response : Client → ℕ → Bytes → ℕ → Client
with_response c block body size = record c {
  resp = some block;
  body = body;
  resp_size = size;
  resp_sent = 0;
}

-- The block of a small file, with its header in place, and the request for the rest.
abbrev pub prepared : System → Client → Bytes → ℕ → ℕ → Client
prepared sys c path size block =
    let head = header size in
    let built = write_at 0 head (sys.memory block) in
    record (with_response c block built (length head + size)) {
      file_fd = some path;
      data_at = length head;
    }

unfoldable pub start_aio : System → Client → Bytes → ℕ → ℕ → M Client
start_aio sys c path size block =
    let p = prepared sys c path size block in
    if sys.aio_read path
    then pure (record p { state = aio })
    else (do free block; close; complain (record p { resp = none }) (codes "aio_read failed"))

unfoldable pub serve_small : System → Client → Bytes → ℕ → M Client
serve_small sys c path size = do
  m ← malloc sys.files
  elim m [
    | some block ↦ start_aio sys c path size block
    | none ↦ do done ← complain c (codes "out of memory"); close; pure done
  ]

unfoldable pub serve_large : Client → Bytes → ℕ → M Client
serve_large c path size = do
  sock_send c.sock (header size)
  pure (record c { sf_fd = some path; sf_offset = 0; sf_remaining = size; state = sendfile })

unfoldable pub serve_open : System → Client → Bytes → ℕ → M Client
serve_open sys c path size =
    if ltb max_cache_file_size size then serve_large c path size else serve_small sys c path size

abbrev pub not_servable : Bool → Bytes
not_servable regular = if not regular then codes "not a regular file" else codes "stat failed"

unfoldable pub serve_disk : System → Client → Bytes → M Client
serve_disk sys c path = elim (sys.files.stat path) [
  | none ↦ complain c (not_servable sys.stale_regular)
  | some st ↦
      if not st.regular
      then complain c (not_servable st.regular)
      else if not (sys.files.open_read path)
      then complain c (codes "open failed")
      else (do opened; serve_open sys c path st.size)
]

-- A cache hit; without memory for the copy the file is served from disk.
unfoldable pub serve_hit : System → Client → Bytes → Entry → M Client
serve_hit sys c path e = do
  m ← malloc sys.files
  elim m [
    | some block ↦
        pure
          (record (with_response c block (take e.resp_size e.resp) e.resp_size) { state = writing })
    | none ↦ serve_disk sys c path
  ]

unfoldable pub serve_path : System → Client → Bytes → M Client
serve_path sys c path w =
    let keyed = record c { cache_key = take (path_max - 1) path } in
    elim (cache_lookup path w.cache) [
      | some e ↦ serve_hit sys keyed path e w
      | none ↦ serve_disk sys keyed path w
    ]

unfoldable pub begin_relative : System → Client → Bytes → M Client
begin_relative sys c name = elim (sys.files.realpath (candidate sys.files.docroot name)) [
  | none ↦ complain c (codes "not found")
  | some path ↦
      if inside_root sys.files.docroot path
      then serve_path sys c path
      else complain c (codes "access denied")
]

unfoldable pub begin_file_serve : System → Client → Bytes → M Client
begin_file_serve sys c [] = complain c (codes "empty filename")
begin_file_serve sys c (x ∷ name) =
    if x == b'/'
    then complain c (codes "absolute paths not allowed")
    else begin_relative sys c (x ∷ name)

-- `free(p)`, which does nothing to NULL
abbrev pub free_block : Option ℕ → M (Unit {0})
free_block none = pure tt
free_block (some block) = free block

-- The copy of a complete response for the cache.
unfoldable pub store : System → Client → M (Unit {0})
store sys c =
    if leb c.resp_size (max_cache_file_size + 64) && not (is_empty c.cache_key)
    then (do
      m ← malloc sys.files
      elim m [
        | some block ↦ insert c.cache_key block (take c.resp_size c.body) c.resp_size
        | none ↦ pure tt
      ])
    else pure tt

-- The client whose read has ended, with these bytes.
abbrev pub filled : Client → Bytes → Client
filled c bytes = record c { file_fd = none; body = write_at c.data_at bytes c.body }

unfoldable pub check_aio : System → AioStatus → Client → M Client
check_aio sys in_progress c = pure c
check_aio sys aio_failed c = do
  close
  free_block c.resp
  complain (record c { file_fd = none; resp = none; state = reading }) (codes "read error")
check_aio sys (completed bytes) c = do
  close
  store sys (filled c bytes)
  pure (record (filled c bytes) { state = writing })
