-- ===== src/AioServer.antt =====
-- exersises/concurrency/event-based-concurrency/exercise/aio-file-server.c: the file server that
-- never waits for a client or a disk. This file has the clients, and what the environment answers
-- (lines 138 to 169); a descriptor is known by the file that it is open on. The file's copy of the
-- cache (lines 92 to 134) and of the table are the same text as those of file-server.c, and are
-- modelled once, in Cache and in Table.
use osvcp.Prelude.{ℕ, Bool, Option, none, some, List, [], Bytes}
use osvcp.World.{Files}
use osvcp.Wire.{WriteResult}
pub mod Serve
pub mod Visit
pub mod EventLoop
pub mod Main
pub mod Ledger

pub data ClientState : Type 0 where
  reading aio writing sendfile : ClientState

pub record Client : Type 0 where
  pub sock : ℕ
  pub ip : ℕ
  pub port : ℕ
  pub req : Bytes  -- the first `req_len` bytes of `req_buf`
  pub state : ClientState
  pub file_fd : Option Bytes  -- the file it is open on; `none` for -1 or if it was never set
  pub resp : Option ℕ  -- the block; `none` for NULL
  pub body : Bytes  -- what the block holds
  pub resp_size : ℕ
  pub resp_sent : ℕ
  pub data_at : ℕ  -- `aio.aio_buf - resp`
  pub sf_fd : Option Bytes
  pub sf_offset : ℕ
  pub sf_remaining : ℕ
  pub cache_key : Bytes

-- What the system answers during an iteration.
pub record System : Type 0 where
  pub files : Files
  pub aio_read : Bytes → Bool  -- whether the request is accepted
  pub memory : ℕ → Bytes  -- what a block holds when `malloc` returns it
  pub stale_regular : Bool  -- S_ISREG of the `st` that a failed `stat` left as it was

-- `aio_error` and `aio_return`
pub data AioStatus : Type 0 where
  in_progress : AioStatus
  completed : Bytes → AioStatus  -- the bytes that it read, at most as many as asked for
  aio_failed : AioStatus

-- `recv(c->sock, &probe, 1, MSG_PEEK)`
pub data Peek : Type 0 where
  data_there : Peek
  eof : Peek
  not_yet : Peek  -- -1 with EAGAIN or EWOULDBLOCK
  peek_failed : Peek

pub data ReadResult : Type 0 where
  got : Bytes → ReadResult
  failed : ReadResult

pub data SendfileResult : Type 0 where
  moved : Bytes → SendfileResult  -- the bytes of the file that the socket took
  full : SendfileResult  -- -1 with EAGAIN or EWOULDBLOCK
  sendfile_failed : SendfileResult

-- What `select` and the calls that follow it say of one socket.
pub record Events : Type 0 where
  pub readable : Bool
  pub writable : Bool  -- counts only for a socket in `write_fds`
  pub peek : Peek
  pub read : ReadResult
  pub aio : AioStatus
  pub write : WriteResult
  pub transfer : SendfileResult
