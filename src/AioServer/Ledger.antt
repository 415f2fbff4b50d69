-- ===== src/AioServer/Ledger.antt =====
-- What the clients of
-- exersises/concurrency/event-based-concurrency/exercise/aio-file-server.c hold between the visits
-- of the event loop: a block for a response, and an open file, by the state they are in; and the
-- interface of an account of blocks and files, which each step settles.
use osvcp.Prelude.{ℕ, ◌+◌, ◌-◌, ◌≤◌, ◌<◌, Option, none, some, Bytes, length}
use osvcp.World.{World, Files, malloc, free, opened, close, send, insert}
use osvcp.World.Moves.{Moves, Any, nothing}
use osvcp.FileServer.Requests.{req_buf_size}
use osvcp.FileServer.EventLoop.{clear_cache}
use osvcp.AioServer.{Client, ClientState, reading, aio, writing, sendfile}
use osvcp.AioServer.Visit.{emit}

-- An account in which a block costs `block b` and an open file `file`.
pub record Ledger : Type 1 where
  pub P : ℕ → World → Type 0
  pub block : ℕ → ℕ
  pub file : ℕ
  pub on_malloc :
      (fs : Files) → Moves P 0 Any (λ o. elim o [ none ↦ 0 | some b ↦ block b ]) (malloc fs)
  pub on_free : (b : ℕ) → Moves P (block b) Any nothing (free b)
  pub on_open : Moves P 0 Any (λ _. file) opened
  pub on_close : Moves P file Any nothing close
  pub on_send : (fd : ℕ) (buf : Bytes) → Moves P 0 Any nothing (send fd buf)
  pub on_emit : (fd : ℕ) (buf : Bytes) → Moves P 0 Any nothing (emit fd buf)
  pub on_insert :
      (key : Bytes) (b : ℕ) (resp : Bytes) (size : ℕ)
      → Moves P (block b) Any nothing (insert key b resp size)
  pub on_clear : Moves P 0 Any nothing clear_cache

-- The fields that a state goes with.
abbrev pub Fields : ClientState → Option ℕ → Option Bytes → Type 0
Fields reading none _ = Unit {0}
Fields aio (some _) _ = Unit {0}
Fields writing (some _) _ = Unit {0}
Fields sendfile none (some _) = Unit {0}
Fields _ _ _ = ⊥

-- How far the client is.
abbrev pub Progress : ClientState → Client → Type 0
Progress reading _ = Unit {0}
Progress aio c = c.resp_sent ≤ c.resp_size
Progress writing c = c.resp_sent ≤ c.resp_size
Progress sendfile c = 0 < c.sf_remaining

-- The block is there exactly in STATE_AIO and STATE_WRITING, and the source of `sendfile` is open in
-- STATE_SENDFILE, with bytes left to send.
pub record IsConsistent (c : Client) : Type 0 where
  pub fields : Fields c.state c.resp c.sf_fd
  pub progress : Progress c.state c

-- Besides, the buffer has room for a byte.
pub record IsReady (c : Client) : Type 0 where
  pub consistent : IsConsistent c
  pub room : length c.req < req_buf_size - 1

abbrev pub held_block : (ℕ → ℕ) → Option ℕ → ℕ
held_block cost none = 0
held_block cost (some b) = cost b

abbrev pub held_file : ℕ → ClientState → ℕ
held_file cost reading = 0
held_file cost aio = cost
held_file cost writing = 0
held_file cost sendfile = cost

-- What a client holds.
abbrev pub held : (ℕ → ℕ) → ℕ → Client → ℕ
held block file c = held_block block c.resp + held_file file c.state

abbrev pub held_opt : (ℕ → ℕ) → ℕ → Option Client → ℕ
held_opt block file none = 0
held_opt block file (some c) = held block file c
