-- ===== src/AioServer/Visit.antt =====
-- The body of the loop over the clients in
-- exersises/concurrency/event-based-concurrency/exercise/aio-file-server.c (lines 488 to 568), with
-- `remove_client` (lines 202 to 220) and `nb_write` (lines 239 to 244). The result is the client as
-- it stays in its slot, or `none` if it was removed; the slot is moved by the loop, and the closing
-- of the socket itself is not modelled.
mod Reading
mod Sending
pub mod Keeps
pub mod Delivery
pub mod Completion
use osvcp.Prelude.{
  ℕ, zero, suc, ◌+◌, ◌-◌, Bool, true, false, not, ◌&&◌, Option, none, some, List, [], ◌∷◌, ◌++◌,
  Bytes, length, drop, take, leb, ◌==◌, if◌then◌else◌,
}
use osvcp.Lines.{split_line, request_name}
use osvcp.Wire.{WriteResult, wrote, interrupted, unready}
use osvcp.Wire
use osvcp.World.{World, M, ◌>>=◌, ◌>>◌, pure, value, close, free}
use osvcp.FileServer.Requests.{req_buf_size}
use osvcp.AioServer.{
  Client, ClientState, reading, aio, writing, sendfile, System, Events, Peek, data_there, eof,
  not_yet, peek_failed, ReadResult, got, failed, SendfileResult, moved, full, sendfile_failed,
}
use osvcp.AioServer.Serve.{begin_file_serve, check_aio, free_block}

abbrev pub is_reading : ClientState → Bool
is_reading reading = true
is_reading _ = false

abbrev pub is_aio : ClientState → Bool
is_aio aio = true
is_aio _ = false

abbrev pub is_writing : ClientState → Bool
is_writing writing = true
is_writing _ = false

abbrev pub is_sendfile : ClientState → Bool
is_sendfile sendfile = true
is_sendfile _ = false

-- What `remove_client` closes, by the state of the client.
abbrev pub close_files : ClientState → Option Bytes → M (Unit {0})
close_files aio _ = close
close_files sendfile (some _) = close
close_files sendfile none = pure tt
close_files reading _ = pure tt
close_files writing _ = pure tt

-- `remove_client`
unfoldable pub remove : Client → M (Option Client)
remove c = do close_files c.state c.sf_fd; free_block c.resp; pure none

-- The bytes that the socket has accepted.
unfoldable pub emit : ℕ → Bytes → M (Unit {0})
emit fd bytes w = (value tt, record w { out = w.out ++ (fd, bytes) ∷ [] })

-- The loop over the complete lines, which ends when a request changes the client's state. It has
-- fuel for each byte of the buffer.
unfoldable pub take_lines : ℕ → System → Client → M Client
take_lines zero sys c = pure c
take_lines (suc fuel) sys c = elim (split_line c.req) [
  | none ↦ pure c
  | some (line, rest) ↦ do
    served ← begin_file_serve sys c (request_name line)
    let shifted = record served { req = rest }
    let more = take_lines fuel sys shifted
    (if is_reading shifted.state then more else pure shifted)
]

-- The test for a request that is too long.
unfoldable pub check_room : Client → M (Option Client)
check_room c = if leb (req_buf_size - 1) (length c.req) then remove c else pure (some c)

unfoldable pub on_bytes : System → Client → Bytes → M (Option Client)
on_bytes sys c [] = remove c
on_bytes sys c (y ∷ bytes) = do
  let filled = record c { req = c.req ++ (y ∷ bytes) }
  served ← take_lines (suc (length filled.req)) sys filled
  check_room served

-- STATE_READING: `read` is asked for the space that is left, less the place of a NUL.
unfoldable pub on_read : System → ReadResult → Client → M (Option Client)
on_read sys failed c = remove c
on_read sys (got bytes) c = on_bytes sys c (take (req_buf_size - 1 - length c.req) bytes)

-- After `nb_write` took these bytes of the response.
unfoldable pub after_write : Client → Bytes → M (Option Client)
after_write c bytes = do
  emit c.sock bytes
  let sent = record c { resp_sent = c.resp_sent + length bytes }
  (if sent.resp_sent == sent.resp_size
      then (do free_block sent.resp; pure (some (record sent { resp = none; state = reading })))
      else pure (some sent))

-- STATE_WRITING
unfoldable pub on_write : WriteResult → Client → M (Option Client)
on_write (wrote n) c = after_write c (take n (drop c.resp_sent (take c.resp_size c.body)))
on_write unready c = after_write c []
on_write interrupted c = remove c
on_write Wire.failed c = remove c

-- The end of the transfer is tested also when the socket was full.
unfoldable pub after_transfer : Client → Bytes → M (Option Client)
after_transfer c bytes = do
  emit c.sock bytes
  let sent = record c {
    sf_offset = c.sf_offset + length bytes;
    sf_remaining = c.sf_remaining - length bytes;
  }
  (if sent.sf_remaining == 0
      then (do close; pure (some (record sent { sf_fd = none; state = reading })))
      else pure (some sent))

-- STATE_SENDFILE
unfoldable pub on_transfer : SendfileResult → Client → M (Option Client)
on_transfer (moved bytes) c = after_transfer c (take c.sf_remaining bytes)
on_transfer full c = after_transfer c []
on_transfer sendfile_failed c = remove c

abbrev pub hung_up : Peek → Bool
hung_up data_there = false
hung_up not_yet = false
hung_up eof = true
hung_up peek_failed = true

-- What follows for a client that was not removed.
infixl 5 ◌>=>◌
abbrev pub ◌>=>◌ : M (Option Client) → (Client → M (Option Client)) → M (Option Client)
◌>=>◌ m next = do r ← m; elim r [ some c ↦ next c | none ↦ pure none ]

-- Each of the blocks for a state, with its test.
abbrev pub read_phase : System → Events → Client → M (Option Client)
read_phase sys ev c =
    if is_reading c.state && ev.readable then on_read sys ev.read c else pure (some c)

abbrev pub write_phase : Bool → Events → Client → M (Option Client)
write_phase watched ev c =
    if is_writing c.state && watched then on_write ev.write c else pure (some c)

abbrev pub transfer_phase : Bool → Events → Client → M (Option Client)
transfer_phase watched ev c =
    if is_sendfile c.state && watched then on_transfer ev.transfer c else pure (some c)

abbrev pub aio_phase : System → Events → Client → M Client
aio_phase sys ev c = if is_aio c.state then check_aio sys ev.aio c else pure c

-- The socket is in `write_fds` only if the client was in one of these states before `select`.
abbrev pub write_watched : ClientState → Bool
write_watched reading = false
write_watched aio = false
write_watched writing = true
write_watched sendfile = true

abbrev pub phases : System → Events → Bool → Client → M (Option Client)
phases sys ev watched c = do
  checked ← aio_phase sys ev c
  read_phase sys ev checked >=> write_phase watched ev >=> transfer_phase watched ev

unfoldable pub visit : System → (ℕ → Events) → Client → M (Option Client)
visit sys events c =
    let ev = events c.sock in
    if ev.readable && not (is_reading c.state) && hung_up ev.peek
    then remove c
    else phases sys ev (ev.writable && write_watched c.state) c
