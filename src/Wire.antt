-- ===== src/Wire.antt =====
-- Writing a buffer to a socket: `write_all` of
-- exersises/concurrency/event-based-concurrency/exercise/file-server.c (lines 192 to 204). The loop
-- of `sock_send` in aio-file-server.c (lines 246 to 253) is the same, with the result dropped.
-- The kernel's answers to the calls of `write` that are to come are a list; where it ends, the
-- process still waits in `write`.
use osvcp.Prelude.{ℕ, List, [], ◌∷◌, ◌++◌, Bytes, take, drop}
pub mod Delivery

pub data WriteResult : Type 0 where
  wrote : ℕ → WriteResult  -- this many bytes, or all if there are fewer
  interrupted : WriteResult  -- -1 with EINTR
  unready : WriteResult  -- -1 with EAGAIN or EWOULDBLOCK
  failed : WriteResult  -- -1 with another errno

pub data Status : Type 0 where
  done : Status  -- 0
  broken : Status  -- -1
  waiting : Status

pub record Sent : Type 0 where
  pub status : Status
  pub bytes : Bytes  -- what the socket has accepted
  pub rest : List WriteResult

abbrev pub prepend : Bytes → Sent → Sent
prepend b s = record s { bytes = b ++ s.bytes }

unfoldable pub write_all : List WriteResult → Bytes → Sent
write_all ws [] = record { status = done; bytes = []; rest = ws }
write_all [] (x ∷ buf) = record { status = waiting; bytes = []; rest = [] }
write_all (wrote n ∷ ws) (x ∷ buf) = prepend (take n (x ∷ buf)) (write_all ws (drop n (x ∷ buf)))
write_all (interrupted ∷ ws) (x ∷ buf) = write_all ws (x ∷ buf)
write_all (unready ∷ ws) (x ∷ buf) = record { status = broken; bytes = []; rest = ws }
write_all (failed ∷ ws) (x ∷ buf) = record { status = broken; bytes = []; rest = ws }
