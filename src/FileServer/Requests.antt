-- ===== src/FileServer/Requests.antt =====
-- `process_requests` of
-- exersises/concurrency/event-based-concurrency/exercise/file-server.c (lines 325 to 355).
use osvcp.Prelude.{
  ℕ, zero, suc, ◌+◌, ◌-◌, ◌≤◌, ◌<◌, ◌≡◌, ◌∙◌, ap, refl, Bool, true, false, not, Option, none, some,
  inl, inr, List, [], ◌∷◌, ◌++◌, arith, Bytes, length, leb, if◌then◌else◌,
}
use osvcp.Lines.{split_line, request_name, lines}
use osvcp.World.{World, Files, Answer, value, waiting, M, ◌>>=◌, pure}
use osvcp.FileServer.Serve.{serve_file}
pub mod Loop
pub mod Chunks

abbrev pub req_buf_size : ℕ
req_buf_size = 512

-- What becomes of the connection: it stays, with what is left in the buffer (0), or is torn down
-- (-1). The loop has fuel; that the fuel suffices is proved below.
pub data Verdict : Type 0 where
  keep : Bytes → Verdict
  tear_down : Verdict
  out_of_fuel : Verdict

-- The `while (1)`: the rest of the buffer after all its complete lines.
unfoldable pub serve_lines : Files → ℕ → ℕ → Bytes → M Verdict
serve_lines fs fd zero buf = pure out_of_fuel
serve_lines fs fd (suc fuel) buf = elim (split_line buf) [
  | none ↦ pure (keep buf)
  | some (line, rest) ↦
      let more = serve_lines fs fd fuel rest in
      do served ← serve_file fs fd (request_name line); if served then more else pure tear_down
]

-- The test for a request that is too long.
abbrev pub check_length : Verdict → Verdict
check_length (keep buf) = if leb (req_buf_size - 1) (length buf) then tear_down else keep buf
check_length v = v

unfoldable pub process_requests : Files → ℕ → Bytes → M Verdict
process_requests fs fd buf = do v ← serve_lines fs fd (suc (length buf)) buf; pure (check_length v)
