-- ===== src/SelectServer.antt =====
-- exersises/concurrency/event-based-concurrency/exercise/select-server.c: the select()-based time
-- server. What the clock shows is the environment's; it is a function of the number of responses
-- that the server has begun to write.
use osvcp.Prelude.{
  ℕ, zero, suc, ◌+◌, ◌-◌, Bool, true, false, not, Option, none, some, List, [], ◌∷◌, ◌++◌, Bytes,
  codes, bounded, length, take, leb, if◌then◌else◌,
}
use osvcp.Lines.{split_line}
use osvcp.Sockets.{admit, closing}
use osvcp.Wire.{WriteResult, wrote, interrupted, unready}
use osvcp.Wire
use osvcp.Sweep.{sweep}
use osvcp.World.{World, Answer, value, waiting, M, ◌>>=◌, pure}
use osvcp.FileServer.EventLoop.{Client, Connection, new_client, ReadResult, got, failed}
pub mod Replies
pub mod Rounds
pub mod Visits
pub mod Main
pub mod Descriptors

abbrev pub req_buf_size : ℕ
req_buf_size = 512

-- The format of the response, of which `snprintf` keeps 127 bytes.
unfoldable pub response : Bytes → Bytes
response time = bounded 128 (codes "Current time: " ++ (time ++ 10 ∷ []))

-- One call of `write`: the bytes that it took, and whether it did not return -1.
unfoldable pub write : ℕ → Bytes → List WriteResult → (Answer Bool × Bytes) × List WriteResult
write fd buf [] = ((waiting, []), [])
write fd buf (wrote n ∷ ws) = ((value true, take n buf), ws)
write fd buf (interrupted ∷ ws) = ((value false, []), ws)
write fd buf (unready ∷ ws) = ((value false, []), ws)
write fd buf (Wire.failed ∷ ws) = ((value false, []), ws)

-- The response to a request, whatever the request says.
unfoldable pub respond : (ℕ → Bytes) → ℕ → M Bool
respond clock fd w =
    let r = write fd (response (clock (length w.out))) w.writes in
    (r.0.0, record w { writes = r.1; out = w.out ++ (fd, r.0.1) ∷ [] })

-- `process_client_data`: 0 with the rest of the buffer, or -1. The loop has fuel.
pub data Verdict : Type 0 where
  keep : Bytes → Verdict
  remove : Verdict
  out_of_fuel : Verdict

unfoldable pub answer_lines : (ℕ → Bytes) → ℕ → ℕ → Bytes → M Verdict
answer_lines clock fd zero buf = pure out_of_fuel
answer_lines clock fd (suc fuel) buf = elim (split_line buf) [
  | none ↦ pure (keep buf)
  | some (line, rest) ↦
      let more = answer_lines clock fd fuel rest in
      do ok ← respond clock fd; if ok then more else pure remove
]

abbrev pub check_flood : Verdict → Verdict
check_flood (keep buf) = if leb (req_buf_size - 1) (length buf) then remove else keep buf
check_flood v = v

unfoldable pub process_client_data : (ℕ → Bytes) → ℕ → Bytes → M Verdict
process_client_data clock fd buf = do
  v ← answer_lines clock fd (suc (length buf)) buf
  pure (check_flood v)

-- The client after its data was processed; `none` if it is to be removed.
unfoldable pub after_data : Client → Verdict → Option Client
after_data c (keep buf) = some (record c { buf = buf })
after_data c remove = none
after_data c out_of_fuel = none

unfoldable pub on_bytes : (ℕ → Bytes) → Client → Bytes → M (Option Client)
on_bytes clock c [] = pure none
on_bytes clock c (y ∷ bytes) = do
  v ← process_client_data clock c.fd (c.buf ++ (y ∷ bytes))
  pure (after_data c v)

unfoldable pub on_readable : (ℕ → Bytes) → Client → ReadResult → M (Option Client)
on_readable clock c failed = pure none
on_readable clock c (got bytes) = on_bytes clock c (take (req_buf_size - 1 - length c.buf) bytes)

-- The body of the loop over the clients.
unfoldable pub visit : (ℕ → Bytes) → (ℕ → Option ReadResult) → Client → M (Option Client)
visit clock reads c = elim (reads c.fd) [ none ↦ pure (some c) | some r ↦ on_readable clock c r ]

-- What `select` says, and what follows it.
pub data Poll : Type 0 where
  broken : Poll  -- -1, also with EINTR: `break`
  ready : List Connection → (ℕ → Option ReadResult) → Poll

unfoldable pub accept_all : List Connection → List Client → M (List Client)
accept_all [] cs = pure cs
accept_all (k ∷ new) cs = do more ← admit k.socket (new_client k) cs; accept_all new more

-- The clients, and whether the loop goes on.
unfoldable pub on_poll : (ℕ → Bytes) → Poll → List Client → M (Bool × List Client)
on_poll clock broken cs = pure (false, cs)
on_poll clock (ready new reads) cs = do
  all ← accept_all new cs
  swept ← sweep (closing (λ (c : Client). c.fd) (visit clock reads)) (length all) all
  pure (true, swept)

-- An iteration, and whether SIGINT arrives during it.
pub record Round : Type 0 where
  pub sigint : Bool
  pub poll : Poll

-- `while (running)`, over the rounds that the environment has in store.
unfoldable pub event_loop : (ℕ → Bytes) → List Round → List Client → M (List Client)
event_loop clock [] cs = pure cs
event_loop clock (r ∷ rounds) cs = do
  n ← on_poll clock r.poll cs
  let more = event_loop clock rounds n.1
  (if n.0 then (if r.sigint then pure n.1 else more) else pure n.1)
