-- ===== src/FileServer/EventLoop/Buffers.antt =====
-- The table and the buffers of its clients, over a whole run.
use osvcp.Prelude.{
  ℕ, ◌-◌, ◌<◌, ◌≡◌, refl, false, Option, none, some, inl, inr, List, [], ◌∷◌, ◌++◌, arith, Bytes,
  length, Option-cases,
}
use osvcp.Lines.{has_newline}
use osvcp.World.{World, Files, value, M, pure}
use osvcp.World.Ensures.{Ensures, pure-Ensures, bind-Ensures, if-Ensures}
use osvcp.FileServer.Requests.{keep, tear_down, out_of_fuel, process_requests, req_buf_size}
use osvcp.FileServer.Requests.Chunks.{process_requests-keep}
use osvcp.FileServer.EventLoop.{
  Client, Connection, new_client, ReadResult, got, failed, Poll, eintr, broken, ready, Round,
  Server, Next, again, stop, clear_cache, clear_if_requested, on_bytes, on_readable, visit, on_poll,
  iteration, event_loop, deliver, after_read, accept_all,
}
use osvcp.Table.{add_client}
use osvcp.Table.Slots.{IsTable, add_client-IsTable}
use osvcp.Sweep.{sweep}
use osvcp.Sweep.Keeps.{Kept, sweep-IsTable}

-- No complete request waits in the buffer, and there is room for a byte.
pub record IsReady (c : Client) : Type 0 where
  pub drained : has_newline c.buf ≡ false
  pub room : length c.buf < req_buf_size - 1

accept_all-IsTable :
    (new : List Connection) (cs : List Client)
    → IsTable IsReady cs
    → IsTable IsReady (accept_all new cs)
unfolding accept_all has_newline
accept_all-IsTable [] cs t = t
accept_all-IsTable (k ∷ new) cs t =
    accept_all-IsTable new (add_client (new_client k) cs) (
      add_client-IsTable IsReady (new_client k) cs (record { drained = refl; room = omega arith })
        t)

verdict-Kept :
    (fs : Files) (c : Client) (buf : Bytes)
    → Ensures (λ v. Kept IsReady (after_read c v)) (process_requests fs c.fd buf)
unfolding after_read
verdict-Kept fs c buf w u (keep rest) h =
    let (drained, room) = process_requests-keep fs c.fd buf rest w u h in
    record { drained = drained; room = room }
verdict-Kept fs c buf w u tear_down h = tt
verdict-Kept fs c buf w u out_of_fuel h = tt

on_bytes-Kept :
    (fs : Files) (c : Client) (read : Bytes) → Ensures (Kept IsReady) (on_bytes fs c read)
unfolding on_bytes
on_bytes-Kept fs c [] = pure-Ensures (Kept IsReady) none tt
on_bytes-Kept fs c (y ∷ read) =
    bind-Ensures (λ v. Kept IsReady (after_read c v)) (Kept IsReady)
      (process_requests fs c.fd (c.buf ++ (y ∷ read))) (λ v. pure (after_read c v))
      (verdict-Kept fs c (c.buf ++ (y ∷ read)))
      (λ v k. pure-Ensures (Kept IsReady) (after_read c v) k)

on_readable-Kept :
    (fs : Files) (c : Client) (r : ReadResult) → Ensures (Kept IsReady) (on_readable fs c r)
unfolding on_readable
on_readable-Kept fs c failed = pure-Ensures (Kept IsReady) none tt
on_readable-Kept fs c (got bytes) = on_bytes-Kept fs c _

visit-Kept :
    (fs : Files) (reads : ℕ → Option ReadResult) (c : Client)
    → IsReady c
    → Ensures (Kept IsReady) (visit fs reads c)
unfolding visit
visit-Kept fs reads c q = elim (Option-cases (reads c.fd)) [
  | inl e ↦ rw (e, visit) (pure-Ensures (Kept IsReady) (some c) q)
  | inr (r, e) ↦ rw (e, visit) (on_readable-Kept fs c r)
]

abbrev NextTable : Next → Type 0
NextTable (again s) = IsTable IsReady s.clients
NextTable (stop s) = IsTable IsReady s.clients

on_poll-IsTable :
    (fs : Files) (p : Poll) (s : Server)
    → IsTable IsReady s.clients
    → Ensures NextTable (on_poll fs p s)
unfolding on_poll
on_poll-IsTable fs eintr s t = pure-Ensures NextTable (again s) t
on_poll-IsTable fs broken s t = pure-Ensures NextTable (stop s) t
on_poll-IsTable fs (ready new reads) s t =
    let cs = accept_all new s.clients in
    bind-Ensures (IsTable IsReady) NextTable (sweep (visit fs reads) (length cs) cs) _
      (sweep-IsTable IsReady (visit fs reads) (visit-Kept fs reads) (length cs) cs
        (accept_all-IsTable new s.clients t))
      (λ swept k. pure-Ensures NextTable (again (record s { clients = swept })) k)

clear_if_requested-IsTable :
    (s : Server)
    → IsTable IsReady s.clients
    → Ensures (λ (c : Server). IsTable IsReady c.clients) (clear_if_requested s)
unfolding clear_if_requested
clear_if_requested-IsTable s t =
    if-Ensures (λ (c : Server). IsTable IsReady c.clients) s.cache_clear_requested _ (pure s)
      (bind-Ensures (λ _. Unit {0}) (λ (c : Server). IsTable IsReady c.clients) clear_cache _
        (λ w u x h. tt)
        (λ _ _.
          pure-Ensures (λ (c : Server). IsTable IsReady c.clients)
            (record s { cache_clear_requested = false }) t))
      (pure-Ensures (λ (c : Server). IsTable IsReady c.clients) s t)

iteration-IsTable :
    (r : Round) (s : Server) → IsTable IsReady s.clients → Ensures NextTable (iteration r s)
unfolding iteration
iteration-IsTable r s t =
    bind-Ensures (λ (c : Server). IsTable IsReady c.clients) NextTable (clear_if_requested s) _
      (clear_if_requested-IsTable s t)
      (λ cleared k. on_poll-IsTable r.files r.poll (deliver r cleared) k)

event_loop-Ensures :
    (rounds : List Round) (s : Server)
    → IsTable IsReady s.clients
    → Ensures (λ (t : Server). IsTable IsReady t.clients) (event_loop rounds s)
unfolding event_loop
event_loop-Ensures [] s t = pure-Ensures (λ (u : Server). IsTable IsReady u.clients) s t
event_loop-Ensures (r ∷ rounds) s t =
    if-Ensures (λ (u : Server). IsTable IsReady u.clients) s.running _ (pure s)
      (bind-Ensures NextTable (λ (u : Server). IsTable IsReady u.clients) (iteration r s) _
        (iteration-IsTable r s t)
        λ n.
          elim n
            as (λ n.
              NextTable n
              → Ensures (λ (u : Server). IsTable IsReady u.clients)
                  (elim n as (λ _. M Server) [ again v ↦ event_loop rounds v | stop v ↦ pure v ])) [
                    | again v ↦ λ k. event_loop-Ensures rounds v k
                    | stop v ↦ λ k. pure-Ensures (λ (u : Server). IsTable IsReady u.clients) v k
                  ])
      (pure-Ensures (λ (u : Server). IsTable IsReady u.clients) s t)

-- Whatever the rounds bring, the server never has more than MAX_CLIENTS clients, no complete request
-- waits in a buffer when it goes back to `select`, and every buffer has room for at least a byte, so
-- that `read` never takes a full buffer for the end of the stream.
pub event_loop-IsTable :
    (rounds : List Round) (s t : Server) (w u : World)
    → event_loop rounds s w ≡ (value t, u)
    → IsTable IsReady s.clients
    → IsTable IsReady t.clients
event_loop-IsTable rounds s t w u h k = event_loop-Ensures rounds s k w u t h
