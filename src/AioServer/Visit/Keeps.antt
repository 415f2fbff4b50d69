-- ===== src/AioServer/Visit/Keeps.antt =====
-- What the visit of a client in
-- exersises/concurrency/event-based-concurrency/exercise/aio-file-server.c leaves to it.
use osvcp.Prelude.{ℕ, ◌+◌, ◌≡◌, refl, Bool, true, false, not, ◌&&◌, Option, none, some, arith}
use osvcp.World.{M, pure}
use osvcp.World.Moves.{Moves, pure-Moves, bind-Moves, if-Moves, and-Moves}
use osvcp.Sweep.Keeps.{Kept}
use osvcp.AioServer.{Client, ClientState, reading, aio, writing, sendfile, System, Events}
use osvcp.AioServer.Serve.{check_aio}
use osvcp.AioServer.Serve.Keeps.{check_aio-Keeps, check_aio-req}
use osvcp.AioServer.Ledger.{Ledger, IsConsistent, IsReady, held, held_opt, held_block}
use osvcp.AioServer.Visit.Reading.{remove-Keeps, stay, is_reading-state, on_read-Keeps}
use osvcp.AioServer.Visit.Sending.{
  is_writing-state, is_sendfile-state, on_write-Keeps, on_transfer-Keeps,
}
use osvcp.AioServer.Visit.{
  is_reading, is_aio, is_writing, is_sendfile, remove, hung_up, ◌>=>◌, read_phase, write_phase,
  transfer_phase, aio_phase, phases, visit, write_watched,
}

module _ (l : Ledger) where
  abbrev Stays : ℕ → M (Option Client) → Type 0
  Stays n m = Moves l.P n (Kept IsReady) (held_opt l.block l.file) m

  and_left : (a b : Bool) → (a && b) ≡ true → a ≡ true
  and_left true b h = refl
  and_left false b h = h

  is_aio-state : (s : ClientState) → is_aio s ≡ true → s ≡ aio
  is_aio-state reading h = absurd (ground arith)
  is_aio-state aio h = refl
  is_aio-state writing h = absurd (ground arith)
  is_aio-state sendfile h = absurd (ground arith)

  -- The block for a state, and what follows for a client that was not removed.
  next-Keeps :
      (n : ℕ) (m : M (Option Client)) (f : Client → M (Option Client))
      → Stays n m
      → ((c : Client) → IsReady c → Stays (held l.block l.file c) (f c))
      → Stays n (m >=> f)
  next-Keeps n m f first next =
      bind-Moves l.P n (Kept IsReady) (held_opt l.block l.file) (Kept IsReady)
        (held_opt l.block l.file) m _ first
        λ r.
          elim r
            as (λ r.
              Kept IsReady r
              → Stays (held_opt l.block l.file r)
                  (elim r as (λ _. M (Option Client)) [ some c ↦ f c | none ↦ pure none ])) [
                    | some c ↦ next c
                    | none ↦
                        λ _. pure-Moves l.P 0 (Kept IsReady) (held_opt l.block l.file) none tt refl
                  ]

  read_phase-Keeps :
      (sys : System) (ev : Events) (c : Client)
      → IsReady c
      → Stays (held l.block l.file c) (read_phase sys ev c)
  read_phase-Keeps sys ev c q =
      if-Moves l.P _ (Kept IsReady) (held_opt l.block l.file) (is_reading c.state && ev.readable) _
        _
        (λ e.
          on_read-Keeps l sys ev.read c (is_reading-state l c.state (and_left _ _ e)) q.consistent)
        (λ _. stay l c q)

  write_phase-Keeps :
      (watched : Bool) (ev : Events) (c : Client)
      → IsReady c
      → Stays (held l.block l.file c) (write_phase watched ev c)
  write_phase-Keeps watched ev c q =
      if-Moves l.P _ (Kept IsReady) (held_opt l.block l.file) (is_writing c.state && watched) _ _
        (λ e. on_write-Keeps l ev.write c (is_writing-state l c.state (and_left _ _ e)) q)
        (λ _. stay l c q)

  transfer_phase-Keeps :
      (watched : Bool) (ev : Events) (c : Client)
      → IsReady c
      → Stays (held l.block l.file c) (transfer_phase watched ev c)
  transfer_phase-Keeps watched ev c q =
      if-Moves l.P _ (Kept IsReady) (held_opt l.block l.file) (is_sendfile c.state && watched) _ _
        (λ e. on_transfer-Keeps l ev.transfer c (is_sendfile-state l c.state (and_left _ _ e)) q)
        (λ _. stay l c q)

  aio_phase-Keeps :
      (sys : System) (ev : Events) (c : Client)
      → IsReady c
      → Moves l.P (held l.block l.file c) IsReady (held l.block l.file) (aio_phase sys ev c)
  aio_phase-Keeps sys ev c q =
      if-Moves l.P _ IsReady (held l.block l.file) (is_aio c.state) _ (pure c)
        (λ e k w u x r p.
          let s = is_aio-state c.state e in
          let (both, rest) =
            and-Moves l.P (held_block l.block c.resp + l.file) IsConsistent (λ d. d.req ≡ c.req)
              (held l.block l.file) (check_aio sys ev.aio c)
              (check_aio-Keeps l sys ev.aio c s q.consistent) (check_aio-req sys ev.aio c) k w u x r
              (rw s at p) in
          (record { consistent = both.0; room = rw both.1 q.room }, rest))
        (λ _. pure-Moves l.P _ IsReady (held l.block l.file) c q refl)

  pub visit-Keeps :
      (sys : System) (events : ℕ → Events) (c : Client)
      → IsReady c
      → Stays (held l.block l.file c) (visit sys events c)
  unfolding visit
  visit-Keeps sys events c q =
      let ev = events c.sock in
      let watched = ev.writable && write_watched c.state in
      if-Moves l.P _ (Kept IsReady) (held_opt l.block l.file)
        (ev.readable && not (is_reading c.state) && hung_up ev.peek) (remove c)
        (phases sys ev watched c) (λ _. remove-Keeps l c q.consistent)
        (λ _.
          bind-Moves l.P _ IsReady (held l.block l.file) (Kept IsReady) (held_opt l.block l.file)
            (aio_phase sys ev c) _ (aio_phase-Keeps sys ev c q)
            (λ d k.
              next-Keeps _ (read_phase sys ev d >=> write_phase watched ev)
                (transfer_phase watched ev)
                (next-Keeps _ (read_phase sys ev d) (write_phase watched ev)
                  (read_phase-Keeps sys ev d k) (write_phase-Keeps watched ev))
                (transfer_phase-Keeps watched ev)))
