-- ===== src/AioServer/Visit/Sending.antt =====
-- What the blocks for STATE_WRITING and STATE_SENDFILE of
-- exersises/concurrency/event-based-concurrency/exercise/aio-file-server.c leave to a client.
use osvcp.Prelude.{
  ℕ, ◌+◌, ◌-◌, ◌≤◌, ◌≡◌, refl, inl, inr, true, Option, none, some, [], arith, Bytes, length,
  length-take_le, length-drop, drop, take, ◌==◌, Option-cases,
}
use osvcp.Wire.{WriteResult, wrote, interrupted, unready}
use osvcp.Wire
use osvcp.World.{M, pure, close}
use osvcp.World.Moves.{
  Moves, Any, nothing, pure-Moves, bind-Moves, if-Moves, then-Moves, frame-Moves,
}
use osvcp.Sweep.Keeps.{Kept}
use osvcp.AioServer.{
  Client, ClientState, reading, aio, writing, sendfile, SendfileResult, moved, full,
  sendfile_failed,
}
use osvcp.AioServer.Serve.{free_block}
use osvcp.AioServer.Serve.Keeps.{free_block-Keeps}
use osvcp.AioServer.Ledger.{Ledger, IsConsistent, IsReady, held, held_opt}
use osvcp.AioServer.Visit.Reading.{remove-Keeps, stay}
use osvcp.AioServer.Visit.{
  is_writing, is_sendfile, emit, after_write, on_write, after_transfer, on_transfer,
}

module _ (l : Ledger) where
  abbrev Stays : ℕ → M (Option Client) → Type 0
  Stays n m = Moves l.P n (Kept IsReady) (held_opt l.block l.file) m

  pub is_writing-state : (s : ClientState) → is_writing s ≡ true → s ≡ writing
  is_writing-state reading h = absurd (ground arith)
  is_writing-state aio h = absurd (ground arith)
  is_writing-state writing h = refl
  is_writing-state sendfile h = absurd (ground arith)

  pub is_sendfile-state : (s : ClientState) → is_sendfile s ≡ true → s ≡ sendfile
  is_sendfile-state reading h = absurd (ground arith)
  is_sendfile-state aio h = absurd (ground arith)
  is_sendfile-state writing h = absurd (ground arith)
  is_sendfile-state sendfile h = refl

  after_write-Keeps :
      (c : Client) (bytes : Bytes)
      → c.state ≡ writing
      → c.resp_sent + length bytes ≤ c.resp_size
      → IsReady c
      → Stays (held l.block l.file c) (after_write c bytes)
  unfolding after_write
  after_write-Keeps c bytes e fits q =
      let sent = record c { resp_sent = c.resp_sent + length bytes } in
      let done = record sent { resp = none; state = reading } in
      then-Moves l.P _ (Kept IsReady) (held_opt l.block l.file) (emit c.sock bytes) _
        (l.on_emit c.sock bytes)
        (λ _.
          if-Moves l.P _ (Kept IsReady) (held_opt l.block l.file) (sent.resp_sent == sent.resp_size)
            _ (pure (some sent))
            (λ _.
              bind-Moves l.P _ Any nothing (Kept IsReady) (held_opt l.block l.file)
                (free_block c.resp) (λ _. pure (some done))
                (rw e (
                  frame-Moves l.P 0 _ _ Any nothing _ _ (omega arith) (λ _. omega arith)
                    (free_block-Keeps l c.resp)))
                (λ _ _.
                  stay l done
                    (record { consistent = record { fields = tt; progress = tt }; room = q.room })))
            (λ _. stay l sent (record {
              consistent = record { fields = q.consistent.fields; progress = rw e fits };
              room = q.room;
            })))

  -- The bytes of a write end where the response does.
  chunk_le :
      (n : ℕ) (c : Client)
      → c.resp_sent ≤ c.resp_size
      → c.resp_sent + length (take n (drop c.resp_sent (take c.resp_size c.body))) ≤ c.resp_size
  chunk_le n c h =
      let whole = take c.resp_size c.body in
      omega (
        arith,
        h,
        (length-take_le n (drop c.resp_sent whole)).1,
        length-drop c.resp_sent whole,
        (length-take_le c.resp_size c.body).0,
      )

  pub on_write-Keeps :
      (r : WriteResult) (c : Client)
      → c.state ≡ writing
      → IsReady c
      → Stays (held l.block l.file c) (on_write r c)
  unfolding on_write
  on_write-Keeps (wrote n) c e q =
      after_write-Keeps c _ e (chunk_le n c (rw e at q.consistent.progress)) q
  on_write-Keeps unready c e q =
      after_write-Keeps c [] e (omega (arith, (rw e at q.consistent.progress))) q
  on_write-Keeps interrupted c e q = remove-Keeps l c q.consistent
  on_write-Keeps Wire.failed c e q = remove-Keeps l c q.consistent

  after_transfer-Keeps :
      (c : Client) (bytes : Bytes)
      → c.state ≡ sendfile
      → IsReady c
      → Stays (held l.block l.file c) (after_transfer c bytes)
  unfolding after_transfer
  after_transfer-Keeps c bytes e q =
      let sent = record c {
        sf_offset = c.sf_offset + length bytes;
        sf_remaining = c.sf_remaining - length bytes;
      } in
      let done = record sent { sf_fd = none; state = reading } in
      let no_block : c.resp ≡ none = sendfile-resp c e q.consistent in
      then-Moves l.P _ (Kept IsReady) (held_opt l.block l.file) (emit c.sock bytes) _
        (l.on_emit c.sock bytes)
        (λ _.
          if-Moves l.P _ (Kept IsReady) (held_opt l.block l.file) (sent.sf_remaining == 0) _
            (pure (some sent))
            (λ _.
              bind-Moves l.P _ Any nothing (Kept IsReady) (held_opt l.block l.file) close
                (λ _. pure (some done))
                (rw (e, no_block)
                  (frame-Moves l.P 0 _ _ Any nothing _ _ (omega arith) (λ _. omega arith)
                    l.on_close))
                (λ _ _.
                  pure-Moves l.P 0 (Kept IsReady) (held_opt l.block l.file) (some done)
                    (record {
                      consistent = record { fields = rw no_block tt; progress = tt };
                      room = q.room;
                    })
                    (rw no_block refl)))
            (λ more. stay l sent (record {
              consistent = record { fields = q.consistent.fields; progress = rw e (ground arith) };
              room = q.room;
            })))
    where
      sendfile-resp : (c : Client) → c.state ≡ sendfile → IsConsistent c → c.resp ≡ none
      sendfile-resp c e q = elim (Option-cases c.resp) [
        | inl n ↦ n
        | inr (b, s) ↦ absurd (let f = q.fields in rw (e, s) at f)
      ]

  pub on_transfer-Keeps :
      (r : SendfileResult) (c : Client)
      → c.state ≡ sendfile
      → IsReady c
      → Stays (held l.block l.file c) (on_transfer r c)
  unfolding on_transfer
  on_transfer-Keeps (moved bytes) c e q = after_transfer-Keeps c _ e q
  on_transfer-Keeps full c e q = after_transfer-Keeps c [] e q
  on_transfer-Keeps sendfile_failed c e q = remove-Keeps l c q.consistent
