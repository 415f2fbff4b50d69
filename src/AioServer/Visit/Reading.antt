-- ===== src/AioServer/Visit/Reading.antt =====
-- What `remove_client` and the block for STATE_READING of
-- exersises/concurrency/event-based-concurrency/exercise/aio-file-server.c leave to a client.
use osvcp.Prelude.{
  ℕ, zero, suc, ◌-◌, ◌≡◌, refl, sym, subst, inl, inr, true, Option, none, some, [], ◌∷◌, ◌++◌,
  arith, Bytes, length, leb, Option-cases, if◌then◌else◌,
}
use osvcp.Lines.{split_line, request_name}
use osvcp.World.{M, ◌>>=◌, pure}
use osvcp.World.Moves.{Moves, Any, nothing, pure-Moves, bind-Moves, if-Moves, frame-Moves}
use osvcp.Sweep.Keeps.{Kept}
use osvcp.FileServer.Requests.{req_buf_size}
use osvcp.AioServer.{
  Client, ClientState, reading, aio, writing, sendfile, System, ReadResult, got, failed,
}
use osvcp.AioServer.Serve.{begin_file_serve, free_block}
use osvcp.AioServer.Serve.Keeps.{begin_file_serve-Keeps, held-idle, free_block-Keeps}
use osvcp.AioServer.Ledger.{
  Ledger, IsConsistent, IsReady, Fields, Progress, held, held_opt, held_block, held_file,
}
use osvcp.AioServer.Visit.{
  is_reading, close_files, remove, take_lines, check_room, on_bytes, on_read,
}

module _ (l : Ledger) where
  abbrev Fits : ℕ → M Client → Type 0
  Fits n m = Moves l.P n IsConsistent (held l.block l.file) m

  -- The client that is kept is ready for the next visit, and nothing else is left behind.
  abbrev Stays : ℕ → M (Option Client) → Type 0
  Stays n m = Moves l.P n (Kept IsReady) (held_opt l.block l.file) m

  close_files-Keeps :
      (s : ClientState) (r : Option ℕ) (fd : Option Bytes)
      → Fields s r fd
      → Moves l.P (held_file l.file s) Any nothing (close_files s fd)
  close_files-Keeps reading r fd f = pure-Moves l.P 0 Any nothing tt tt refl
  close_files-Keeps aio r fd f = l.on_close
  close_files-Keeps writing r fd f = pure-Moves l.P 0 Any nothing tt tt refl
  close_files-Keeps sendfile none (some p) f = l.on_close
  close_files-Keeps sendfile none none f = absurd f
  close_files-Keeps sendfile (some b) fd f = absurd f

  pub remove-Keeps : (c : Client) → IsConsistent c → Stays (held l.block l.file c) (remove c)
  unfolding remove
  remove-Keeps c q =
      bind-Moves l.P _ Any (λ _. held_block l.block c.resp) (Kept IsReady) (held_opt l.block l.file)
        (close_files c.state c.sf_fd) _
        (frame-Moves l.P (held_block l.block c.resp) _ _ Any nothing _ _ (omega arith)
          (λ _. omega arith) (close_files-Keeps c.state c.resp c.sf_fd q.fields))
        (λ _ _.
          bind-Moves l.P _ Any nothing (Kept IsReady) (held_opt l.block l.file) (free_block c.resp)
            _ (free_block-Keeps l c.resp)
            (λ _ _. pure-Moves l.P 0 (Kept IsReady) (held_opt l.block l.file) none tt refl))

  pub stay : (c : Client) → IsReady c → Stays (held l.block l.file c) (pure (some c))
  stay c q = pure-Moves l.P _ (Kept IsReady) (held_opt l.block l.file) (some c) q refl

  -- A client in STATE_READING holds nothing.
  reading_idle :
      (c : Client) → c.state ≡ reading → IsConsistent c → (c.state ≡ reading) × (c.resp ≡ none)
  reading_idle c e q = elim (Option-cases c.resp) [
    | inl n ↦ (e, n)
    | inr (b, s) ↦ absurd (let f = q.fields in rw (e, s) at f)
  ]

  pub is_reading-state : (s : ClientState) → is_reading s ≡ true → s ≡ reading
  is_reading-state reading h = refl
  is_reading-state aio h = absurd (ground arith)
  is_reading-state writing h = absurd (ground arith)
  is_reading-state sendfile h = absurd (ground arith)

  with_req : (c : Client) (req : Bytes) → IsConsistent c → IsConsistent (record c { req = req })
  with_req c req q = record { fields = q.fields; progress = same c.state q.progress }
    where
      same : (s : ClientState) → Progress s c → Progress s (record c { req = req })
      same reading p = tt
      same aio p = p
      same writing p = p
      same sendfile p = p

  take_lines-Keeps :
      (fuel : ℕ) (sys : System) (c : Client)
      → c.state ≡ reading
      → IsConsistent c
      → Fits (held l.block l.file c) (take_lines fuel sys c)
  unfolding take_lines
  take_lines-Keeps zero sys c e q = pure-Moves l.P _ IsConsistent (held l.block l.file) c q refl
  take_lines-Keeps (suc fuel) sys c e q = elim (Option-cases (split_line c.req)) [
    | inl n ↦ rw (n, take_lines) (pure-Moves l.P _ IsConsistent (held l.block l.file) c q refl)
    | inr ((line, rest), n) ↦
        rw (n, take_lines)
          (subst
            (λ n. Fits n (
              begin_file_serve sys c (request_name line) >>= λ served.
              let shifted = record served { req = rest } in
              if is_reading served.state then take_lines fuel sys shifted else pure shifted))
            (sym (held-idle l c (reading_idle c e q)))
            (bind-Moves l.P 0 IsConsistent (held l.block l.file) IsConsistent (held l.block l.file)
              (begin_file_serve sys c (request_name line)) _
              (begin_file_serve-Keeps l sys c (request_name line) (reading_idle c e q))
              (λ served k.
                let shifted = record served { req = rest } in
                if-Moves l.P _ IsConsistent (held l.block l.file) (is_reading served.state)
                  (take_lines fuel sys shifted) (pure shifted)
                  (λ r.
                    take_lines-Keeps fuel sys shifted (is_reading-state served.state r)
                      (with_req served rest k))
                  (λ _.
                    pure-Moves l.P _ IsConsistent (held l.block l.file) shifted
                      (with_req served rest k) refl))))
  ]

  check_room-Keeps : (c : Client) → IsConsistent c → Stays (held l.block l.file c) (check_room c)
  unfolding check_room
  check_room-Keeps c q =
      if-Moves l.P _ (Kept IsReady) (held_opt l.block l.file)
        (leb (req_buf_size - 1) (length c.req)) _ _ (λ _. remove-Keeps c q)
        (λ e. stay c (record { consistent = q; room = ground arith }))

  on_bytes-Keeps :
      (sys : System) (c : Client) (bytes : Bytes)
      → c.state ≡ reading
      → IsConsistent c
      → Stays (held l.block l.file c) (on_bytes sys c bytes)
  unfolding on_bytes
  on_bytes-Keeps sys c [] e q = remove-Keeps c q
  on_bytes-Keeps sys c (y ∷ bytes) e q =
      let more = record c { req = c.req ++ (y ∷ bytes) } in
      bind-Moves l.P _ IsConsistent (held l.block l.file) (Kept IsReady) (held_opt l.block l.file)
        (take_lines (suc (length more.req)) sys more) check_room
        (take_lines-Keeps (suc (length more.req)) sys more e (with_req c more.req q))
        check_room-Keeps

  pub on_read-Keeps :
      (sys : System) (r : ReadResult) (c : Client)
      → c.state ≡ reading
      → IsConsistent c
      → Stays (held l.block l.file c) (on_read sys r c)
  unfolding on_read
  on_read-Keeps sys failed c e q = remove-Keeps c q
  on_read-Keeps sys (got bytes) c e q = on_bytes-Keeps sys c _ e q
