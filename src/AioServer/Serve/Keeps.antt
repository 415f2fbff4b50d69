-- ===== src/AioServer/Serve/Keeps.antt =====
-- What `begin_file_serve` and `check_aio` of
-- exersises/concurrency/event-based-concurrency/exercise/aio-file-server.c leave to a client.
use osvcp.Prelude.{
  ℕ, ◌+◌, ◌≡◌, refl, inl, inr, not, ◌&&◌, Option, none, some, [], ◌∷◌, arith, Bytes, codes, take,
  leb, ltb, ◌==◌, Option-cases,
}
use osvcp.Cache.{Entry, cache_lookup, max_cache_file_size}
use osvcp.World.{M, ◌>>=◌, ◌>>◌, pure, send, malloc, free, opened, close, insert}
use osvcp.World.Ensures.{Ensures, pure-Ensures, bind-Ensures}
use osvcp.World.Moves.{
  Moves, Any, nothing, pure-Moves, bind-Moves, if-Moves, then-Moves, frame-Moves,
}
use osvcp.FileServer.Serve.{header, candidate, inside_root}
use osvcp.AioServer.{
  Client, reading, aio, writing, System, AioStatus, in_progress, completed, aio_failed,
}
use osvcp.AioServer.Serve.{
  sock_send, complain, is_empty, with_response, prepared, filled, start_aio, serve_small,
  serve_large, serve_open, not_servable, serve_disk, serve_hit, serve_path, begin_relative,
  begin_file_serve, free_block, store, check_aio,
}
use osvcp.AioServer.Ledger.{Ledger, IsConsistent, Fields, Progress, held, held_block}

module _ (l : Ledger) where
  -- The result is consistent, and holds what it took over.
  abbrev Fits : ℕ → M Client → Type 0
  Fits n m = Moves l.P n IsConsistent (held l.block l.file) m

  sock_send-Keeps : (fd : ℕ) (msg : Bytes) → Moves l.P 0 Any nothing (sock_send fd msg)
  unfolding sock_send
  sock_send-Keeps fd msg =
      then-Moves l.P 0 Any nothing (send fd msg) (λ _. pure tt) (l.on_send fd msg)
        (λ _. pure-Moves l.P 0 Any nothing tt tt refl)

  complain-Keeps :
      (c : Client) (msg : Bytes) → IsConsistent c → Fits (held l.block l.file c) (complain c msg)
  unfolding complain
  complain-Keeps c msg q =
      then-Moves l.P (held l.block l.file c) IsConsistent (held l.block l.file) _ (λ _. pure c)
        (sock_send-Keeps c.sock _)
        (λ _. pure-Moves l.P _ IsConsistent (held l.block l.file) c q refl)

  -- In STATE_READING without a block, a client holds nothing.
  abbrev IsIdle : Client → Type 0
  IsIdle c = (c.state ≡ reading) × (c.resp ≡ none)

  idle-IsConsistent : (c : Client) → IsIdle c → IsConsistent c
  idle-IsConsistent c i = record { fields = rw (i.0, i.1) tt; progress = rw i.0 tt }

  pub held-idle : (c : Client) → IsIdle c → held l.block l.file c ≡ 0
  held-idle c i = rw (i.0, i.1) refl

  complain_idle : (c : Client) (msg : Bytes) → IsIdle c → Fits 0 (complain c msg)
  complain_idle c msg i = rw (held-idle c i) at (complain-Keeps c msg (idle-IsConsistent c i))

  start_aio-Keeps :
      (sys : System) (c : Client) (path : Bytes) (size b : ℕ)
      → IsIdle c
      → Fits (l.block b + l.file) (start_aio sys c path size b)
  unfolding start_aio
  start_aio-Keeps sys c path size b i =
      if-Moves l.P _ IsConsistent (held l.block l.file) (sys.aio_read path) _ _
        (λ _.
          pure-Moves l.P _ IsConsistent (held l.block l.file) _
            (record { fields = tt; progress = omega arith }) (omega arith))
        (λ _.
          bind-Moves l.P _ Any (λ _. l.file) IsConsistent (held l.block l.file) (free b)
            (λ _.
              close
              >> complain (record (prepared sys c path size b) { resp = none })
                  (codes "aio_read failed"))
            (frame-Moves l.P l.file _ _ Any nothing _ _ (omega arith) (λ _. omega arith)
              (l.on_free b))
            (λ _ _.
              bind-Moves l.P _ Any nothing IsConsistent (held l.block l.file) close
                (λ _.
                  complain (record (prepared sys c path size b) { resp = none })
                    (codes "aio_read failed"))
                l.on_close
                (λ _ _.
                  complain_idle (record (prepared sys c path size b) { resp = none })
                    (codes "aio_read failed") (i.0, refl))))

  serve_small-Keeps :
      (sys : System) (c : Client) (path : Bytes) (size : ℕ)
      → IsIdle c
      → Fits l.file (serve_small sys c path size)
  unfolding serve_small
  serve_small-Keeps sys c path size i =
      bind-Moves l.P _ Any (λ o. held_block l.block o + l.file) IsConsistent (held l.block l.file)
        (malloc sys.files) _
        (frame-Moves l.P l.file _ _ Any (held_block l.block) _ _ (omega arith) (λ _. refl)
          (l.on_malloc sys.files))
        λ m _.
          elim m
            as (λ m. Fits (held_block l.block m + l.file) (elim m as (λ _. M Client) [
              | some block ↦ start_aio sys c path size block
              | none ↦ complain c (codes "out of memory") >>= λ done. close >>= λ _. pure done
            ])) [
              | some b ↦ start_aio-Keeps sys c path size b i
              | none ↦
                  bind-Moves l.P _ IsConsistent (λ d. held l.block l.file d + l.file) IsConsistent
                    (held l.block l.file) (complain c (codes "out of memory")) _
                    (frame-Moves l.P l.file 0 _ IsConsistent (held l.block l.file) _ _ refl
                      (λ _. refl) (complain_idle c (codes "out of memory") i))
                    (λ d q.
                      bind-Moves l.P _ Any (λ _. held l.block l.file d) IsConsistent
                        (held l.block l.file) close (λ _. pure d)
                        (frame-Moves l.P (held l.block l.file d) _ _ Any nothing _ _ (omega arith)
                          (λ _. omega arith) l.on_close)
                        (λ _ _. pure-Moves l.P _ IsConsistent (held l.block l.file) d q refl))
            ]

  serve_open-Keeps :
      (sys : System) (c : Client) (path : Bytes) (size : ℕ)
      → IsIdle c
      → Fits l.file (serve_open sys c path size)
  unfolding serve_open serve_large
  serve_open-Keeps sys c path size i =
      if-Moves l.P _ IsConsistent (held l.block l.file) (ltb max_cache_file_size size) _ _
        (λ e.
          then-Moves l.P _ IsConsistent (held l.block l.file) (sock_send c.sock (header size)) _
            (sock_send-Keeps c.sock (header size))
            (λ _.
              pure-Moves l.P _ IsConsistent (held l.block l.file) _
                (record { fields = rw i.1 tt; progress = ground arith }) (rw i.1 (omega arith))))
        (λ _. serve_small-Keeps sys c path size i)

  serve_disk-Keeps :
      (sys : System) (c : Client) (path : Bytes) → IsIdle c → Fits 0 (serve_disk sys c path)
  unfolding serve_disk
  serve_disk-Keeps sys c path i = elim (Option-cases (sys.files.stat path)) [
    | inl e ↦ rw (e, serve_disk) (complain_idle c (not_servable sys.stale_regular) i)
    | inr (st, e) ↦
        rw (e, serve_disk)
          (if-Moves l.P 0 IsConsistent (held l.block l.file) (not st.regular) _ _
            (λ _. complain_idle c (not_servable st.regular) i)
            (λ _.
              if-Moves l.P 0 IsConsistent (held l.block l.file) (not (sys.files.open_read path)) _ _
                (λ _. complain_idle c (codes "open failed") i)
                (λ _.
                  bind-Moves l.P 0 Any (λ _. l.file) IsConsistent (held l.block l.file) opened _
                    l.on_open (λ _ _. serve_open-Keeps sys c path st.size i))))
  ]

  serve_hit-Keeps :
      (sys : System) (c : Client) (path : Bytes) (e : Entry)
      → IsIdle c
      → Fits 0 (serve_hit sys c path e)
  unfolding serve_hit
  serve_hit-Keeps sys c path e i =
      bind-Moves l.P 0 Any (held_block l.block) IsConsistent (held l.block l.file)
        (malloc sys.files) _ (l.on_malloc sys.files)
        λ m _.
          elim m
            as (λ m. Fits (held_block l.block m) (elim m as (λ _. M Client) [
              | some block ↦
                  pure (record (with_response c block (take e.resp_size e.resp) e.resp_size) {
                    state = writing;
                  })
              | none ↦ serve_disk sys c path
            ])) [
              | some b ↦
                  pure-Moves l.P _ IsConsistent (held l.block l.file) _
                    (record { fields = tt; progress = omega arith }) (omega arith)
              | none ↦ serve_disk-Keeps sys c path i
            ]

  serve_path-Keeps :
      (sys : System) (c : Client) (path : Bytes) → IsIdle c → Fits 0 (serve_path sys c path)
  unfolding serve_path
  serve_path-Keeps sys c path i k w = elim (Option-cases (cache_lookup path w.cache)) [
    | inl e ↦ rw (e, serve_path) (serve_disk-Keeps sys _ path i k w)
    | inr (entry, e) ↦ rw (e, serve_path) (serve_hit-Keeps sys _ path entry i k w)
  ]

  begin_relative-Keeps :
      (sys : System) (c : Client) (name : Bytes) → IsIdle c → Fits 0 (begin_relative sys c name)
  unfolding begin_relative
  begin_relative-Keeps sys c name i =
      elim (Option-cases (sys.files.realpath (candidate sys.files.docroot name))) [
        | inl e ↦ rw (e, begin_relative) (complain_idle c (codes "not found") i)
        | inr (path, e) ↦
            rw (e, begin_relative)
              (if-Moves l.P 0 IsConsistent (held l.block l.file)
                (inside_root sys.files.docroot path) _ _ (λ _. serve_path-Keeps sys c path i)
                (λ _. complain_idle c (codes "access denied") i))
      ]

  pub begin_file_serve-Keeps :
      (sys : System) (c : Client) (name : Bytes) → IsIdle c → Fits 0 (begin_file_serve sys c name)
  unfolding begin_file_serve
  begin_file_serve-Keeps sys c [] i = complain_idle c (codes "empty filename") i
  begin_file_serve-Keeps sys c (x ∷ name) i =
      if-Moves l.P 0 IsConsistent (held l.block l.file) (x == b'/') _ _
        (λ _. complain_idle c (codes "absolute paths not allowed") i)
        (λ _. begin_relative-Keeps sys c (x ∷ name) i)

  pub free_block-Keeps :
      (b : Option ℕ) → Moves l.P (held_block l.block b) Any nothing (free_block b)
  free_block-Keeps none = pure-Moves l.P 0 Any nothing tt tt refl
  free_block-Keeps (some b) = l.on_free b

  store-Keeps : (sys : System) (c : Client) → Moves l.P 0 Any nothing (store sys c)
  unfolding store
  store-Keeps sys c =
      if-Moves l.P 0 Any nothing
        (leb c.resp_size (max_cache_file_size + 64) && not (is_empty c.cache_key)) _ _
        (λ _.
          bind-Moves l.P 0 Any (held_block l.block) Any nothing (malloc sys.files) _
            (l.on_malloc sys.files)
            λ m _.
              elim m
                as (λ m.
                  Moves l.P (held_block l.block m) Any nothing (elim m as (λ _. M (Unit {0})) [
                    | some b ↦ insert c.cache_key b (take c.resp_size c.body) c.resp_size
                    | none ↦ pure tt
                  ])) [
                    | some b ↦ l.on_insert c.cache_key b (take c.resp_size c.body) c.resp_size
                    | none ↦ pure-Moves l.P 0 Any nothing tt tt refl
                  ])
        (λ _. pure-Moves l.P 0 Any nothing tt tt refl)

  -- In STATE_AIO a client has a block, and its file is open.
  pub check_aio-Keeps :
      (sys : System) (a : AioStatus) (c : Client)
      → c.state ≡ aio
      → IsConsistent c
      → Fits (held_block l.block c.resp + l.file) (check_aio sys a c)
  unfolding check_aio
  check_aio-Keeps sys in_progress c e q =
      pure-Moves l.P _ IsConsistent (held l.block l.file) c q (rw e refl)
  check_aio-Keeps sys aio_failed c e q =
      bind-Moves l.P _ Any (λ _. held_block l.block c.resp) IsConsistent (held l.block l.file) close
        _
        (frame-Moves l.P (held_block l.block c.resp) _ _ Any nothing _ _ (omega arith)
          (λ _. omega arith) l.on_close)
        (λ _ _.
          bind-Moves l.P _ Any nothing IsConsistent (held l.block l.file) (free_block c.resp)
            (λ _.
              complain (record c { file_fd = none; resp = none; state = reading })
                (codes "read error"))
            (free_block-Keeps c.resp)
            (λ _ _.
              complain_idle (record c { file_fd = none; resp = none; state = reading })
                (codes "read error") (refl, refl)))
  check_aio-Keeps sys (completed bytes) c e q =
      bind-Moves l.P _ Any (λ _. held_block l.block c.resp) IsConsistent (held l.block l.file) close
        _
        (frame-Moves l.P (held_block l.block c.resp) _ _ Any nothing _ _ (omega arith)
          (λ _. omega arith) l.on_close)
        (λ _ _.
          then-Moves l.P _ IsConsistent (held l.block l.file) (store sys (filled c bytes)) _
            (store-Keeps sys (filled c bytes))
            (λ _.
              pure-Moves l.P _ IsConsistent (held l.block l.file)
                (record (filled c bytes) { state = writing })
                (record { fields = Fields-writing c e q.fields; progress = sent c e q.progress })
                (omega arith)))
    where
      Fields-writing :
          (c : Client)
          → c.state ≡ aio
          → Fields c.state c.resp c.sf_fd
          → Fields writing c.resp c.sf_fd
      Fields-writing c e f = elim (Option-cases c.resp) [
        | inl n ↦ absurd (rw (e, n) at f)
        | inr (b, s) ↦ rw s tt
      ]

      sent : (c : Client) → c.state ≡ aio → Progress c.state c → Progress writing c
      sent c e p = rw e at p

-- The buffer is not touched.
abbrev SameReq : Client → Client → Type 0
SameReq c d = d.req ≡ c.req

complain-SameReq : (c d : Client) (msg : Bytes) → SameReq c d → Ensures (SameReq c) (complain d msg)
unfolding complain
complain-SameReq c d msg e =
    bind-Ensures Any (SameReq c) (sock_send d.sock _) (λ _. pure d) (λ w u x h. tt)
      (λ _ _. pure-Ensures (SameReq c) d e)

pub check_aio-req :
    (sys : System) (a : AioStatus) (c : Client) → Ensures (λ d. d.req ≡ c.req) (check_aio sys a c)
unfolding check_aio
check_aio-req sys in_progress c = pure-Ensures (SameReq c) c refl
check_aio-req sys aio_failed c =
    bind-Ensures Any (SameReq c) close _ (λ w u x h. tt)
      (λ _ _.
        bind-Ensures Any (SameReq c) (free_block c.resp) _ (λ w u x h. tt)
          (λ _ _.
            complain-SameReq c (record c { file_fd = none; resp = none; state = reading })
              (codes "read error") refl))
check_aio-req sys (completed bytes) c =
    bind-Ensures Any (SameReq c) close _ (λ w u x h. tt)
      (λ _ _.
        bind-Ensures Any (SameReq c) (store sys (filled c bytes)) _ (λ w u x h. tt)
          (λ _ _. pure-Ensures (SameReq c) (record (filled c bytes) { state = writing }) refl))
