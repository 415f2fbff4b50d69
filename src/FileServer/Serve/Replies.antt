-- ===== src/FileServer/Serve/Replies.antt =====
-- What a client gets for each request, and that the cache cannot be told from the disk.
use osvcp.Prelude.{
  ℕ, ◌+◌, ◌≤◌, ◌≡◌, refl, ap, inl, inr, Bool, true, false, not, none, some, [], ◌∷◌, ◌++◌, arith,
  Bytes, length, length-append, take, take_of_length-le, ◌==◌, leb, if◌then◌else◌, Bool-cases,
  Option-cases, ==_iff,
}
use osvcp.Wire.Delivery.{grants}
use osvcp.Cache.{Entry, cache_lookup, max_cache_file_size}
use osvcp.World.{World, Stat, Files, Answer, free, opened, close, send, insert, pure, ◌>>◌}
use osvcp.FileServer.Serve.{
  Reason, empty_filename, absolute_path, not_found, access_denied, stat_failed, not_regular,
  open_failed, error_text, refuse, header, stream, stream_chunks, send_whole, fill_block,
  serve_opened, serve_from_disk, serve_resolved, serve_relative, serve_file, candidate, inside_root,
}
use osvcp.FileServer.Serve.Steps.{
  serve_file_slash, serve_file_relative, taken_block, refused_block, serve_opened_large,
  serve_opened_taken, serve_opened_refused,
}
use osvcp.FileServer.Serve.Delivers.{
  Delivers, send-Delivers, Delivers-then, Delivers-quiet, until_end, stream_chunks-Delivers,
}
use osvcp.FileServer.Serve.Coherence.{
  Servable, IsStable, Reflects, response_text, IsCoherent, lookup-Reflects, whole-content,
}

-- The reply to a request by the protocol, from the files alone.
unfoldable pub file_reply : Files → (Bytes → Bytes) → Bytes → Bytes
file_reply fs content p = elim (fs.stat p) [
  | none ↦ error_text stat_failed
  | some st ↦
      if not st.regular
      then error_text not_regular
      else if not (fs.open_read p)
      then error_text open_failed
      else response_text (content p)
]

unfoldable pub reply : Files → (Bytes → Bytes) → Bytes → Bytes
reply fs content [] = error_text empty_filename
reply fs content (c ∷ name) =
    if c == b'/'
    then error_text absolute_path
    else elim (fs.realpath (candidate fs.docroot (c ∷ name))) [
      | none ↦ error_text not_found
      | some p ↦
          if inside_root fs.docroot p then file_reply fs content p else error_text access_denied
    ]

-- A step that starts where another world has the same sockets.
Delivers-from :
    (fd : ℕ) (b : Bytes) (w u : World) (r : Answer Bool × World)
    → u.out ≡ w.out
    → u.writes ≡ w.writes
    → Delivers fd b u r
    → Delivers fd b w r
Delivers-from fd b w u r o ws d = record {
  returns = d.returns;
  sent = λ socket. rw (← o) (d.sent socket);
  left = rw (← ws) d.left;
}

refuse-Delivers :
    (fd : ℕ) (why : Reason) (w : World)
    → length (error_text why) ≤ grants w.writes
    → Delivers fd (error_text why) w (refuse fd why w)
unfolding refuse
refuse-Delivers fd why w h =
    Delivers-quiet fd (error_text why) w (send fd (error_text why)) (λ _. pure true)
      (send-Delivers fd (error_text why) w h) refl refl refl

module _ (fs : Files) (content : Bytes → Bytes) (stable : IsStable fs content) (fd : ℕ) where
  module _ (p : Bytes) (st : Stat) (sv : Servable fs p st) where
    stream-Delivers :
        (w : World)
        → length (header st.size ++ content p) ≤ grants w.writes
        → Delivers fd (header st.size ++ content p) w (stream fs fd p st.size w)
    unfolding stream
    stream-Delivers w h =
        let room = length-append (header st.size) (content p) in
        let head = send-Delivers fd (header st.size) w (omega (arith, room)) in
        rw (← stable.reads p st sv) (
          Delivers-then fd (header st.size) (until_end (fs.reads p)) w (send fd (header st.size))
            (stream_chunks fd (fs.reads p)) (close >> pure false) head
            (stream_chunks-Delivers fd (fs.reads p) (send fd (header st.size) w).1
              (rw (stable.reads p st sv) (omega (arith, room, head.left)))))

    send_whole-Delivers :
        (block : ℕ) (w : World)
        → length (header st.size ++ content p) ≤ grants w.writes
        → Delivers fd
            (header st.size ++ content p)
            w
            (send_whole fs fd p st.size block (content p) w)
    unfolding send_whole close insert
    send_whole-Delivers block w h =
        let resp = header st.size ++ content p in
        let n = length (header st.size) + st.size in
        let fits : length resp ≤ n =
          omega (arith, length-append (header st.size) (content p), stable.size p st sv) in
        rw (take_of_length-le n resp fits) (
          Delivers-from fd resp w (close w).1 _ refl refl (
            Delivers-quiet fd resp (close w).1 (send fd resp)
              (λ sent.
                if sent then insert p block resp n >> pure true else free block >> pure false)
              (send-Delivers fd resp (close w).1 h) refl refl refl))

    fill_block-Delivers :
        (block : ℕ) (w : World)
        → length (header st.size ++ content p) ≤ grants w.writes
        → Delivers fd (header st.size ++ content p) w (fill_block fs fd p st.size block w)
    unfolding fill_block
    fill_block-Delivers block w h =
        rw
          (
            whole-content fs content stable p st sv,
            fill_block,
            (==_iff (length (content p)) st.size).1 (stable.size p st sv),
          )
          (send_whole-Delivers block w h)

    serve_opened-Delivers :
        (w : World)
        → length (header st.size ++ content p) ≤ grants w.writes
        → Delivers fd (header st.size ++ content p) w (serve_opened fs fd p st.size w)
    serve_opened-Delivers w h = elim (Bool-cases (leb st.size max_cache_file_size)) [
      | inr large ↦ rw (serve_opened_large fs fd p st.size w large) (stream-Delivers w h)
      | inl small ↦ elim (Bool-cases (fs.malloc w.mallocs)) [
        | inl taken ↦ rw (serve_opened_taken fs fd p st.size w small taken) (
            Delivers-from fd _ w (taken_block w) _ refl refl
              (fill_block-Delivers w.mallocs (taken_block w) h))
        | inr refused ↦ rw (serve_opened_refused fs fd p st.size w small refused) (
            Delivers-from fd _ w (refused_block w) _ refl refl
              (stream-Delivers (refused_block w) h))
      ]
    ]

  serve_from_disk-Delivers :
      (p : Bytes) (w : World)
      → length (file_reply fs content p) ≤ grants w.writes
      → Delivers fd (file_reply fs content p) w (serve_from_disk fs fd p w)
  unfolding serve_from_disk file_reply opened
  serve_from_disk-Delivers p w h = elim (Option-cases (fs.stat p)) [
    | inl e ↦
        rw (e, serve_from_disk, file_reply)
          (refuse-Delivers fd stat_failed w (rw (e, file_reply) at h))
    | inr (st, e) ↦ elim (Bool-cases st.regular) [
      | inr odd ↦
          rw (e, serve_from_disk, file_reply, odd)
            (refuse-Delivers fd not_regular w (rw (e, file_reply, odd) at h))
      | inl regular ↦ elim (Bool-cases (fs.open_read p)) [
        | inr closed ↦
            rw (e, serve_from_disk, file_reply, regular, closed)
              (refuse-Delivers fd open_failed w (rw (e, file_reply, regular, closed) at h))
        | inl readable ↦
            let sv : Servable fs p st = record {
              stat = e;
              regular = regular;
              open_read = readable;
            } in
            let fits = rw (e, file_reply, regular, readable) at h in
            rw (e, serve_from_disk, file_reply, regular, readable, stable.size p st sv)
              (Delivers-from fd _ w (opened w).1 _ refl refl
                (serve_opened-Delivers p st sv (opened w).1 (rw (← stable.size p st sv) fits)))
      ]
    ]
  ]

  file_reply_served :
      (p : Bytes) (st : Stat)
      → Servable fs p st
      → file_reply fs content p ≡ response_text (content p)
  unfolding file_reply
  file_reply_served p st sv = ground (arith, sv.stat, sv.regular, sv.open_read)

  hit-Delivers :
      (p : Bytes) (e : Entry) (w : World)
      → Reflects fs content e
      → e.key ≡ p
      → length (file_reply fs content p) ≤ grants w.writes
      → Delivers fd (file_reply fs content p) w (send fd (take e.resp_size e.resp) w)
  hit-Delivers p e w r same h =
      let (st, sv) = r.served in
      let text = ap content same in
      let all : take e.resp_size e.resp ≡ file_reply fs content p =
        rw
          (
            take_of_length-le e.resp_size e.resp (omega (arith, r.resp_size)),
            r.resp,
            ← same,
            file_reply_served e.key st sv,
          )
          refl in
      rw all (send-Delivers fd (file_reply fs content p) w h)

  serve_relative-Delivers :
      (c : ℕ) (name : Bytes) (w : World)
      → IsCoherent fs content w.cache
      → (c == b'/') ≡ false
      → length (reply fs content (c ∷ name)) ≤ grants w.writes
      → Delivers fd (reply fs content (c ∷ name)) w (serve_relative fs fd (c ∷ name) w)
  unfolding serve_relative serve_resolved reply
  serve_relative-Delivers c name w k rel h =
      elim (Option-cases (fs.realpath (candidate fs.docroot (c ∷ name)))) [
        | inl e ↦
            rw (rel, reply, e, serve_relative)
              (refuse-Delivers fd not_found w (rw (rel, reply, e) at h))
        | inr (p, e) ↦ elim (Bool-cases (inside_root fs.docroot p)) [
          | inr outside ↦
              rw (rel, reply, e, serve_relative, outside)
                (refuse-Delivers fd access_denied w (rw (rel, reply, e, outside) at h))
          | inl inside ↦
              let fits = rw (rel, reply, e, inside) at h in
              rw (rel, reply, e, serve_relative, inside)
                (elim (Option-cases (cache_lookup p w.cache)) [
                  | inl miss ↦ rw (miss, serve_resolved) (serve_from_disk-Delivers p w fits)
                  | inr (hit, cached) ↦
                      let (r, same) = lookup-Reflects fs content p w.cache hit cached k in
                      rw (cached, serve_resolved) (hit-Delivers p hit w r same fits)
                ])
        ]
      ]

  reply_slash :
      (c : ℕ) (name : Bytes)
      → (c == b'/') ≡ true
      → reply fs content (c ∷ name) ≡ error_text absolute_path
  unfolding reply
  reply_slash c name h = rw h refl

  empty-Delivers :
      (w : World)
      → length (reply fs content []) ≤ grants w.writes
      → Delivers fd (reply fs content []) w (serve_file fs fd [] w)
  unfolding reply serve_file
  empty-Delivers w h = refuse-Delivers fd empty_filename w h

  -- A request is answered by the protocol, whether from the cache or from disk: with files that
  -- keep still, a cache that holds what they would give, and a socket that takes at least a byte in
  -- as many writes as the reply has bytes, `serve_file` returns 0, the client receives exactly the
  -- reply that the files determine, and no other socket receives anything.
  pub serve_file-reply :
      (name : Bytes) (w : World)
      → IsCoherent fs content w.cache
      → length (reply fs content name) ≤ grants w.writes
      → Delivers fd (reply fs content name) w (serve_file fs fd name w)
  serve_file-reply [] w k h = empty-Delivers w h
  serve_file-reply (c ∷ name) w k h = elim (Bool-cases (c == b'/')) [
    | inl slash ↦
        rw (serve_file_slash fs fd w c name slash, reply_slash c name slash)
          (refuse-Delivers fd absolute_path w (rw (reply_slash c name slash) at h))
    | inr other ↦
        rw (serve_file_relative fs fd w c name other) (serve_relative-Delivers c name w k other h)
  ]
