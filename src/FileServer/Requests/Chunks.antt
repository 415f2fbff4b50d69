-- ===== src/FileServer/Requests/Chunks.antt =====
-- How a stream is cut into reads does not matter, and what stays in the buffer.
use osvcp.Prelude.{ℕ, ◌-◌, ◌<◌, ◌≡◌, ◌∙◌, ap, sym, false, List, [], ◌∷◌, ◌++◌, arith, Bytes, length}
use osvcp.Lines.{request_name, lines, lines-append, has_newline, lines_rest-has_newline}
use osvcp.World.{World, Files, Answer, value, waiting, pure}
use osvcp.World.Laws.{bind_left}
use osvcp.FileServer.Serve.{serve_file}
use osvcp.FileServer.Requests.{
  Verdict, keep, tear_down, out_of_fuel, check_length, process_requests, req_buf_size,
}
use osvcp.FileServer.Requests.Loop.{serve_each, process_requests-lines}

module _ (fs : Files) (fd : ℕ) where
  serve_each_keep :
      (ls : List Bytes) (r x : Bytes) (w u : World)
      → serve_each fs fd ls r w ≡ (value (keep x), u)
      → x ≡ r
  unfolding serve_each
  serve_each_keep [] r x w u h = ground arith
  serve_each_keep (line ∷ ls) r x w u h =
      ground (arith, serve_each_keep ls r x (serve_file fs fd (request_name line) w).1 u)

  serve_each-append :
      (ls more : List Bytes) (r x r' : Bytes) (w u : World)
      → serve_each fs fd ls r w ≡ (value (keep x), u)
      → serve_each fs fd (ls ++ more) r' w ≡ serve_each fs fd more r' u
  unfolding serve_each
  serve_each-append [] more r x r' w u h = ap (serve_each fs fd more r') (ap (λ q. q.1) h)
  serve_each-append (line ∷ ls) more r x r' w u h =
      ground (arith, serve_each-append ls more r x r' (serve_file fs fd (request_name line) w).1 u)

  check_keep :
      (v : Verdict) (x : Bytes)
      → check_length v ≡ keep x
      → (v ≡ keep x) × (length x < req_buf_size - 1)
  check_keep (keep b) x h = ground arith
  check_keep tear_down x h = cc
  check_keep out_of_fuel x h = cc

  checked :
      (a : Answer Verdict) (w' : World) (x : Bytes) (u : World)
      → ◌≡◌ {A = Answer Verdict × World}
          (elim a [ value v ↦ (value (check_length v), w') | waiting ↦ (waiting, w') ])
          (value (keep x), u)
      → (a ≡ value (keep x)) × (w' ≡ u) × (length x < req_buf_size - 1)
  checked (value v) w' x u h =
      let (e, short) = check_keep v x (ground arith) in (ap value e, ap (λ q. q.1) h, short)
  checked waiting w' x u h = absurd (ground arith)

  process_keep :
      (buf x : Bytes) (w u : World)
      → process_requests fs fd buf w ≡ (value (keep x), u)
      → (serve_each fs fd (lines buf).0 (lines buf).1 w ≡ (value (keep x), u))
        × (length x < req_buf_size - 1)
  process_keep buf x w u h =
      let each = serve_each fs fd (lines buf).0 (lines buf).1 w in
      let (a, b, short) =
        checked each.0 each.1 x u (sym (process_requests-lines fs fd buf w) ∙ h) in
      (λ i. (a i, b i), short)

  -- What stays in the buffer of a connection that is kept has no newline, and leaves room for at
  -- least one more byte: the next `read` never asks for 0 bytes.
  pub process_requests-keep :
      (buf x : Bytes) (w u : World)
      → process_requests fs fd buf w ≡ (value (keep x), u)
      → (has_newline x ≡ false) × (length x < req_buf_size - 1)
  process_requests-keep buf x w u h =
      let (each, short) = process_keep buf x w u h in
      (
        rw (serve_each_keep (lines buf).0 (lines buf).1 x w u each) (lines_rest-has_newline buf),
        short,
      )

  -- How the stream is cut into reads makes no difference: to process a first part and then, behind
  -- what stayed in the buffer, a second one, is to process both at once, with the same replies, the
  -- same cache and the same verdict.
  pub process_requests-append :
      (a b x : Bytes) (w u : World)
      → process_requests fs fd a w ≡ (value (keep x), u)
      → process_requests fs fd (x ++ b) u ≡ process_requests fs fd (a ++ b) w
  process_requests-append a b x w u h =
      let (each, short) = process_keep a x w u h in
      let same = serve_each_keep (lines a).0 (lines a).1 x w u each in
      let l = lines ((lines a).1 ++ b) in
      rw
        (
          process_requests-lines fs fd (x ++ b) u,
          process_requests-lines fs fd (a ++ b) w,
          lines-append a b,
          same,
        )
        (bind_left (serve_each fs fd l.0 l.1) (serve_each fs fd ((lines a).0 ++ l.0) l.1)
          (λ v. pure (check_length v)) u w
          (sym (serve_each-append (lines a).0 l.0 (lines a).1 x l.1 w u each)))
