-- ===== src/FileServer/Requests/Loop.antt =====
-- The loop over a buffer serves its lines in order, and ends.
use osvcp.Prelude.{
  ℕ, zero, suc, ◌<◌, ◌≡◌, refl, Bool, true, false, inl, inr, List, [], ◌∷◌, arith, Bytes, length,
  if◌then◌else◌, Option-cases,
}
use osvcp.Lines.{
  split_line, request_name, lines, length-split_line, lines-split_some, lines-split_none,
}
use osvcp.World.{World, Files, M, ◌>>=◌, pure}
use osvcp.World.Laws.{bind_left, bind_right}
use osvcp.FileServer.Serve.{serve_file}
use osvcp.FileServer.Requests.{
  Verdict, keep, tear_down, serve_lines, check_length, process_requests,
}

-- Lines served one after another, up to the first that returns -1; then the rest is kept.
unfoldable pub serve_each : Files → ℕ → List Bytes → Bytes → M Verdict
serve_each fs fd [] rest = pure (keep rest)
serve_each fs fd (line ∷ ls) rest =
    let more = serve_each fs fd ls rest in
    serve_file fs fd (request_name line) >>= λ served. if served then more else pure tear_down

module _ (fs : Files) (fd : ℕ) where
  -- The branches after a line agree if the loops behind it do.
  after_line :
      (m k : M Verdict) (served : Bool) (u : World)
      → m u ≡ k u
      → (if served then m else pure tear_down) u ≡ (if served then k else pure tear_down) u
  after_line m k true u h = h
  after_line m k false u h = refl

  serve_lines-serve_each :
      (fuel : ℕ) (buf : Bytes) (w : World)
      → length buf < fuel
      → serve_lines fs fd fuel buf w ≡ serve_each fs fd (lines buf).0 (lines buf).1 w
  unfolding serve_lines serve_each
  serve_lines-serve_each zero buf w h = absurd (omega arith)
  serve_lines-serve_each (suc fuel) buf w h = elim (Option-cases (split_line buf)) [
    | inl e ↦ rw (e, serve_lines, lines-split_none buf e) refl
    | inr ((line, rest), e) ↦
        rw (e, serve_lines, lines-split_some buf line rest e)
          (bind_right (serve_file fs fd (request_name line))
            (λ served. if served then serve_lines fs fd fuel rest else pure tear_down)
            (λ served.
              if served then serve_each fs fd (lines rest).0 (lines rest).1 else pure tear_down)
            w
            λ served.
              after_line (serve_lines fs fd fuel rest)
                (serve_each fs fd (lines rest).0 (lines rest).1) served
                (serve_file fs fd (request_name line) w).1
                (serve_lines-serve_each fuel rest (serve_file fs fd (request_name line) w).1
                  (omega (arith, length-split_line buf line rest e))))
  ]

  -- `process_requests` serves exactly the complete lines of the buffer, in order, each once, up to
  -- the first that fails; what follows the last newline stays in the buffer, unless it has
  -- REQ_BUF_SIZE - 1 bytes or more, when the connection is torn down. The loop ends: its fuel
  -- never runs out.
  pub process_requests-lines :
      (buf : Bytes) (w : World)
      → process_requests fs fd buf w
        ≡ (serve_each fs fd (lines buf).0 (lines buf).1 >>= λ v. pure (check_length v)) w
  unfolding process_requests
  process_requests-lines buf w =
      bind_left (serve_lines fs fd (suc (length buf)) buf)
        (serve_each fs fd (lines buf).0 (lines buf).1) (λ v. pure (check_length v)) w w
        (serve_lines-serve_each (suc (length buf)) buf w (omega arith))
