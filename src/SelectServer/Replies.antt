-- ===== src/SelectServer/Replies.antt =====
-- The responses of
-- exersises/concurrency/event-based-concurrency/exercise/select-server.c to the data of a client.
use osvcp.Prelude.{
  ℕ, zero, suc, ◌<◌, ◌≡◌, refl, Bool, true, false, inl, inr, List, [], ◌∷◌, arith, Bytes, length,
  if◌then◌else◌, Option-cases,
}
use osvcp.Lines.{split_line, lines, length-split_line, lines-split_some, lines-split_none}
use osvcp.World.{World, M, ◌>>=◌, pure}
use osvcp.World.Laws.{bind_left, bind_right}
use osvcp.SelectServer.{
  Verdict, keep, remove, respond, answer_lines, check_flood, process_client_data,
}

-- A response for each line, up to the first that cannot be written; then the rest is kept.
unfoldable pub answer_each : (ℕ → Bytes) → ℕ → List Bytes → Bytes → M Verdict
answer_each clock fd [] rest = pure (keep rest)
answer_each clock fd (line ∷ ls) rest =
    let more = answer_each clock fd ls rest in
    do ok ← respond clock fd; if ok then more else pure remove

module _ (clock : ℕ → Bytes) (fd : ℕ) where
  after_line :
      (m k : M Verdict) (ok : Bool) (u : World)
      → m u ≡ k u
      → (if ok then m else pure remove) u ≡ (if ok then k else pure remove) u
  after_line m k true u h = h
  after_line m k false u h = refl

  answer_lines-answer_each :
      (fuel : ℕ) (buf : Bytes) (w : World)
      → length buf < fuel
      → answer_lines clock fd fuel buf w ≡ answer_each clock fd (lines buf).0 (lines buf).1 w
  unfolding answer_lines answer_each
  answer_lines-answer_each zero buf w h = absurd (omega arith)
  answer_lines-answer_each (suc fuel) buf w h = elim (Option-cases (split_line buf)) [
    | inl e ↦ rw (e, answer_lines, lines-split_none buf e) refl
    | inr ((line, rest), e) ↦
        let each = answer_each clock fd (lines rest).0 (lines rest).1 in
        let loop = answer_lines clock fd fuel rest in
        let u = (respond clock fd w).1 in
        rw (e, answer_lines, lines-split_some buf line rest e)
          (bind_right (respond clock fd) (λ ok. if ok then loop else pure remove)
            (λ ok. if ok then each else pure remove) w
            (λ ok. after_line loop each ok u (
              answer_lines-answer_each fuel rest u
                (omega (arith, length-split_line buf line rest e)))))
  ]

  -- `process_client_data` writes one response for each complete line of the buffer, up to the first
  -- that cannot be written, and what follows the last newline stays in the buffer, unless it has
  -- REQ_BUF_SIZE - 1 bytes or more, when the client is removed. The loop ends: its fuel never runs
  -- out.
  pub process_client_data-lines :
      (buf : Bytes) (w : World)
      → process_client_data clock fd buf w
        ≡ (answer_each clock fd (lines buf).0 (lines buf).1 >>= λ v. pure (check_flood v)) w
  unfolding process_client_data
  process_client_data-lines buf w =
      bind_left (answer_lines clock fd (suc (length buf)) buf)
        (answer_each clock fd (lines buf).0 (lines buf).1) (λ v. pure (check_flood v)) w w
        (answer_lines-answer_each (suc (length buf)) buf w (omega arith))
