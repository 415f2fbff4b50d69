-- ===== src/SelectServer/Visits.antt =====
-- What the visit of a client of the server in
-- exersises/concurrency/event-based-concurrency/exercise/select-server.c (lines 222 to 243) leaves as
-- it is.
use osvcp.Prelude.{
  ℕ, zero, suc, ◌≡◌, refl, Option, none, some, inl, inr, [], ◌∷◌, ◌++◌, Bytes, length, Option-cases,
}
use osvcp.Lines.{split_line}
use osvcp.World.{World, pure}
use osvcp.World.Preserves.{Preserves, pure-Preserves, bind-Preserves, if-Preserves}
use osvcp.World.Ensures.{Ensures, pure-Ensures, bind-Ensures}
use osvcp.Sweep.Keeps.{Kept}
use osvcp.FileServer.EventLoop.{Client, ReadResult, got, failed}
use osvcp.SelectServer.{
  Verdict, keep, remove, out_of_fuel, respond, answer_lines, check_flood, process_client_data,
  after_data, on_bytes, on_readable, visit,
}

-- What the responses keep, the visit of a client keeps.
module _ (clock : ℕ → Bytes) (P : World → Type 0)
    (quiet : (fd : ℕ) → Preserves P (respond clock fd)) where
  answer_lines-Preserves :
      (fd fuel : ℕ) (buf : Bytes) → Preserves P (answer_lines clock fd fuel buf)
  unfolding answer_lines
  answer_lines-Preserves fd zero buf = pure-Preserves P Verdict.out_of_fuel
  answer_lines-Preserves fd (suc fuel) buf = elim (Option-cases (split_line buf)) [
    | inl e ↦ rw (e, answer_lines) (pure-Preserves P (keep buf))
    | inr ((line, rest), e) ↦
        rw (e, answer_lines)
          (bind-Preserves P (respond clock fd) _ (quiet fd) λ ok.
            if-Preserves P ok (answer_lines clock fd fuel rest) (pure remove)
              (answer_lines-Preserves fd fuel rest) (pure-Preserves P remove))
  ]

  on_bytes-Preserves : (c : Client) (bytes : Bytes) → Preserves P (on_bytes clock c bytes)
  unfolding on_bytes process_client_data
  on_bytes-Preserves c [] = pure-Preserves P none
  on_bytes-Preserves c (y ∷ bytes) =
      let buf = c.buf ++ (y ∷ bytes) in
      bind-Preserves P (process_client_data clock c.fd buf) _
        (bind-Preserves P (answer_lines clock c.fd (suc (length buf)) buf) _
          (answer_lines-Preserves c.fd (suc (length buf)) buf)
          (λ v. pure-Preserves P (check_flood v)))
        (λ v. pure-Preserves P (after_data c v))

  on_readable-Preserves : (c : Client) (r : ReadResult) → Preserves P (on_readable clock c r)
  unfolding on_readable
  on_readable-Preserves c failed = pure-Preserves P none
  on_readable-Preserves c (got bytes) = on_bytes-Preserves c _

  pub visit-Preserves :
      (reads : ℕ → Option ReadResult) (c : Client) → Preserves P (visit clock reads c)
  unfolding visit
  visit-Preserves reads c = elim (Option-cases (reads c.fd)) [
    | inl e ↦ rw (e, visit) (pure-Preserves P (some c))
    | inr (r, e) ↦ rw (e, visit) (on_readable-Preserves c r)
  ]

-- The visit of a client leaves its socket.
abbrev pub Same : Client → Option Client → Type 0
Same c o = Kept (λ (d : Client). d.fd ≡ c.fd) o

after_data-Same : (c : Client) (v : Verdict) → Same c (after_data c v)
unfolding after_data
after_data-Same c (keep buf) = refl
after_data-Same c remove = tt
after_data-Same c out_of_fuel = tt

on_bytes-Same :
    (clock : ℕ → Bytes) (c : Client) (bytes : Bytes) → Ensures (Same c) (on_bytes clock c bytes)
unfolding on_bytes
on_bytes-Same clock c [] = pure-Ensures (Same c) none tt
on_bytes-Same clock c (y ∷ bytes) =
    bind-Ensures (λ _. Unit {0}) (Same c) (process_client_data clock c.fd (c.buf ++ (y ∷ bytes))) _
      (λ w u x h. tt) (λ v _. pure-Ensures (Same c) (after_data c v) (after_data-Same c v))

on_readable-Same :
    (clock : ℕ → Bytes) (c : Client) (r : ReadResult) → Ensures (Same c) (on_readable clock c r)
unfolding on_readable
on_readable-Same clock c failed = pure-Ensures (Same c) none tt
on_readable-Same clock c (got bytes) = on_bytes-Same clock c _

pub visit-Same :
    (clock : ℕ → Bytes) (reads : ℕ → Option ReadResult) (c : Client)
    → Ensures (Same c) (visit clock reads c)
unfolding visit
visit-Same clock reads c = elim (Option-cases (reads c.fd)) [
  | inl e ↦ rw (e, visit) (pure-Ensures (Same c) (some c) refl)
  | inr (r, e) ↦ rw (e, visit) (on_readable-Same clock c r)
]
