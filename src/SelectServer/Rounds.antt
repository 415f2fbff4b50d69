-- ===== src/SelectServer/Rounds.antt =====
-- The table of clients over the rounds of
-- exersises/concurrency/event-based-concurrency/exercise/select-server.c.
use osvcp.Prelude.{
  ℕ, ◌<◌, ◌-◌, ◌≡◌, ◌∙◌, sym, refl, Bool, true, false, Option, none, some, inl, inr, List, [], ◌∷◌,
  ◌++◌, arith, Bytes, length, leb, Option-cases, Bool-cases,
}
use osvcp.Lines.{lines, has_newline, lines_rest-has_newline}
use osvcp.Sockets.{admit, closing}
use osvcp.Sockets.Keeps.{admit-IsTable, closing-Kept}
use osvcp.Table.Slots.{IsTable}
use osvcp.Sweep.{sweep}
use osvcp.Sweep.Keeps.{Kept, sweep-IsTable}
use osvcp.World.{World, value, pure}
use osvcp.World.Ensures.{Ensures, pure-Ensures, bind-Ensures, if-Ensures}
use osvcp.FileServer.EventLoop.{Client, Connection, new_client, ReadResult, got, failed}
use osvcp.FileServer.EventLoop.Buffers.{IsReady}
use osvcp.SelectServer.{
  Verdict, keep, remove, out_of_fuel, respond, check_flood, process_client_data, req_buf_size,
  after_data, on_bytes, on_readable, visit, Poll, broken, ready, accept_all, on_poll, Round,
  event_loop,
}
use osvcp.SelectServer.Replies.{answer_each, process_client_data-lines}

-- A buffer that is kept has no complete line and room for a byte.
abbrev Calm : Verdict → Type 0
Calm (keep b) = (has_newline b ≡ false) × (length b < req_buf_size - 1)
Calm remove = Unit {0}
Calm out_of_fuel = Unit {0}

-- The rest is kept or the client is removed.
abbrev Rest : Bytes → Verdict → Type 0
Rest rest (keep b) = b ≡ rest
Rest rest remove = Unit {0}
Rest rest out_of_fuel = Unit {0}

answer_each-Rest :
    (clock : ℕ → Bytes) (fd : ℕ) (ls : List Bytes) (rest : Bytes)
    → Ensures (Rest rest) (answer_each clock fd ls rest)
unfolding answer_each
answer_each-Rest clock fd [] rest = pure-Ensures (Rest rest) (keep rest) refl
answer_each-Rest clock fd (line ∷ ls) rest =
    bind-Ensures (λ _. Unit {0}) (Rest rest) (respond clock fd) _ (λ w u x h. tt)
      (λ ok _.
        if-Ensures (Rest rest) ok (answer_each clock fd ls rest) (pure remove)
          (answer_each-Rest clock fd ls rest) (pure-Ensures (Rest rest) remove tt))

flood-Calm :
    (rest : Bytes) (v : Verdict) → has_newline rest ≡ false → Rest rest v → Calm (check_flood v)
flood-Calm rest (keep b) n e = elim (Bool-cases (leb (req_buf_size - 1) (length b))) [
  | inl f ↦ rw f tt
  | inr f ↦ rw f (rw e n, ground arith)
]
flood-Calm rest remove n e = tt
flood-Calm rest out_of_fuel n e = tt

process_client_data-Calm :
    (clock : ℕ → Bytes) (fd : ℕ) (buf : Bytes) → Ensures Calm (process_client_data clock fd buf)
process_client_data-Calm clock fd buf w u v h =
    let rest = (lines buf).1 in
    bind-Ensures (Rest rest) Calm (answer_each clock fd (lines buf).0 rest)
      (λ v. pure (check_flood v)) (answer_each-Rest clock fd (lines buf).0 rest)
      (λ v r. pure-Ensures Calm (check_flood v) (flood-Calm rest v (lines_rest-has_newline buf) r))
      w u v (sym (process_client_data-lines clock fd buf w) ∙ h)

after_data-Kept : (c : Client) (v : Verdict) → Calm v → Kept IsReady (after_data c v)
unfolding after_data
after_data-Kept c (keep b) q = record { drained = q.0; room = q.1 }
after_data-Kept c remove q = tt
after_data-Kept c out_of_fuel q = tt

visit-Kept :
    (clock : ℕ → Bytes) (reads : ℕ → Option ReadResult) (c : Client)
    → IsReady c
    → Ensures (Kept IsReady) (visit clock reads c)
unfolding visit on_readable on_bytes
visit-Kept clock reads c q = elim (Option-cases (reads c.fd)) [
  | inl e ↦ rw (e, visit) (pure-Ensures (Kept IsReady) (some c) q)
  | inr (got bytes, e) ↦ rw (e, visit) (bytes-Kept clock c _)
  | inr (failed, e) ↦ rw (e, visit) (pure-Ensures (Kept IsReady) none tt)
]
  where
    bytes-Kept :
        (clock : ℕ → Bytes) (c : Client) (bytes : Bytes)
        → Ensures (Kept IsReady) (on_bytes clock c bytes)
    bytes-Kept clock c [] = pure-Ensures (Kept IsReady) none tt
    bytes-Kept clock c (y ∷ bytes) =
        bind-Ensures Calm (Kept IsReady) (process_client_data clock c.fd (c.buf ++ (y ∷ bytes))) _
          (process_client_data-Calm clock c.fd (c.buf ++ (y ∷ bytes)))
          (λ v q. pure-Ensures (Kept IsReady) (after_data c v) (after_data-Kept c v q))

accept_all-IsTable :
    (new : List Connection) (cs : List Client)
    → IsTable IsReady cs
    → Ensures (IsTable IsReady) (accept_all new cs)
unfolding accept_all has_newline
accept_all-IsTable [] cs t = pure-Ensures (IsTable IsReady) cs t
accept_all-IsTable (k ∷ new) cs t =
    bind-Ensures (IsTable IsReady) (IsTable IsReady) (admit k.socket (new_client k) cs)
      (accept_all new)
      (admit-IsTable IsReady k.socket (new_client k) cs
        (record { drained = refl; room = omega arith }) t)
      (λ more q. accept_all-IsTable new more q)

on_poll-IsTable :
    (clock : ℕ → Bytes) (p : Poll) (cs : List Client)
    → IsTable IsReady cs
    → Ensures (λ r. IsTable IsReady r.1) (on_poll clock p cs)
unfolding on_poll
on_poll-IsTable clock broken cs t = pure-Ensures (λ r. IsTable IsReady r.1) (false, cs) t
on_poll-IsTable clock (ready new reads) cs t =
    let body = closing (λ (c : Client). c.fd) (visit clock reads) in
    bind-Ensures (IsTable IsReady) (λ (r : Bool × List Client). IsTable IsReady r.1)
      (accept_all new cs) _ (accept_all-IsTable new cs t)
      (λ all a.
        bind-Ensures (IsTable IsReady) (λ (r : Bool × List Client). IsTable IsReady r.1)
          (sweep body (length all) all) _
          (sweep-IsTable IsReady body
            (λ c q.
              closing-Kept IsReady (λ (c : Client). c.fd) (visit clock reads) c
                (visit-Kept clock reads c q))
            (length all) all a)
          (λ swept q.
            pure-Ensures (λ (r : Bool × List Client). IsTable IsReady r.1) (true, swept) q))

event_loop-Ensures :
    (clock : ℕ → Bytes) (rounds : List Round) (cs : List Client)
    → IsTable IsReady cs
    → Ensures (IsTable IsReady) (event_loop clock rounds cs)
unfolding event_loop
event_loop-Ensures clock [] cs t = pure-Ensures (IsTable IsReady) cs t
event_loop-Ensures clock (r ∷ rounds) cs t =
    bind-Ensures (λ (n : Bool × List Client). IsTable IsReady n.1) (IsTable IsReady)
      (on_poll clock r.poll cs) _ (on_poll-IsTable clock r.poll cs t)
      (λ n q.
        let stop = pure-Ensures (IsTable IsReady) n.1 q in
        if-Ensures (IsTable IsReady) n.0 _ (pure n.1)
          (if-Ensures (IsTable IsReady) r.sigint (pure n.1) (event_loop clock rounds n.1) stop
            (event_loop-Ensures clock rounds n.1 q))
          stop)

-- Whatever the rounds bring, the time server never has more than MAX_CLIENTS clients, no complete
-- request waits in a buffer when it goes back to `select`, and every buffer has room for a byte.
pub event_loop-IsCalm :
    (clock : ℕ → Bytes) (rounds : List Round) (cs ds : List Client) (w u : World)
    → event_loop clock rounds cs w ≡ (value ds, u)
    → IsTable IsReady cs
    → IsTable IsReady ds
event_loop-IsCalm clock rounds cs ds w u h t = event_loop-Ensures clock rounds cs t w u ds h
