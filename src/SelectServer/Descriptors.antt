-- ===== src/SelectServer/Descriptors.antt =====
-- The sockets of exersises/concurrency/event-based-concurrency/exercise/select-server.c, from its
-- start to its end.
use osvcp.Prelude.{
  ℕ, ◌+◌, ◌≡◌, refl, ap, subst, Bool, true, false, Option, none, some, List, [], ◌∷◌, arith, Bytes,
  count, hit, length, sum,
}
use osvcp.Wire.{WriteResult}
use osvcp.World.{World, value, pure}
use osvcp.World.Preserves.{Preserves}
use osvcp.World.Moves.{Moves, Any, nothing, pure-Moves, bind-Moves, if-Moves}
use osvcp.Table.Slots.{All}
use osvcp.Sweep.{sweep}
use osvcp.Sweep.Keeps.{Kept}
use osvcp.Sweep.Account.{opt, sweep-Moves}
use osvcp.Sockets.{admit, closing, obtain, shut, shut_all}
use osvcp.Sockets.Account.{
  Held, held, admit-Moves, closing-Moves, shut_all-Moves, shut-Moves, obtain-Moves,
}
use osvcp.FileServer.Main.{fresh}
use osvcp.FileServer.EventLoop.{Client, Connection, new_client, ReadResult}
use osvcp.SelectServer.{respond, visit, Poll, broken, ready, accept_all, on_poll, Round, event_loop}
use osvcp.SelectServer.Visits.{visit-Preserves, visit-Same}
use osvcp.SelectServer.Main.{
  Setup, create_listen_socket, failure, success, sockets_of, shut_down, serve_all, main,
}

Kept-Any : (o : Option Client) → Kept Any o
Kept-Any (some c) = tt
Kept-Any none = tt

All-Any : (cs : List Client) → All Any cs
All-Any [] = tt
All-Any (c ∷ cs) = (tt, All-Any cs)

-- One descriptor `a`, over the whole run.
module _ (a : ℕ) where
  abbrev fd_of : Client → ℕ
  fd_of c = c.fd

  abbrev all_held : List Client → ℕ
  all_held cs = sum (held a fd_of) cs

  abbrev after_poll : Bool × List Client → ℕ
  after_poll n = all_held n.1

  respond-quiet : (clock : ℕ → Bytes) (k fd : ℕ) → Preserves (Held a k) (respond clock fd)
  unfolding respond
  respond-quiet clock k fd w u x h p = subst (Held a k) (ap (λ q. q.1) h) p

  visit-Moves :
      (clock : ℕ → Bytes) (reads : ℕ → Option ReadResult) (c : Client)
      → Moves
          (Held a)
          (held a fd_of c)
          Any
          (opt (held a fd_of))
          (closing fd_of (visit clock reads) c)
  visit-Moves clock reads c =
      closing-Moves a fd_of (visit clock reads) c
        (λ k. visit-Preserves clock (Held a k) (respond-quiet clock k) reads c)
        (visit-Same clock reads c)

  accept_all-Moves :
      (new : List Connection) (cs : List Client)
      → Moves (Held a) (all_held cs) Any all_held (accept_all new cs)
  unfolding accept_all
  accept_all-Moves [] cs = pure-Moves (Held a) _ Any all_held cs tt refl
  accept_all-Moves (k ∷ new) cs =
      bind-Moves (Held a) _ Any all_held Any all_held (admit k.socket (new_client k) cs)
        (accept_all new) (admit-Moves a fd_of k.socket (new_client k) cs refl)
        (λ more _. accept_all-Moves new more)

  on_poll-Moves :
      (clock : ℕ → Bytes) (p : Poll) (cs : List Client)
      → Moves (Held a) (all_held cs) Any after_poll (on_poll clock p cs)
  unfolding on_poll
  on_poll-Moves clock broken cs = pure-Moves (Held a) _ Any after_poll (false, cs) tt refl
  on_poll-Moves clock (ready new reads) cs =
      let body = closing fd_of (visit clock reads) in
      bind-Moves (Held a) _ Any all_held Any after_poll (accept_all new cs) _
        (accept_all-Moves new cs)
        (λ all _.
          bind-Moves (Held a) _ Any all_held Any after_poll (sweep body (length all) all) _
            (sweep-Moves (Held a) Any (held a fd_of) body
              (λ c _ k w u x r p. (Kept-Any x, (visit-Moves clock reads c k w u x r p).1)) all
              (All-Any all))
            (λ swept _. pure-Moves (Held a) _ Any after_poll (true, swept) tt refl))

  event_loop-Moves :
      (clock : ℕ → Bytes) (rounds : List Round) (cs : List Client)
      → Moves (Held a) (all_held cs) Any all_held (event_loop clock rounds cs)
  unfolding event_loop
  event_loop-Moves clock [] cs = pure-Moves (Held a) _ Any all_held cs tt refl
  event_loop-Moves clock (r ∷ rounds) cs =
      bind-Moves (Held a) _ Any after_poll Any all_held (on_poll clock r.poll cs) _
        (on_poll-Moves clock r.poll cs)
        (λ n _.
          let stop = pure-Moves (Held a) _ Any all_held n.1 tt refl in
          if-Moves (Held a) _ Any all_held n.0 _ (pure n.1)
            (λ _.
              if-Moves (Held a) _ Any all_held r.sigint (pure n.1) (event_loop clock rounds n.1)
                (λ _. stop) (λ _. event_loop-Moves clock rounds n.1))
            (λ _. stop))

  all_held_sockets : (cs : List Client) → sum (hit a) (sockets_of cs) ≡ all_held cs
  all_held_sockets [] = refl
  all_held_sockets (c ∷ cs) = ap (λ n. hit a c.fd + n) (all_held_sockets cs)

  shut_down-Moves :
      (listen_fd : ℕ) (cs : List Client)
      → Moves (Held a) (hit a listen_fd + all_held cs) Any nothing (shut_down listen_fd cs)
  unfolding shut_down
  shut_down-Moves listen_fd cs =
      bind-Moves (Held a) _ Any (λ _. hit a listen_fd) Any nothing (shut_all (sockets_of cs)) _
        (λ k w u x r p. (
          tt,
          omega (
            arith,
            (shut_all-Moves a (sockets_of cs) (hit a listen_fd + k) w u x r
                (omega (arith, p, all_held_sockets cs))).1,
          ),
        ))
        (λ _ _.
          bind-Moves (Held a) _ Any nothing Any nothing (shut listen_fd) _
            (λ k w u x r p. shut-Moves a listen_fd 0 k w u x r (omega (arith, p)))
            (λ _ _. pure-Moves (Held a) 0 Any nothing success tt refl))

  serve_all-Moves :
      (clock : ℕ → Bytes) (rounds : List Round) (s : Option ℕ)
      → Moves (Held a) 0 Any nothing (serve_all clock rounds s)
  unfolding serve_all
  serve_all-Moves clock rounds none = pure-Moves (Held a) 0 Any nothing failure tt refl
  serve_all-Moves clock rounds (some listen_fd) =
      bind-Moves (Held a) 0 Any (λ _. hit a listen_fd) Any nothing (obtain listen_fd) _
        (λ k w u x r p. (tt, omega (arith, (obtain-Moves a listen_fd 0 k w u x r p).1)))
        (λ _ _.
          bind-Moves (Held a) _ Any (λ cs. hit a listen_fd + all_held cs) Any nothing
            (event_loop clock rounds []) _
            (λ k w u x r p. (
              tt,
              omega (
                arith,
                (event_loop-Moves clock rounds [] (hit a listen_fd + k) w u x r
                    (omega (arith, p))).1,
              ),
            ))
            (λ cs _. shut_down-Moves listen_fd cs))

  -- When a run of `main` from its start ends with success, every descriptor was closed exactly as
  -- often as `socket` or `accept` returned it: nothing is leaked, and nothing is closed twice.
  pub main-IsClosed :
      (clock : ℕ → Bytes) (setup : Setup) (rounds : List Round) (writes : List WriteResult)
      (u : World)
      → main clock setup rounds (fresh writes) ≡ (value success, u)
      → count a u.sockets ≡ count a u.closed
  unfolding main
  main-IsClosed clock setup rounds writes u h = omega (
    arith,
    (serve_all-Moves clock rounds (create_listen_socket setup) 0 (fresh writes) u success h refl).1,
  )
